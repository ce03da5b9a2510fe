-- ===== src/Sieve/Xml.antt =====
-- internal/toolstream/tool_sieve_xml.go and tool_sieve_xml_scan.go: complete blocks of tool calls in a
-- captured text. `parse` is ParseStandaloneToolCallsDetailed of internal/toolcall for the tools at hand.
use generalcompute2api.Prelude.{
  ℕ, zero, suc, ◌+◌, Bool, true, false, not, ◌&&◌, ◌||◌, List, [], ◌++◌, Option, none, some,
  if◌then◌else◌, leb, ltb, length, take, drop,
}
use generalcompute2api.Prelude.Runs.{Run, ok, out_of_fuel, ◌>>=◌}
use generalcompute2api.Prelude.Strings.{contains, count, trim_left_where}
use generalcompute2api.Prelude.Text.{Str, codes, has_prefix, str_eq, trim_space}
use generalcompute2api.Util.Lower.{to_lower}
use generalcompute2api.Fence.{non_empty}
use generalcompute2api.Markup.Find.{
  find_matching_tool_markup_close, find_tool_markup_tag_outside_ignored,
}
use generalcompute2api.Markup.Names.{invoke, tool_calls}
use generalcompute2api.Markup.Scan.{ToolMarkupTag, slice}
use generalcompute2api.Sieve.{Capture}
use generalcompute2api.Sieve.Fences.{is_space, trim_wrapping_json_fence}

-- The fields of `ToolCallParseResult` that the sieve reads.
pub record ToolCallParseResult (C : Type 0) : Type 0 where
  pub calls : List C
  pub saw_tool_call_syntax : Bool

abbrev pub RejectedBlock : Type 0
RejectedBlock = ℕ × Str × Str

-- The end of the loop: the best candidate, or whether an open tag was found, and the first rejected block.
pub data Scanned (C : Type 0) : Type 0 where
  candidate : Capture C → Scanned C
  scanned : Bool → Option RejectedBlock → Scanned C

-- The rejected block that begins first.
abbrev pub earlier : Option RejectedBlock → RejectedBlock → Option RejectedBlock
earlier none b = some b
earlier (some a) b = if ltb b.0 a.0 then some b else some a

-- An opening wrapper of tool calls.
unfoldable pub is_wrapper_open : ToolMarkupTag → Bool
unfolding str_eq
is_wrapper_open tag = not (tag.closing || not (str_eq tag.name tool_calls))

module _ (lower_rune : ℕ → ℕ) where
  -- The loop of `findFirstToolMarkupTagByNameFrom`.
  unfoldable pub first_tag_loop : ℕ → Str → ℕ → Str → Bool → Run (Option ToolMarkupTag)
  unfolding find_tool_markup_tag_outside_ignored
  first_tag_loop zero s pos name closing = out_of_fuel
  first_tag_loop (suc fuel) s pos name closing =
      if leb (length s) pos
      then ok none
      else (find_tool_markup_tag_outside_ignored lower_rune s pos >>= λ o. elim o [
        | none ↦ ok none
        | some tag ↦
            elim (str_eq tag.name name && (if closing then tag.closing else not tag.closing)) [
              | true ↦ ok (some tag)
              | false ↦ first_tag_loop fuel s (tag.end + 1) name closing
            ]
      ])

  unfoldable pub find_first_tool_markup_tag_by_name_from :
      Str → ℕ → Str → Bool → Run (Option ToolMarkupTag)
  unfolding first_tag_loop
  find_first_tool_markup_tag_by_name_from s start name closing =
      first_tag_loop (suc (length s)) s start name closing

  abbrev pub find_first_tool_markup_tag_by_name : Str → ℕ → Str → Run (Option ToolMarkupTag)
  find_first_tool_markup_tag_by_name s start name =
      find_first_tool_markup_tag_by_name_from s start name false

  -- The loop of `hasOpenXMLToolTag`.
  unfoldable pub open_tag_loop : ℕ → Str → ℕ → Run Bool
  unfolding find_tool_markup_tag_outside_ignored find_matching_tool_markup_close is_wrapper_open
  open_tag_loop zero captured from = out_of_fuel
  open_tag_loop (suc fuel) captured from =
      if leb (length captured) from
      then ok false
      else (find_tool_markup_tag_outside_ignored lower_rune captured from >>= λ o. elim o [
        | none ↦ ok false
        | some tag ↦ elim (is_wrapper_open tag) [
          | false ↦ open_tag_loop fuel captured (tag.end + 1)
          | true ↦ find_matching_tool_markup_close lower_rune captured tag >>= λ c. elim c [
            | none ↦ ok true
            | some _ ↦ open_tag_loop fuel captured (tag.end + 1)
          ]
        ]
      ])

  unfoldable pub has_open_xml_tool_tag : Str → Run Bool
  unfolding open_tag_loop
  has_open_xml_tool_tag captured = open_tag_loop (suc (length captured)) captured 0

  -- Whether a text begins like a parameter or JSON.
  abbrev begins_like_parameter : Str → Bool
  unfolding has_prefix to_lower
  begins_like_parameter body =
      let lower = to_lower lower_rune body in
      has_prefix lower (codes "<parameter")
      || has_prefix lower (codes "{")
      || has_prefix lower (codes "[")

  -- What `shouldKeepBareInvokeCapture` asks after the tag is known to be bare.
  unfoldable pub keep_bare_body : Str → ToolMarkupTag → Run Bool
  unfolding begins_like_parameter trim_left_where trim_space find_first_tool_markup_tag_by_name_from
  keep_bare_body captured invoke_tag =
      let body = trim_left_where is_space (drop (invoke_tag.end + 1) captured) in
      elim (non_empty body) [
        | false ↦ ok true
        | true ↦
            find_first_tool_markup_tag_by_name_from captured (invoke_tag.end + 1) invoke true
            >>= λ o. ok (elim o [
              | some close ↦ not (non_empty (trim_space (drop (close.end + 1) captured)))
              | none ↦ begins_like_parameter body
            ])
      ]

  unfoldable pub should_keep_bare_invoke_capture : Str → Run Bool
  unfolding keep_bare_body find_first_tool_markup_tag_by_name_from
  should_keep_bare_invoke_capture captured =
      find_first_tool_markup_tag_by_name captured 0 invoke >>= λ o. elim o [
        | none ↦ ok false
        | some invoke_tag ↦ find_first_tool_markup_tag_by_name captured 0 tool_calls >>= λ w.
            elim (elim w as (λ _. Bool) [
              | none ↦ false
              | some open_tag ↦ leb open_tag.start invoke_tag.start
            ]) [
              | true ↦ ok false
              | false ↦
                  find_first_tool_markup_tag_by_name_from captured (invoke_tag.start + 1) tool_calls
                    true
                  >>= λ c.
                      elim (elim c as (λ _. Bool) [
                        | none ↦ false
                        | some close ↦ ltb invoke_tag.start close.start
                      ]) [ true ↦ ok true | false ↦ keep_bare_body captured invoke_tag ]
            ]
      ]

  unfoldable pub has_malformed_executable_tool_marker : Str → Bool
  unfolding to_lower count
  has_malformed_executable_tool_marker captured =
      let lowered = to_lower lower_rune captured in
      contains lowered (codes "minimaxtool_call")
      || contains lowered (codes "<tool_call>")
      || contains lowered (codes "<tool_call ")
      || contains lowered (codes "<tool_call\n")
      || contains lowered (codes "<tool_call\r")
      || contains lowered (codes "<tool_call\t")
      || ltb 1 (count lowered (codes "<invoke"))

module _ {C : Type 0} where
  abbrev pub with_calls : List C → Str × Str → Capture C
  with_calls calls (before, after) = record { before = before; calls = calls; after = after }

module _ {C : Type 0} (lower_rune : ℕ → ℕ) (equal_fold : Str → Str → Bool)
    (parse : Str → ToolCallParseResult C) where
  -- The loop of `consumeXMLToolCapture`.
  unfoldable pub block_loop : ℕ → Str → ℕ → Bool → Option RejectedBlock → Run (Scanned C)
  unfolding find_tool_markup_tag_outside_ignored find_matching_tool_markup_close is_wrapper_open
      trim_wrapping_json_fence
  block_loop zero captured from any_open rejected = out_of_fuel
  block_loop (suc fuel) captured from any_open rejected =
      if leb (length captured) from
      then ok (scanned any_open rejected)
      else (find_tool_markup_tag_outside_ignored lower_rune captured from >>= λ o. elim o [
        | none ↦ ok (scanned any_open rejected)
        | some tag ↦ elim (is_wrapper_open tag) [
          | false ↦ block_loop fuel captured (tag.end + 1) any_open rejected
          | true ↦ find_matching_tool_markup_close lower_rune captured tag >>= λ c. elim c [
            | none ↦ block_loop fuel captured (tag.end + 1) true rejected
            | some close ↦ slice tag.start (close.end + 1) captured >>= λ block.
                (let before = take tag.start captured in
                  let after = drop (close.end + 1) captured in
                  let parsed = parse block in
                  elim (non_empty parsed.calls) [
                    | true ↦ ok (
                        candidate (
                          with_calls parsed.calls
                            (trim_wrapping_json_fence equal_fold before after)))
                    | false ↦ block_loop fuel captured (tag.end + 1) any_open (
                        earlier rejected (
                          tag.start,
                          if parsed.saw_tool_call_syntax then before else before ++ block,
                          after,
                        ))
                  ])
          ]
        ]
      ])

  -- A bare `<invoke>` that a closing wrapper ends.
  unfoldable pub consume_invoke : Str → ToolMarkupTag → ToolMarkupTag → Run (Capture C)
  unfolding trim_wrapping_json_fence
  consume_invoke captured invoke_tag close =
      slice invoke_tag.start (close.end + 1) captured >>= λ block.
      (let before = take invoke_tag.start captured in
        let after = drop (close.end + 1) captured in
        let parsed = parse (codes "<tool_calls>" ++ block) in
        ok (
          with_calls parsed.calls (
            if non_empty parsed.calls
            then trim_wrapping_json_fence equal_fold before after
            else (if parsed.saw_tool_call_syntax then before else before ++ block, after))))

  -- What is tried where no wrapper was found.
  unfoldable pub consume_bare_invoke : Str → Run (Option (Capture C))
  unfolding find_first_tool_markup_tag_by_name_from consume_invoke
  consume_bare_invoke captured =
      find_first_tool_markup_tag_by_name lower_rune captured 0 invoke >>= λ o. elim o [
        | none ↦ ok none
        | some invoke_tag ↦
            find_first_tool_markup_tag_by_name lower_rune captured 0 tool_calls >>= λ w.
            elim (elim w as (λ _. Bool) [
              | none ↦ true
              | some open_tag ↦ ltb invoke_tag.start open_tag.start
            ]) [
              | false ↦ ok none
              | true ↦
                  find_first_tool_markup_tag_by_name_from lower_rune captured (invoke_tag.start + 1)
                    tool_calls true
                  >>= λ c. elim c [
                    | none ↦ ok none
                    | some close ↦ elim (ltb invoke_tag.start close.start) [
                      | false ↦ ok none
                      | true ↦ consume_invoke captured invoke_tag close >>= λ cap. ok (some cap)
                    ]
                  ]
            ]
      ]

  unfoldable pub consume_xml_tool_capture : Str → Run (Option (Capture C))
  unfolding block_loop consume_bare_invoke
  consume_xml_tool_capture captured =
      block_loop (suc (length captured)) captured 0 false none >>= λ found. elim found [
        | candidate cap ↦ ok (some cap)
        | scanned any_open rejected ↦ elim any_open [
          | true ↦ ok none
          | false ↦ elim rejected [
            | some block ↦ ok (some (with_calls [] (block.1, block.2)))
            | none ↦ consume_bare_invoke captured
          ]
        ]
      ]
