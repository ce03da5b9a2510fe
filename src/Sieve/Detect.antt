-- ===== src/Sieve/Detect.antt =====
-- internal/toolstream/tool_sieve_core.go: where a tool call may begin, which text is safe to emit, and what
-- a captured text has. internal/toolcall/toolcalls_markup.go: the repair of loose CDATA openings.
use generalcompute2api.Prelude.{
  ℕ, zero, suc, ◌+◌, Bool, true, false, ◌||◌, List, [], ◌++◌, Option, none, some, if◌then◌else◌,
  leb, ◌==◌, length, take, drop,
}
use generalcompute2api.Prelude.Runs.{Run, ok, out_of_fuel, ◌>>=◌, slice_from}
use generalcompute2api.Prelude.Strings.{contains, index}
use generalcompute2api.Prelude.Text.{Str, codes}
use generalcompute2api.Util.Lower.{to_lower}
use generalcompute2api.Fence.{CodeFence, inside_code_fence_with_state, non_empty}
use generalcompute2api.Markup.Find.{find_tool_markup_tag_outside_ignored}
use generalcompute2api.Markup.Scan.{is_partial_tool_markup_tag_prefix, slice}
use generalcompute2api.Sieve.{Capture, Detector}
use generalcompute2api.Sieve.Fences.{
  after_last, find_partial_shell_code_fence_start, find_shell_code_fence_start,
  has_open_shell_code_fence, include_duplicate_leading_less_than,
}
use generalcompute2api.Sieve.Bare.{
  find_bare_tool_name_tag_start, find_minimax_tool_call_start,
  find_partial_bare_tool_name_tag_start, find_partial_minimax_tool_call_start, has_open_bare_tag,
}
use generalcompute2api.Sieve.Xml.{
  ToolCallParseResult, consume_xml_tool_capture, has_malformed_executable_tool_marker,
  has_open_xml_tool_tag, should_keep_bare_invoke_capture, with_calls,
}

-- What is safe before a text that begins at `start` and is held, unless it stands in a code fence.
unfoldable pub split_at_start : CodeFence → Str → ℕ → Str × Str
split_at_start f s start =
    if inside_code_fence_with_state f (take start s) then (s, []) else (take start s, drop start s)

module _ (lower_rune : ℕ → ℕ) where
  unfoldable pub find_partial_xml_tool_tag_start : Str → Run (Option ℕ)
  unfolding after_last include_duplicate_leading_less_than is_partial_tool_markup_tag_prefix
  find_partial_xml_tool_tag_start s = elim (after_last (λ c. c == b'<') s) [
    | zero ↦ ok none
    | suc last_lt ↦
        let start = include_duplicate_leading_less_than s last_lt in
        let tail = drop start s in
        elim (contains tail (codes ">")) [
          | true ↦ ok none
          | false ↦ is_partial_tool_markup_tag_prefix lower_rune tail >>= λ partial.
              ok (if partial then some start else none)
        ]
  ]

  unfoldable pub split_safe_content_for_tool_detection :
      List Str → CodeFence → Str → Run (Str × Str)
  unfolding find_partial_xml_tool_tag_start find_partial_minimax_tool_call_start
      find_partial_shell_code_fence_start find_partial_bare_tool_name_tag_start split_at_start
  split_safe_content_for_tool_detection names f s = find_partial_xml_tool_tag_start s >>= λ x.
      elim x [
        | some start ↦ ok (split_at_start f s start)
        | none ↦ find_partial_minimax_tool_call_start lower_rune s >>= λ m. elim m [
          | some start ↦ ok (split_at_start f s start)
          | none ↦ elim (find_partial_shell_code_fence_start lower_rune s) [
            | some start ↦ ok (split_at_start f s start)
            | none ↦ elim (find_partial_bare_tool_name_tag_start lower_rune s names) [
              | some start ↦ ok (split_at_start f s start)
              | none ↦ ok (s, [])
            ]
          ]
        ]
      ]

  -- The loop over the tags of `findToolSegmentStart`.
  unfoldable pub segment_loop : ℕ → CodeFence → Str → ℕ → Run (Option ℕ)
  unfolding find_tool_markup_tag_outside_ignored include_duplicate_leading_less_than
  segment_loop zero f s offset = out_of_fuel
  segment_loop (suc fuel) f s offset =
      find_tool_markup_tag_outside_ignored lower_rune s offset >>= λ o. elim o [
        | none ↦ ok none
        | some tag ↦
            let start = include_duplicate_leading_less_than s tag.start in
            elim (inside_code_fence_with_state f (take start s)) [
              | false ↦ ok (some start)
              | true ↦ segment_loop fuel f s (tag.end + 1)
            ]
      ]

  -- `SanitizeLooseCDATA` from `pos`; the text that it builds is returned.
  unfoldable pub sanitize_loop : ℕ → Str → Str → ℕ → Run Str
  unfolding index
  sanitize_loop zero text lower pos = out_of_fuel
  sanitize_loop (suc fuel) text lower pos =
      if leb (length text) pos
      then ok []
      else (slice_from pos lower >>= λ tail. elim (index tail (codes "<![cdata[")) [
        | none ↦ ok (drop pos text)
        | some start_rel ↦
            let start = pos + start_rel in
            let content_start = start + 9 in
            slice pos start text >>= λ before. slice_from content_start lower >>= λ rest.
            elim (index rest (codes "]]>")) [
              | some end_rel ↦
                  let end = content_start + end_rel + 3 in
                  slice start end text >>= λ section.
                  sanitize_loop fuel text lower end >>= λ more. ok (before ++ (section ++ more))
              | none ↦ slice_from content_start text >>= λ content. ok (before ++ content)
            ]
      ])

  unfoldable pub sanitize_loose_cdata : Str → Run Str
  unfolding sanitize_loop
  sanitize_loose_cdata text = sanitize_loop (suc (length text)) text (to_lower lower_rune text) 0

module _ (lower_rune : ℕ → ℕ) (equal_fold : Str → Str → Bool) where
  unfoldable pub find_tool_segment_start : List Str → CodeFence → Str → Run (Option ℕ)
  unfolding find_minimax_tool_call_start find_shell_code_fence_start segment_loop
      find_bare_tool_name_tag_start
  find_tool_segment_start names f s = find_minimax_tool_call_start lower_rune f s >>= λ m. elim m [
    | some start ↦ ok (some start)
    | none ↦ find_shell_code_fence_start lower_rune f s >>= λ h. elim h [
      | some start ↦ ok (some start)
      | none ↦ segment_loop lower_rune (suc (length s)) f s 0 >>= λ t. elim t [
        | some start ↦ ok (some start)
        | none ↦ ok (find_bare_tool_name_tag_start lower_rune equal_fold f s names)
      ]
    ]
  ]

-- The tests of `consumeToolCapture` that keep the text buffered, in order.
module _ (lower_rune : ℕ → ℕ) where
  unfoldable pub keeps_buffering : List Str → Str → Run Bool
  unfolding has_open_shell_code_fence has_open_xml_tool_tag should_keep_bare_invoke_capture
      has_open_bare_tag has_malformed_executable_tool_marker
  keeps_buffering names captured = elim (has_open_shell_code_fence lower_rune captured) [
    | true ↦ ok true
    | false ↦ has_open_xml_tool_tag lower_rune captured >>= λ a. elim a [
      | true ↦ ok true
      | false ↦ should_keep_bare_invoke_capture lower_rune captured >>= λ b. ok (
          b
          || has_open_bare_tag lower_rune (to_lower lower_rune captured) names
          || has_malformed_executable_tool_marker lower_rune captured)
    ]
  ]

module _ {C : Type 0} (lower_rune : ℕ → ℕ) (equal_fold : Str → Str → Bool)
    (parse : Str → ToolCallParseResult C) where
  unfoldable pub consume_tool_capture : List Str → Str → Run (Option (Capture C))
  unfolding consume_xml_tool_capture keeps_buffering
  consume_tool_capture names captured = elim (non_empty captured) [
    | false ↦ ok none
    | true ↦ consume_xml_tool_capture lower_rune equal_fold parse captured >>= λ o. elim o [
      | some cap ↦ ok (some cap)
      | none ↦
          let parsed = parse captured in
          elim (non_empty parsed.calls) [
            | true ↦ ok (some (with_calls parsed.calls ([], [])))
            | false ↦ keeps_buffering lower_rune names captured >>= λ keeps.
                ok (if keeps then none else some (with_calls [] (captured, [])))
          ]
    ]
  ]

  -- The detector of the program, for these tool names.
  abbrev pub sieve_detector : List Str → Detector C
  sieve_detector names = record {
    find_start = find_tool_segment_start lower_rune equal_fold names;
    split_safe = split_safe_content_for_tool_detection lower_rune names;
    consume = consume_tool_capture names;
    consume_xml = consume_xml_tool_capture lower_rune equal_fold parse;
    sanitize = sanitize_loose_cdata lower_rune;
    is_malformed = has_malformed_executable_tool_marker lower_rune;
  }
