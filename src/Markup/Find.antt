-- ===== src/Markup/Find.antt =====
-- internal/toolcall/toolcalls_scan.go: the next tag of a text, and the tag that closes another.
use generalcompute2api.Prelude.{
  ◌&&◌, ℕ, zero, suc, ◌+◌, Bool, true, false, not, ◌||◌, [], Option, none, some, if◌then◌else◌, leb,
  length,
}
use generalcompute2api.Prelude.Runs.{Run, ok, out_of_fuel, ◌>>=◌}
use generalcompute2api.Prelude.Text.{Str, str_eq}
use generalcompute2api.Util.Lower.{to_lower}
use generalcompute2api.Markup.Ignored.{advanced, blocked, nothing, skip_xml_ignored_section}
use generalcompute2api.Markup.Names.{tool_calls}
use generalcompute2api.Markup.Scan.{ToolMarkupTag, scan_tool_markup_tag_at}

module _ (lower_rune : ℕ → ℕ) where
  unfoldable pub find_loop : ℕ → Str → Str → ℕ → Run (Option ToolMarkupTag)
  unfolding scan_tool_markup_tag_at skip_xml_ignored_section
  find_loop zero text lower i = out_of_fuel
  find_loop (suc fuel) text lower i =
      if leb (length text) i
      then ok none
      else (skip_xml_ignored_section text lower i >>= λ skip. elim skip [
        | blocked ↦ ok none
        | advanced next ↦ find_loop fuel text lower next
        | nothing ↦ scan_tool_markup_tag_at lower_rune text i >>= λ o. elim o [
          | some tag ↦ ok (some tag)
          | none ↦ find_loop fuel text lower (i + 1)
        ]
      ])

  unfoldable pub find_tool_markup_tag_outside_ignored : Str → ℕ → Run (Option ToolMarkupTag)
  unfolding find_loop
  find_tool_markup_tag_outside_ignored text start =
      find_loop (suc (length text)) text (to_lower lower_rune text) start

  -- The loop of `FindMatchingToolMarkupClose`, with one less than the depth.
  unfoldable pub matching_loop : ℕ → Str → Str → ℕ → ℕ → Run (Option ToolMarkupTag)
  unfolding find_tool_markup_tag_outside_ignored
  matching_loop zero text name depth pos = out_of_fuel
  matching_loop (suc fuel) text name depth pos =
      if leb (length text) pos
      then ok none
      else (find_tool_markup_tag_outside_ignored text pos >>= λ o. elim o [
        | none ↦ ok none
        | some tag ↦
            if not (str_eq tag.name name)
            then matching_loop fuel text name depth (tag.end + 1)
            else if tag.closing
            then (elim depth [
              | zero ↦ ok (some tag)
              | suc less ↦ matching_loop fuel text name less (tag.end + 1)
            ])
            else if not tag.self_closing
            then matching_loop fuel text name (suc depth) (tag.end + 1)
            else matching_loop fuel text name depth (tag.end + 1)
      ])

  unfoldable pub find_matching_tool_markup_close : Str → ToolMarkupTag → Run (Option ToolMarkupTag)
  unfolding matching_loop
  find_matching_tool_markup_close text opener =
      if str_eq text [] || str_eq opener.name [] || opener.closing
      then ok none
      else matching_loop (suc (length text)) text opener.name 0 (opener.end + 1)

  -- The loops of the two `Contains…SyntaxOutsideIgnored`: `only_wrappers` where only the tags of that
  -- name count.
  unfoldable pub contains_loop : Bool → ℕ → Str → Str → ℕ → Bool × Bool → Run (Bool × Bool)
  unfolding scan_tool_markup_tag_at skip_xml_ignored_section
  contains_loop only_wrappers zero text lower i seen = out_of_fuel
  contains_loop only_wrappers (suc fuel) text lower i (has_dsml, has_canonical) =
      if leb (length text) i
      then ok (has_dsml, has_canonical)
      else (skip_xml_ignored_section text lower i >>= λ skip. elim skip [
        | blocked ↦ ok (has_dsml, has_canonical)
        | advanced next ↦ contains_loop only_wrappers fuel text lower next (has_dsml, has_canonical)
        | nothing ↦ scan_tool_markup_tag_at lower_rune text i >>= λ o. elim o [
          | none ↦ contains_loop only_wrappers fuel text lower (i + 1) (has_dsml, has_canonical)
          | some tag ↦
              let counts = not only_wrappers || str_eq tag.name tool_calls in
              let dsml = has_dsml || (counts && tag.dsml_like) in
              let plain = has_canonical || (counts && not tag.dsml_like) in
              if counts && dsml && plain
              then ok (true, true)
              else contains_loop only_wrappers fuel text lower (tag.end + 1) (dsml, plain)
        ]
      ])

  unfoldable pub contains_tool_markup_syntax_outside_ignored : Str → Run (Bool × Bool)
  unfolding contains_loop
  contains_tool_markup_syntax_outside_ignored text =
      contains_loop false (suc (length text)) text (to_lower lower_rune text) 0 (false, false)

  unfoldable pub contains_tool_call_wrapper_syntax_outside_ignored : Str → Run (Bool × Bool)
  unfolding contains_loop
  contains_tool_call_wrapper_syntax_outside_ignored text =
      contains_loop true (suc (length text)) text (to_lower lower_rune text) 0 (false, false)
