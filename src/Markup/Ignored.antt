-- ===== src/Markup/Ignored.antt =====
-- internal/toolcall/toolcalls_parse_markup.go and toolcalls_parse.go: CDATA sections and comments, which
-- the scanner skips, with the Markdown fences in a CDATA section.
use generalcompute2api.Prelude.{
  ℕ, zero, suc, ◌+◌, Bool, true, false, ◌&&◌, ◌||◌, List, [], ◌∷◌, Option, none, some,
  if◌then◌else◌, leb, ltb, ◌==◌, length, drop, take, replicate,
}
use generalcompute2api.Prelude.Runs.{slice_to, Run, ok, out_of_fuel, ◌>>=◌, slice_from, slice_to}
use generalcompute2api.Prelude.Strings.{index, run_length, trim_left_where, split_after_newline}
use generalcompute2api.Prelude.Text.{Str, codes, has_prefix, trim_space}
use generalcompute2api.Markup.Names.{is_markup_space}

abbrev pub is_blank : ℕ → Bool
is_blank c = c == b' ' || c == b'\t'

abbrev pub count_leading_fence_chars : Str → ℕ → ℕ
unfolding run_length
count_leading_fence_chars line ch = run_length (λ c. c == ch) line

-- The marker of a line that opens a fence.
unfoldable pub parse_fence_open : Str → Option Str
unfolding count_leading_fence_chars
parse_fence_open [] = none
parse_fence_open (ch ∷ line) =
    let count = count_leading_fence_chars (ch ∷ line) ch in
    if (ch == b'`' || ch == b'~') && leb 3 count then some (replicate count ch) else none

unfoldable pub is_fence_close : Str → Str → Bool
unfolding count_leading_fence_chars trim_space
is_fence_close line [] = false
is_fence_close [] (ch ∷ marker) = false
is_fence_close (c ∷ line) (ch ∷ marker) =
    let count = count_leading_fence_chars (c ∷ line) ch in
    c == ch
    && leb (suc (length marker)) count
    && (elim (trim_space (drop count (c ∷ line))) [ [] ↦ true | _ ∷ _ ↦ false ])

-- One line: the marker of the open fence, if one is open.
unfoldable pub fence_line : Option Str → Str → Option Str
unfolding parse_fence_open is_fence_close trim_left_where
fence_line none line = parse_fence_open (trim_left_where is_blank line)
fence_line (some marker) line =
    if is_fence_close (trim_left_where is_blank line) marker then none else some marker

unfoldable pub fence_lines : Option Str → List Str → Option Str
unfolding fence_line
fence_lines open_fence [] = open_fence
fence_lines open_fence (line ∷ lines) = fence_lines (fence_line open_fence line) lines

unfoldable pub cdata_offset_is_inside_markdown_fence : Str → Bool
unfolding fence_lines split_after_newline
cdata_offset_is_inside_markdown_fence fragment =
    elim (fence_lines none (split_after_newline fragment)) [ none ↦ false | some _ ↦ true ]

unfoldable pub cdata_end_looks_structural : Str → ℕ → Bool
unfolding has_prefix trim_left_where
cdata_end_looks_structural lower after =
    has_prefix (trim_left_where is_markup_space (drop after lower)) (codes "</")

-- The loop of `findToolCDATAEnd` at `search_from`, with `firstNonFenceEnd`.
unfoldable pub cdata_end_loop : ℕ → Str → Str → ℕ → ℕ → Option ℕ → Run (Option ℕ)
unfolding index cdata_end_looks_structural cdata_offset_is_inside_markdown_fence
cdata_end_loop zero text lower from search_from first = out_of_fuel
cdata_end_loop (suc fuel) text lower from search_from first =
    if leb (length text) search_from
    then ok first
    else (slice_from search_from lower >>= λ tail. elim (index tail (codes "]]>")) [
      | none ↦ ok first
      | some rel ↦
          let end = search_from + rel in
          slice_to end text >>= λ _.
          (let go_on = λ (f : Option ℕ). cdata_end_loop fuel text lower from (end + 3) f in
            elim (cdata_offset_is_inside_markdown_fence (drop from (take end text))) [
              | true ↦ go_on first
              | false ↦
                  let known = elim first as (λ _. Option ℕ) [ none ↦ some end | some f ↦ some f ] in
                  elim (cdata_end_looks_structural lower (end + 3)) [
                    | true ↦ ok (some end)
                    | false ↦ go_on known
                  ]
            ])
    ])

unfoldable pub find_tool_cdata_end : Str → Str → ℕ → Run (Option ℕ)
unfolding cdata_end_loop
find_tool_cdata_end text lower from =
    if ltb (length text) from
    then ok none
    else cdata_end_loop (suc (length text)) text lower from from none

-- What stands at a position: a section that does not end, one that ends before a position, or no section.
pub data Skip : Type 0 where
  blocked : Skip
  advanced : ℕ → Skip
  nothing : Skip

unfoldable pub skip_xml_ignored_section : Str → Str → ℕ → Run Skip
unfolding find_tool_cdata_end index has_prefix
skip_xml_ignored_section text lower i = slice_from i lower >>= λ tail.
    if has_prefix tail (codes "<![cdata[")
    then (find_tool_cdata_end text lower (i + 9) >>= λ o.
        ok (elim o [ none ↦ blocked | some end ↦ advanced (end + 3) ]))
    else if has_prefix tail (codes "<!--")
    then (slice_from (i + 4) lower >>= λ rest. ok (elim (index rest (codes "-->")) [
      | none ↦ blocked
      | some end ↦ advanced (i + 4 + end + 3)
    ]))
    else ok nothing
