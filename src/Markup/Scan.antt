-- ===== src/Markup/Scan.antt =====
-- internal/toolcall/toolcalls_scan.go: `scanToolMarkupTagAt` and the test for a tag that is cut off.
use generalcompute2api.Prelude.{
  ℕ, zero, suc, ◌+◌, ◌-◌, Bool, true, false, not, ◌&&◌, ◌||◌, [], ◌∷◌, Option, none, some,
  if◌then◌else◌, leb, ltb, ◌==◌, length, drop, take,
}
use generalcompute2api.Prelude.Runs.{Run, ok, panics, out_of_fuel, ◌>>=◌, slice_from}
use generalcompute2api.Prelude.Strings.{byte_is, run_length, index_where, has_suffix}
use generalcompute2api.Prelude.Text.{Str, codes, has_prefix, trim_space}
use generalcompute2api.Util.Lower.{to_lower}
use generalcompute2api.Markup.Names.{
  consume_tool_markup_name_prefix, consume_tool_markup_name_prefix_once, has_tool_markup_boundary,
  has_tool_markup_name_prefix, match_tool_markup_name, pipes_length, tool_markup_names,
}

pub record ToolMarkupTag : Type 0 where
  pub start : ℕ
  pub end : ℕ
  pub name_start : ℕ
  pub name_end : ℕ
  pub name : Str
  pub closing : Bool
  pub self_closing : Bool
  pub dsml_like : Bool
  pub canonical : Bool

-- `s[i:j]`.
abbrev pub slice : ℕ → ℕ → Str → Run Str
slice i j s = if leb i j && leb j (length s) then ok (take (j - i) (drop i s)) else panics

-- The position of the `>` that ends a tag, from position `i` and with the quote that is open; a quote
-- that is 0 is none.
unfoldable pub tag_end_from : ℕ → ℕ → Str → Option ℕ
tag_end_from quote i [] = none
tag_end_from quote i (ch ∷ s) =
    let quoted = tag_end_from quote (suc i) s in
    let plain = tag_end_from 0 (suc i) s in
    let opened = tag_end_from ch (suc i) s in
    if not (quote == 0)
    then (if ch == quote then plain else quoted)
    else if ch == b'"' || ch == b'\''
    then opened
    else if ch == b'>'
    then some i
    else plain

unfoldable pub find_xml_tag_end : Str → ℕ → Option ℕ
unfolding tag_end_from
find_xml_tag_end text from = tag_end_from 0 from (drop from text)

-- The end of a tag whose name and trailing pipes end at `name_end`.
unfoldable pub markup_tag_end : Str → ℕ → Bool → Run (Option ℕ)
unfolding find_xml_tag_end index_where
markup_tag_end text name_end has_trailing_pipe = elim (find_xml_tag_end text name_end) [
  | none ↦ ok (if has_trailing_pipe then some (name_end - 1) else none)
  | some end ↦
      if has_trailing_pipe
      then (slice_from name_end text >>= λ tail. ok (
          some (elim (index_where (λ c. c == b'<') tail) [
            | none ↦ end
            | some next_lt ↦ if leb (name_end + next_lt) end then name_end - 1 else end
          ])))
      else ok (some end)
]

-- The tag whose name has been read.
unfoldable pub finished_tag : Str → ℕ → ℕ → Str × ℕ → Bool → Bool → Run (Option ToolMarkupTag)
unfolding pipes_length markup_tag_end trim_space has_suffix
finished_tag text start i (name, name_len) closing dsml_like =
    let before_pipes = i + name_len in
    let name_end = before_pipes + pipes_length (drop before_pipes text) in
    if name_len == 0
    then ok none
    else if not (has_tool_markup_boundary text name_end)
    then ok none
    else (markup_tag_end text name_end (ltb before_pipes name_end) >>= λ o. elim o [
      | none ↦ ok none
      | some end ↦ slice start (end + 1) text >>= λ whole. ok (
          some record {
            start = start;
            end = end;
            name_start = i;
            name_end = name_end;
            name = name;
            closing = closing;
            self_closing = has_suffix (trim_space whole) (codes "/>");
            dsml_like = dsml_like;
            canonical = not dsml_like;
          })
    ])

abbrev pub is_less_than : ℕ → Bool
is_less_than c = c == b'<'

-- The position after the `<` at `start` and those that follow it.
unfoldable pub after_less_thans : Str → ℕ → ℕ
unfolding run_length
after_less_thans text start = start + 1 + run_length is_less_than (drop (start + 1) text)

abbrev pub slash_at : Str → ℕ → Bool
slash_at text i = byte_is (λ c. c == b'/') i text

abbrev pub after_slash : Str → ℕ → ℕ
after_slash text i = if slash_at text i then i + 1 else i

module _ (lower_rune : ℕ → ℕ) where
  unfoldable pub scan_tool_markup_tag_at : Str → ℕ → Run (Option ToolMarkupTag)
  unfolding after_less_thans consume_tool_markup_name_prefix match_tool_markup_name finished_tag
  scan_tool_markup_tag_at text start =
      let lower = to_lower lower_rune text in
      let i = after_less_thans text start in
      if not (byte_is is_less_than start text)
      then ok none
      else (consume_tool_markup_name_prefix lower text (after_slash text i) >>= λ (j, dsml_like).
          match_tool_markup_name lower j dsml_like >>= λ found.
          finished_tag text start j found (slash_at text i) dsml_like)

-- The loop of `IsPartialToolMarkupTagPrefix`.
unfoldable pub partial_prefix_loop : ℕ → Str → Str → ℕ → Run Bool
unfolding consume_tool_markup_name_prefix_once has_tool_markup_name_prefix has_prefix
partial_prefix_loop zero lower text i = out_of_fuel
partial_prefix_loop (suc fuel) lower text i =
    if ltb (length text) i
    then ok false
    else if i == length text
    then ok true
    else (slice_from i lower >>= λ tail.
        if has_tool_markup_name_prefix tool_markup_names tail
          || has_prefix (codes "dsml") tail
          || has_prefix (codes "zjml") tail
          || has_prefix (codes "qnml") tail
        then ok true
        else (consume_tool_markup_name_prefix_once lower text i >>= λ o. elim o [
          | none ↦ ok false
          | some next ↦ partial_prefix_loop fuel lower text next
        ]))

module _ (lower_rune : ℕ → ℕ) where
  unfoldable pub is_partial_tool_markup_tag_prefix : Str → Run Bool
  unfolding after_less_thans index_where partial_prefix_loop
  is_partial_tool_markup_tag_prefix text =
      let i = after_less_thans text 0 in
      if not (byte_is is_less_than 0 text)
        || (elim (index_where (λ c. c == b'>') text) [ none ↦ false | some _ ↦ true ])
      then ok false
      else if leb (length text) i
      then ok true
      else partial_prefix_loop (suc (length text)) (to_lower lower_rune text) text
          (after_slash text i)
