-- ===== src/Turn/Markers.antt =====
-- internal/httpapi/openai/shared/citation_links.go: the links that take the place of citation markers. A
-- marker is a match of `(?i)\[(citation|reference):\s*(\d+)\]`; it begins at a `[` and no two overlap.
use generalcompute2api.Prelude.{
  ℕ, zero, suc, ◌+◌, ◌-◌, ◌^◌, Bool, true, false, not, ◌&&◌, ◌||◌, List, [], ◌∷◌, ◌++◌, Option,
  none, some, if◌then◌else◌, ltb, leb, ◌==◌, length, map, drop, take,
}
use generalcompute2api.Prelude.Int.{ℤ, pos}
use generalcompute2api.Prelude.Strings.{run_length}
use generalcompute2api.Prelude.Text.{Str, atoi, codes, has_prefix, str_eq, trim_space}
use generalcompute2api.Pow.Decimal.{decimal_digits, digits_loop}
use generalcompute2api.Sse.Citations.{Links}
use generalcompute2api.Util.Lower.{ascii_lower}

-- A match: the word, the digits and the whole.
pub record Marker : Type 0 where
  pub word : Str
  pub digits : Str
  pub whole : Str

-- `\s` and `\d`.
abbrev is_re_space : ℕ → Bool
is_re_space c = c == 32 || c == 9 || c == 10 || c == 12 || c == 13

abbrev is_digit : ℕ → Bool
is_digit c = leb b'0' c && leb c b'9'

-- `\s*(\d+)\]` after `n` bytes of `s`.
unfoldable pub numbered : ℕ → Str → Str → Option Marker
unfolding run_length has_prefix
numbered n word s =
    let from = n + run_length is_re_space (drop n s) in
    let count = run_length is_digit (drop from s) in
    let end = from + count in
    if not (count == 0) && has_prefix (drop end s) (codes "]")
    then some (record { word = word; digits = take count (drop from s); whole = take (suc end) s })
    else none

-- The match at the beginning of `s`.
unfoldable pub marker_at : Str → Option Marker
unfolding numbered has_prefix
marker_at s =
    let low = map ascii_lower (take 11 s) in
    if has_prefix low (codes "[citation:")
    then numbered 10 (codes "citation") s
    else if has_prefix low (codes "[reference:")
    then numbered 11 (codes "reference") s
    else none

-- `FindAllStringSubmatch`, after bytes that are skipped.
unfoldable pub markers_from : ℕ → Str → List Marker
unfolding marker_at
markers_from skip [] = []
markers_from (suc skip) (c ∷ s) = markers_from skip s
markers_from zero (c ∷ s) = elim (marker_at (c ∷ s)) [
  | none ↦ markers_from 0 s
  | some m ↦ m ∷ markers_from (length m.whole - 1) s
]

abbrev is_reference : Marker → Bool
is_reference m = str_eq m.word (codes "reference")

abbrev is_zero : Option ℤ → Bool
is_zero (some (pos zero)) = true
is_zero _ = false

unfoldable any_zero_reference : List Marker → Bool
unfolding str_eq atoi trim_space
any_zero_reference [] = false
any_zero_reference (m ∷ ms) =
    (is_reference m && is_zero (atoi (trim_space m.digits))) || any_zero_reference ms

unfoldable pub has_zero_based_reference_marker : Str → Bool
unfolding markers_from any_zero_reference
has_zero_based_reference_marker text = any_zero_reference (markers_from 0 text)

-- `links[i]`; the greatest index wraps around to a negative one, which has no link.
abbrev link_at : Links → ℕ → Str
link_at links i = elim (if ltb i (2 ^ 63) then links i else none) [ none ↦ [] | some url ↦ url ]

abbrev linked : ℕ → Str → Str → Str
linked idx [] whole = whole
linked idx (c ∷ url) whole = codes "[" ++ decimal_digits idx ++ codes "](" ++ (c ∷ url) ++ codes ")"

-- What stands for a marker with this number.
abbrev pub replaced : Links → Bool → Marker → Option ℤ → Str
replaced links zero_based m (some (pos idx)) =
    let i = if is_reference m && zero_based then suc idx else idx in
    linked idx (trim_space (link_at links i)) m.whole
replaced links zero_based m _ = m.whole

unfoldable pub replace_marker : Links → Bool → Marker → Str
unfolding str_eq atoi trim_space decimal_digits digits_loop
replace_marker links zero_based m = replaced links zero_based m (atoi (trim_space m.digits))

-- `ReplaceAllStringFunc`, after bytes that are skipped.
unfoldable pub replace_from : Links → Bool → ℕ → Str → Str
unfolding marker_at replace_marker
replace_from links zero_based skip [] = []
replace_from links zero_based (suc skip) (c ∷ s) = replace_from links zero_based skip s
replace_from links zero_based zero (c ∷ s) = elim (marker_at (c ∷ s)) [
  | none ↦ c ∷ replace_from links zero_based 0 s
  | some m ↦
      replace_marker links zero_based m ++ replace_from links zero_based (length m.whole - 1) s
]

-- An empty map has no link, so the text is as it was.
unfoldable pub replace_citation_markers_with_links : Str → Links → Str
unfolding trim_space str_eq replace_from has_zero_based_reference_marker
replace_citation_markers_with_links text links =
    if str_eq (trim_space text) []
    then text
    else replace_from links (has_zero_based_reference_marker text) 0 text
