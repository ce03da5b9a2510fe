-- ===== src/Util.antt =====
-- internal/util/text.go, and the parts of Go's unicode/utf8 that it and other packages use. A limit that
-- the callers never make negative is a natural number.
pub mod Cut
pub mod Lower
pub mod Tests
use generalcompute2api.Prelude.{
  ℕ, zero, suc, ◌+◌, ◌-◌, Bool, true, false, not, ◌&&◌, ◌||◌, List, [], ◌∷◌, if◌then◌else◌, leb,
  ltb, ◌==◌, length, take, drop,
}
use generalcompute2api.Prelude.Text.{Str}

-- A continuation byte, 0b10xxxxxx.
abbrev pub is_continuation : ℕ → Bool
is_continuation b = leb 0x80 b && leb b 0xbf

-- `utf8.RuneStart`.
abbrev pub rune_start : ℕ → Bool
rune_start b = not (is_continuation b)

abbrev in_range : ℕ → ℕ → ℕ → Bool
in_range lo hi b = leb lo b && leb b hi

-- The bounds on the second byte of a three-byte and of a four-byte rune.
abbrev second_of_three : ℕ → ℕ → Bool
second_of_three a b =
    if a == 0xe0
    then in_range 0xa0 0xbf b
    else if a == 0xed
    then in_range 0x80 0x9f b
    else in_range 0xe1 0xef a && is_continuation b

abbrev second_of_four : ℕ → ℕ → Bool
second_of_four a b =
    if a == 0xf0
    then in_range 0x90 0xbf b
    else if a == 0xf4
    then in_range 0x80 0x8f b
    else in_range 0xf1 0xf3 a && is_continuation b

-- One less than the width of the rune that begins with byte `a`; an invalid byte has width 1.
unfoldable pub extra_width : ℕ → Str → ℕ
extra_width a [] = 0
extra_width a (b ∷ []) = if in_range 0xc2 0xdf a && is_continuation b then 1 else 0
extra_width a (b ∷ c ∷ []) =
    if in_range 0xc2 0xdf a && is_continuation b
    then 1
    else if second_of_three a b && is_continuation c
    then 2
    else 0
extra_width a (b ∷ c ∷ d ∷ s) =
    if in_range 0xc2 0xdf a && is_continuation b
    then 1
    else if second_of_three a b && is_continuation c
    then 2
    else if second_of_four a b && is_continuation c && is_continuation d
    then 3
    else 0

-- `utf8.RuneCountInString`; the first argument is the number of bytes of the current rune that are left.
unfoldable pub rune_count_from : ℕ → Str → ℕ
unfolding extra_width
rune_count_from skip [] = 0
rune_count_from zero (a ∷ s) = suc (rune_count_from (extra_width a s) s)
rune_count_from (suc k) (a ∷ s) = rune_count_from k s

abbrev pub rune_count : Str → ℕ
rune_count s = rune_count_from 0 s

-- The loop of `TruncateRunes`: the first `limit` runes, and whether a rune was left out.
abbrev cons_first : ℕ → Str × Bool → Str × Bool
cons_first a (s, cut) = (a ∷ s, cut)

unfoldable pub truncate_runes_from : ℕ → ℕ → Str → Str × Bool
unfolding extra_width
truncate_runes_from skip limit [] = ([], false)
truncate_runes_from zero zero (a ∷ s) = ([], true)
truncate_runes_from zero (suc limit) (a ∷ s) =
    cons_first a (truncate_runes_from (extra_width a s) limit s)
truncate_runes_from (suc k) limit (a ∷ s) = cons_first a (truncate_runes_from k limit s)

abbrev pub truncate_runes : Str → ℕ → Str × Bool
truncate_runes text limit = truncate_runes_from 0 limit text

abbrev starts_rune : Str → Bool
starts_rune [] = true
starts_rune (b ∷ s) = rune_start b

-- `for cut > 0 && cut < len(raw) && !utf8.RuneStart(raw[cut])`.
unfoldable pub back_to_rune_start : Str → ℕ → ℕ
back_to_rune_start raw zero = zero
back_to_rune_start raw (suc cut) =
    let less = back_to_rune_start raw cut in
    if starts_rune (drop (suc cut) raw) then suc cut else less

unfoldable pub truncate_utf8_bytes : Str → ℕ → Str × Bool
unfolding back_to_rune_start
truncate_utf8_bytes text limit =
    if leb (length text) limit
    then (text, false)
    else (take (back_to_rune_start text limit) text, true)
