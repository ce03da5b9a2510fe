-- ===== src/Prelude/Text.antt =====
-- Go strings as lists of bytes: equality, `strings.TrimSpace`, `strings.HasPrefix`, `strconv.Atoi`.
use Prim.Native.Char.{code}
use Prim.Native.Nat.{ℕ, zero, suc, ◌+◌, ◌-◌, ◌*◌, ◌^◌}
use Prim.Native.String.{String}
use mathlib.Core.Bool.{Bool, true, false, ◌&&◌, ◌||◌}
use mathlib.Core.List.{List, [], ◌∷◌, reverse}
use mathlib.Core.Logic.{◌↔◌}
use mathlib.Core.Option.{Option, none, some}
use mathlib.Core.Path.{◌≡◌, refl}
use native.Mathlib.Omega.{arith}
use generalcompute2api.Prelude.Int.{ℤ, pos, negsuc}
use generalcompute2api.Prelude.Tests.{ltb, leb, ◌==◌, if◌then◌else◌}

abbrev pub Str : Type 0
Str = List ℕ

-- The bytes of an ASCII literal.
abbrev pub codes : String → Str
codes String.[] = []
codes (String.◌∷◌ c s) = code c ∷ codes s

unfoldable pub str_eq : Str → Str → Bool
str_eq [] [] = true
str_eq (x ∷ a) (y ∷ b) = x == y && str_eq a b
str_eq _ _ = false

pub str_eq_iff : (a b : Str) → (str_eq a b ≡ true) ↔ (a ≡ b)
unfolding str_eq
str_eq_iff (x ∷ a) (y ∷ b) = ground (arith, str_eq_iff a b)
str_eq_iff _ _ = ground arith

pub str_eq_refl : (a : Str) → str_eq a a ≡ true
str_eq_refl a = (str_eq_iff a a).1 refl

unfoldable pub has_prefix : Str → Str → Bool
has_prefix s [] = true
has_prefix [] (y ∷ p) = false
has_prefix (x ∷ s) (y ∷ p) = x == y && has_prefix s p

abbrev pub is_ascii_space : ℕ → Bool
is_ascii_space c = (leb 9 c && leb c 13) || c == 32

-- The third byte of a white space rune whose first two bytes are `a` and `b`.
abbrev pub is_wide_space : ℕ → ℕ → ℕ → Bool
is_wide_space a b c =
    (a == 0xe1 && b == 0x9a && c == 0x80)
    || (a == 0xe2
        && b == 0x80
        && ((leb 0x80 c && leb c 0x8a) || c == 0xa8 || c == 0xa9 || c == 0xaf))
    || (a == 0xe2 && b == 0x81 && c == 0x9f)
    || (a == 0xe3 && b == 0x80 && c == 0x80)

abbrev pub is_latin_space : ℕ → ℕ → Bool
is_latin_space a b = a == 0xc2 && (b == 0x85 || b == 0xa0)

unfoldable pub trim_left : Str → Str
trim_left [] = []
trim_left (a ∷ []) = if is_ascii_space a then [] else a ∷ []
trim_left (a ∷ b ∷ []) =
    let rest = trim_left (b ∷ []) in
    if is_ascii_space a then rest else if is_latin_space a b then [] else a ∷ b ∷ []
trim_left (a ∷ b ∷ c ∷ s) =
    let one = trim_left (b ∷ c ∷ s) in
    let two = trim_left (c ∷ s) in
    let three = trim_left s in
    if is_ascii_space a
    then one
    else if is_latin_space a b
    then two
    else if is_wide_space a b c
    then three
    else a ∷ b ∷ c ∷ s

-- The same from the right end: the bytes of a rune come last byte first.
unfoldable pub trim_left_rev : Str → Str
trim_left_rev [] = []
trim_left_rev (a ∷ []) = if is_ascii_space a then [] else a ∷ []
trim_left_rev (a ∷ b ∷ []) =
    let rest = trim_left_rev (b ∷ []) in
    if is_ascii_space a then rest else if is_latin_space b a then [] else a ∷ b ∷ []
trim_left_rev (a ∷ b ∷ c ∷ s) =
    let one = trim_left_rev (b ∷ c ∷ s) in
    let two = trim_left_rev (c ∷ s) in
    let three = trim_left_rev s in
    if is_ascii_space a
    then one
    else if is_latin_space b a
    then two
    else if is_wide_space c b a
    then three
    else a ∷ b ∷ c ∷ s

-- `strings.TrimSpace`.
unfoldable pub trim_space : Str → Str
unfolding trim_left trim_left_rev
trim_space s = reverse (trim_left_rev (reverse (trim_left s)))

-- The value of a run of decimal digits; none at any other byte.
unfoldable pub decimal : ℕ → Str → Option ℕ
decimal acc [] = some acc
decimal acc (c ∷ s) =
    let rest = decimal (acc * 10 + (c - 48)) s in if leb 48 c && leb c 57 then rest else none

-- `strconv.Atoi` on a 64-bit platform; none where it returns an error.
abbrev in_range : Bool → Option ℕ → Option ℤ
in_range negative none = none
in_range false (some n) = if ltb n (2 ^ 63) then some (pos n) else none
in_range true (some zero) = some (pos 0)
in_range true (some (suc n)) = if ltb n (2 ^ 63) then some (negsuc n) else none

unfoldable pub atoi : Str → Option ℤ
unfolding decimal
atoi [] = none
atoi (c ∷ []) = in_range false (decimal 0 (c ∷ []))
atoi (c ∷ d ∷ s) =
    if c == b'-'
    then in_range true (decimal 0 (d ∷ s))
    else if c == b'+'
    then in_range false (decimal 0 (d ∷ s))
    else in_range false (decimal 0 (c ∷ d ∷ s))

trim_space_example : trim_space (codes "\t a b \n") ≡ codes "a b"
unfolding trim_space
trim_space_example = refl

atoi_examples :
    (atoi (codes "-12") ≡ some (negsuc 11))
    × (atoi (codes "+7") ≡ some (pos 7))
    × (atoi (codes "1x") ≡ none)
    × (atoi (codes "9223372036854775808") ≡ none)
unfolding atoi
atoi_examples = (refl, refl, refl, refl)
