-- ===== src/Prelude/Strings.antt =====
-- The functions of Go's strings package that search and cut.
use Prim.Native.Nat.{◌+◌, ◌-◌, ℕ, zero, suc, ◌≤◌}
use mathlib.Core.Bool.{Bool, true, false}
use mathlib.Core.List.{List, [], ◌∷◌, reverse}
use mathlib.Core.Option.{Option, none, some}
use mathlib.Core.Path.{◌≡◌, refl}
use native.Mathlib.Omega.{arith}
use generalcompute2api.Prelude.Lists.{length, drop}
use generalcompute2api.Prelude.Tests.{if◌then◌else◌, ◌==◌}
use generalcompute2api.Prelude.Text.{Str, has_prefix}

abbrev pub shift : Option ℕ → Option ℕ
shift none = none
shift (some i) = some (suc i)

-- `strings.Index`, none where it returns -1.
unfoldable pub index : Str → Str → Option ℕ
index [] p = if has_prefix [] p then some 0 else none
index (c ∷ s) p = let rest = index s p in if has_prefix (c ∷ s) p then some 0 else shift rest

-- `strings.LastIndex`.
unfoldable pub last_index : Str → Str → Option ℕ
last_index [] p = if has_prefix [] p then some 0 else none
last_index (c ∷ s) p =
    let here = has_prefix (c ∷ s) p in
    elim (last_index s p) [ some i ↦ some (suc i) | none ↦ if here then some 0 else none ]

-- `strings.Count` of a text that is not empty; the first argument is the number of bytes of the
-- occurrence before that are left.
unfoldable pub count_from : ℕ → Str → Str → ℕ
count_from k [] p = 0
count_from (suc k) (c ∷ s) p = count_from k s p
count_from zero (c ∷ s) p =
    let again = count_from (length p - 1) s p in
    let later = count_from zero s p in if has_prefix (c ∷ s) p then suc again else later

unfoldable pub count : Str → Str → ℕ
unfolding count_from
count s p = count_from 0 s p

abbrev pub contains : Str → Str → Bool
contains s p = elim (index s p) [ none ↦ false | some _ ↦ true ]

-- The position of the first byte that passes the test: `strings.IndexByte`, `strings.IndexAny`.
unfoldable pub index_where : (ℕ → Bool) → Str → Option ℕ
index_where p [] = none
index_where p (c ∷ s) = let rest = index_where p s in if p c then some 0 else shift rest

-- The number of bytes at the start that pass the test.
unfoldable pub run_length : (ℕ → Bool) → Str → ℕ
run_length p [] = 0
run_length p (c ∷ s) = let rest = run_length p s in if p c then suc rest else 0

-- `strings.TrimLeft` and `strings.TrimRight` with an ASCII cut set.
unfoldable pub trim_left_where : (ℕ → Bool) → Str → Str
trim_left_where p [] = []
trim_left_where p (c ∷ s) = let rest = trim_left_where p s in if p c then rest else c ∷ s

unfoldable pub trim_right_where : (ℕ → Bool) → Str → Str
unfolding trim_left_where
trim_right_where p s = reverse (trim_left_where p (reverse s))

unfoldable pub has_suffix : Str → Str → Bool
unfolding has_prefix
has_suffix s p = has_prefix (reverse s) (reverse p)

-- `strings.SplitAfter(s, "\n")`.
abbrev pub cons_line : ℕ → List Str → List Str
cons_line c [] = (c ∷ []) ∷ []
cons_line c (l ∷ ls) = (c ∷ l) ∷ ls

unfoldable pub split_after_newline : Str → List Str
split_after_newline [] = [] ∷ []
split_after_newline (c ∷ s) =
    let rest = split_after_newline s in if c == b'\n' then (c ∷ []) ∷ rest else cons_line c rest

-- Whether the byte at position `i` is there and passes the test.
abbrev pub head_is : (ℕ → Bool) → Str → Bool
head_is p [] = false
head_is p (c ∷ s) = p c

abbrev pub byte_is : (ℕ → Bool) → ℕ → Str → Bool
byte_is p i s = head_is p (drop i s)

pub index_where-lt : (p : ℕ → Bool) (s : Str) (i : ℕ) → index_where p s ≡ some i → suc i ≤ length s
unfolding index_where
index_where-lt p [] i e = ground arith
index_where-lt p (c ∷ s) i e =
    elim (index_where p s)
        as (λ o.
          ((j : ℕ) → o ≡ some j → suc j ≤ length s)
          → (if p c then some 0 else shift o) ≡ some i
          → suc i ≤ suc (length s)) [
            | none ↦ λ h k. ground arith
            | some j ↦ λ h k. ground (arith, h j refl)
          ]
      (index_where-lt p s) e

pub has_prefix-length : (s p : Str) → has_prefix s p ≡ true → length p ≤ length s
unfolding has_prefix
has_prefix-length s [] e = omega arith
has_prefix-length [] (y ∷ p) e = ground arith
has_prefix-length (x ∷ s) (y ∷ p) e = ground (arith, has_prefix-length s p)

pub byte_is-lt : (p : ℕ → Bool) (i : ℕ) (s : Str) → byte_is p i s ≡ true → suc i ≤ length s
byte_is-lt p zero [] e = ground arith
byte_is-lt p zero (c ∷ s) e = omega arith
byte_is-lt p (suc i) [] e = ground arith
byte_is-lt p (suc i) (c ∷ s) e = omega (arith, byte_is-lt p i s e)

pub run_length-le : (p : ℕ → Bool) (s : Str) → run_length p s ≤ length s
unfolding run_length
run_length-le p [] = omega arith
run_length-le p (c ∷ s) = ground (arith, run_length-le p s)

-- An occurrence lies within the text.
pub index-le : (s p : Str) (i : ℕ) → index s p ≡ some i → i + length p ≤ length s
unfolding index
index-le [] p i e = ground (arith, has_prefix-length [] p)
index-le (c ∷ s) p i e =
    elim (index s p)
        as (λ o.
          ((j : ℕ) → o ≡ some j → j + length p ≤ length s)
          → (if has_prefix (c ∷ s) p then some 0 else shift o) ≡ some i
          → i + length p ≤ suc (length s)) [
            | none ↦ λ h k. ground (arith, has_prefix-length (c ∷ s) p)
            | some j ↦ λ h k. ground (arith, h j refl, has_prefix-length (c ∷ s) p)
          ]
      (index-le s p) e
