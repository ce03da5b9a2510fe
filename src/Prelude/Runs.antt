-- ===== src/Prelude/Runs.antt =====
-- The end of a Go call: a value, a run-time panic, or, for a loop on fuel, no fuel left.
use Prim.Native.Nat.{◌≤◌, ℕ}
use mathlib.Core.List.{List}
use generalcompute2api.Prelude.Lists.{length, take, drop}
use mathlib.Core.Bool.{Bool, true, false}
use mathlib.Core.Option.{Option, none, some}
use native.Mathlib.Omega.{arith}
use mathlib.Core.Path.{ap, ◌≡◌, refl}
use generalcompute2api.Prelude.Tests.{both_branches, if◌then◌else◌, leb}

pub data Run {ℓ} (A : Type ℓ) : Type ℓ where
  ok : A → Run A
  panics : Run A
  out_of_fuel : Run A

infixl 20 ◌>>=◌
abbrev pub ◌>>=◌ {ℓ κ} : {A : Type ℓ} {B : Type κ} → Run A → (A → Run B) → Run B
ok a >>= f = f a
panics >>= f = panics
out_of_fuel >>= f = out_of_fuel

module _ {ℓ} {A : Type ℓ} where
  -- `s[i:]` and `s[:i]`.
  abbrev pub slice_from : ℕ → List A → Run (List A)
  slice_from i s = if leb i (length s) then ok (drop i s) else panics

  abbrev pub slice_to : ℕ → List A → Run (List A)
  slice_to i s = if leb i (length s) then ok (take i s) else panics

  -- The call is over, with a value of which `P` holds, or with a panic, if `X` holds.
  unfoldable pub Ends : Type 0 → (A → Type 0) → Run A → Type 0
  Ends X P (ok a) = P a
  Ends X P panics = X
  Ends X P out_of_fuel = ⊥

pub Ends-ok {ℓ} : {A : Type ℓ} (X : Type 0) (P : A → Type 0) (a : A) → P a → Ends X P (ok a)
unfolding Ends
Ends-ok X P a h = h

pub Ends-bind {ℓ κ} :
    {A : Type ℓ} {B : Type κ} (X : Type 0) (P : A → Type 0) (Q : B → Type 0) (r : Run A)
    (f : A → Run B)
    → Ends X P r
    → ((a : A) → P a → Ends X Q (f a))
    → Ends X Q (r >>= f)
unfolding Ends
Ends-bind X P Q (ok a) f h k = k a h
Ends-bind X P Q panics f h k = h
Ends-bind X P Q out_of_fuel f h k = absurd h

pub Ends-map {ℓ} :
    {A : Type ℓ} (X : Type 0) (P : A → Type 0) (Q : A → Type 0) (r : Run A)
    → Ends X P r
    → ((a : A) → P a → Q a)
    → Ends X Q r
unfolding Ends
Ends-map X P Q (ok a) h k = k a h
Ends-map X P Q panics h k = h
Ends-map X P Q out_of_fuel h k = absurd h

-- A call that goes on by whether there is a value.
pub Ends-option {ℓ κ} :
    {A : Type ℓ} {B : Type κ} (X : Type 0) (Q : B → Type 0) (o : Option A) (n : Run B)
    (f : A → Run B)
    → (o ≡ none → Ends X Q n)
    → ((a : A) → o ≡ some a → Ends X Q (f a))
    → Ends X Q (elim o [ none ↦ n | some a ↦ f a ])
unfolding Ends
Ends-option X Q none n f h k = h refl
Ends-option X Q (some a) n f h k = k a refl

-- A call that goes on by a test.
pub Ends-if {ℓ} :
    {B : Type ℓ} (X : Type 0) (Q : B → Type 0) (b : Bool) (r s : Run B)
    → (b ≡ true → Ends X Q r)
    → (b ≡ false → Ends X Q s)
    → Ends X Q (if b then r else s)
unfolding Ends
Ends-if X Q true r s h k = h refl
Ends-if X Q false r s h k = k refl

pub Ends-bool {ℓ} :
    {B : Type ℓ} (X : Type 0) (Q : B → Type 0) (b : Bool) (r s : Run B)
    → Ends X Q r
    → Ends X Q s
    → Ends X Q (elim b [ true ↦ r | false ↦ s ])
Ends-bool X Q true r s h k = h
Ends-bool X Q false r s h k = k

pub slice_from-within :
    (X : Type 0) (i : ℕ) (s : List ℕ) → i ≤ length s → Ends X (λ t. t ≡ drop i s) (slice_from i s)
unfolding Ends
slice_from-within X i s h = ground arith

-- A call whose first part is known.
pub bind_ok {ℓ κ} :
    {A : Type ℓ} {B : Type κ} (r : Run A) (f : A → Run B) (a : A) → r ≡ ok a → (r >>= f) ≡ f a
bind_ok r f a e = ap (λ s. s >>= f) e

pub bind_panics {ℓ κ} :
    {A : Type ℓ} {B : Type κ} (r : Run A) (f : A → Run B) → r ≡ panics → (r >>= f) ≡ panics
bind_panics r f e = ap (λ s. s >>= f) e

pub Ends-elim {ℓ} :
    {B : Type ℓ} (X : Type 0) (Q : B → Type 0) (b : Bool) (r s : Run B)
    → (b ≡ true → Ends X Q r)
    → (b ≡ false → Ends X Q s)
    → Ends X Q (elim b [ true ↦ r | false ↦ s ])
Ends-elim X Q true r s h k = h refl
Ends-elim X Q false r s h k = k refl

-- What ends with or without a panic.
pub Ends-any {ℓ} :
    {A : Type ℓ} (X : Type 0) (P : A → Type 0) (r : Run A) → Ends X P r → Ends Unit P r
unfolding Ends
Ends-any X P (ok a) h = h
Ends-any X P panics h = tt
Ends-any X P out_of_fuel h = absurd h

pub Ends-slice_from :
    {A : Type 0} (i : ℕ) (s : List A) → Ends Unit (λ t. t ≡ drop i s) (slice_from i s)
unfolding Ends
Ends-slice_from i s = both_branches (Ends Unit (λ t. t ≡ drop i s)) (leb i (length s)) refl tt

pub Ends-slice_to : {A : Type 0} (i : ℕ) (s : List A) → Ends Unit (λ t. t ≡ take i s) (slice_to i s)
unfolding Ends
Ends-slice_to i s = both_branches (Ends Unit (λ t. t ≡ take i s)) (leb i (length s)) refl tt

pub Ends-panics {ℓ} : {A : Type ℓ} (P : A → Type 0) → Ends Unit P panics
unfolding Ends
Ends-panics P = tt
