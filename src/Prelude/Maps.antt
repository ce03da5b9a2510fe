-- ===== src/Prelude/Maps.antt =====
-- A Go map with string keys as an association list: one entry for each key that was stored.
use mathlib.Core.Path.{◌≡◌, refl}
use mathlib.Core.Bool.{Bool, true, false}
use mathlib.Core.List.{List, [], ◌∷◌}
use mathlib.Core.Option.{Option, none, some}
use native.Mathlib.Omega.{arith}
use generalcompute2api.Prelude.Lists.{select}
use generalcompute2api.Prelude.Tests.{if◌then◌else◌}
use generalcompute2api.Prelude.Text.{Str, str_eq, str_eq_iff}

module _ {ℓ} {V : Type ℓ} where
  -- `v, ok := m[k]`.
  unfoldable pub lookup : Str → List (Str × V) → Option V
  lookup k [] = none
  lookup k ((j, v) ∷ m) = if str_eq j k then some v else lookup k m

  -- `m[k] = v`.
  unfoldable pub insert : Str → V → List (Str × V) → List (Str × V)
  insert k v [] = (k, v) ∷ []
  insert k v ((j, w) ∷ m) = if str_eq j k then (k, v) ∷ m else (j, w) ∷ insert k v m

  -- `delete(m, k)`.
  unfoldable pub erase : Str → List (Str × V) → List (Str × V)
  erase k [] = []
  erase k ((j, v) ∷ m) = if str_eq j k then erase k m else (j, v) ∷ erase k m

  -- `_, ok := m[k]`.
  abbrev pub has_key : Str → List (Str × V) → Bool
  has_key k m = elim (lookup k m) [ none ↦ false | some _ ↦ true ]

  pub lookup-insert :
      (k j : Str) (v : V) (m : List (Str × V))
      → lookup j (insert k v m) ≡ (if str_eq k j then some v else lookup j m)
  unfolding lookup insert
  lookup-insert k j v [] = refl
  lookup-insert k j v ((i, w) ∷ m) =
      ground (arith, str_eq_iff k j, str_eq_iff i k, str_eq_iff i j, lookup-insert k j v m)

  pub lookup-erase :
      (k j : Str) (m : List (Str × V))
      → lookup j (erase k m) ≡ (if str_eq k j then none else lookup j m)
  unfolding lookup erase
  lookup-erase k j [] = ground arith
  lookup-erase k j ((i, w) ∷ m) =
      ground (arith, str_eq_iff k j, str_eq_iff i k, str_eq_iff i j, lookup-erase k j m)

  -- Each key is stored once, as in every Go map.
  abbrev pub IsMap : List (Str × V) → Type ℓ
  IsMap [] = Unit
  IsMap ((k, v) ∷ m) = (lookup k m ≡ none) × IsMap m

  pub insert-IsMap : (k : Str) (v : V) (m : List (Str × V)) → IsMap m → IsMap (insert k v m)
  unfolding insert lookup
  insert-IsMap k v [] h = (refl, tt)
  insert-IsMap k v ((j, w) ∷ m) h =
      ground (arith, insert-IsMap k v m h.1, str_eq_iff j k, str_eq_iff k j, lookup-insert k j v m)

  -- What an entry becomes where only some are kept.
  abbrev pub only : (V → Bool) → Option V → Option V
  only p none = none
  only p (some v) = if p v then some v else none

  pub lookup-select-only :
      (p : V → Bool) (k : Str) (m : List (Str × V))
      → IsMap m
      → lookup k (select (λ (e : Str × V). p e.1) m) ≡ only p (lookup k m)
  unfolding lookup
  lookup-select-only p k [] h = refl
  lookup-select-only p k ((j, w) ∷ m) h =
      ground (arith, str_eq_iff j k, lookup-select-only p k m h.1)

  pub select-IsMap :
      (p : V → Bool) (m : List (Str × V)) → IsMap m → IsMap (select (λ (e : Str × V). p e.1) m)
  select-IsMap p [] h = tt
  select-IsMap p ((j, w) ∷ m) h = ground (arith, select-IsMap p m h.1, lookup-select-only p j m h.1)
