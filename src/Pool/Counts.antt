-- ===== src/Pool/Counts.antt =====
-- The map of slots in use: every stored count is positive and every key is stored once, so that the
-- sum over the map moves by one with each acquired or released slot.
use generalcompute2api.Prelude.{
  ℕ, ◌+◌, ◌≤◌, ◌<◌, ◌≡◌, refl, List, [], ◌∷◌, none, some, arith, if◌then◌else◌, Bool, select,
}
use generalcompute2api.Prelude.Maps.{lookup, insert, erase, lookup-insert, lookup-erase}
use generalcompute2api.Prelude.Text.{Str, str_eq_iff}
use generalcompute2api.Pool.{or_zero, sum_counts}

abbrev pub IsCounts : List (Str × ℕ) → Type 0
IsCounts [] = Unit {0}
IsCounts ((id, n) ∷ m) = (0 < n) × (lookup id m ≡ none) × IsCounts m

pub sum-insert :
    (k : Str) (v : ℕ) (m : List (Str × ℕ))
    → sum_counts (insert k v m) + or_zero (lookup k m) ≡ sum_counts m + v
unfolding sum_counts insert lookup
sum-insert k v [] = omega arith
sum-insert k v ((j, w) ∷ m) = ground (arith, sum-insert k v m)

erase_absent : (k : Str) (m : List (Str × ℕ)) → lookup k m ≡ none → erase k m ≡ m
unfolding erase lookup
erase_absent k [] h = refl
erase_absent k ((j, w) ∷ m) h = ground (arith, erase_absent k m)

pub sum-erase :
    (k : Str) (m : List (Str × ℕ))
    → IsCounts m
    → sum_counts (erase k m) + or_zero (lookup k m) ≡ sum_counts m
unfolding sum_counts erase lookup
sum-erase k [] h = omega arith
sum-erase k ((j, w) ∷ m) h = ground (arith, sum-erase k m h.2, str_eq_iff j k, erase_absent k m)

pub insert-IsCounts :
    (k : Str) (v : ℕ) (m : List (Str × ℕ)) → 0 < v → IsCounts m → IsCounts (insert k v m)
unfolding insert lookup
insert-IsCounts k v [] p h = (p, refl, tt)
insert-IsCounts k v ((j, w) ∷ m) p h =
    ground
      (arith, insert-IsCounts k v m p h.2, str_eq_iff j k, str_eq_iff k j, lookup-insert k j v m)

pub erase-IsCounts : (k : Str) (m : List (Str × ℕ)) → IsCounts m → IsCounts (erase k m)
unfolding erase
erase-IsCounts k [] h = tt
erase-IsCounts k ((j, w) ∷ m) h = ground (arith, erase-IsCounts k m h.2, lookup-erase k j m)

pub lookup-select :
    (keep : Str → Bool) (k : Str) (m : List (Str × ℕ))
    → lookup k (select (λ (e : Str × ℕ). keep e.0) m) ≡ (if keep k then lookup k m else none)
unfolding lookup
lookup-select keep k [] = ground arith
lookup-select keep k ((j, w) ∷ m) = ground (arith, str_eq_iff j k, lookup-select keep k m)

pub select-IsCounts :
    (keep : Str → Bool) (m : List (Str × ℕ))
    → IsCounts m
    → IsCounts (select (λ (e : Str × ℕ). keep e.0) m)
select-IsCounts keep [] h = tt
select-IsCounts keep ((j, w) ∷ m) h =
    ground (arith, select-IsCounts keep m h.2, lookup-select keep j m)

pub lookup-le-sum : (k : Str) (m : List (Str × ℕ)) → or_zero (lookup k m) ≤ sum_counts m
unfolding sum_counts lookup
lookup-le-sum k [] = omega arith
lookup-le-sum k ((j, w) ∷ m) = ground (arith, lookup-le-sum k m)

-- A stored count is positive.
pub lookup-pos : (k : Str) (m : List (Str × ℕ)) {n : ℕ} → IsCounts m → lookup k m ≡ some n → 0 < n
unfolding lookup
lookup-pos k [] h e = absurd (cc)
lookup-pos k ((j, w) ∷ m) {n} h e = ground (arith, lookup-pos k m {n = n} h.2)
