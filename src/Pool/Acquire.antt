-- ===== src/Pool/Acquire.antt =====
-- `acquire` and `release`: which account is granted, what that does to the counts, and when nothing
-- can be granted.
use generalcompute2api.Prelude.{
  subst, ◌+◌, ◌≤◌, ◌<◌, ◌≡◌, refl, ap, ◌≢◌, inl, inr, Bool, true, false, not, ◌||◌, List, [], ◌∷◌,
  ◌++◌, Option, none, some, arith, if◌then◌else◌, Bool-cases, Option-cases, All,
}
use generalcompute2api.Prelude.Maps.{lookup-insert}
use generalcompute2api.Prelude.Text.{Str, str_eq, str_eq_iff, str_eq_refl}
use generalcompute2api.Config.{Account}
use generalcompute2api.Pool.{
  Pool, in_use_of, current_in_use, can_acquire_id, take_slot, try_acquire, acquire, move_to_back,
}
use generalcompute2api.Pool.Counts.{IsCounts, sum-insert, insert-IsCounts}
use generalcompute2api.Pool.Lookup.{find_account, remove_first}

-- An account that may be handed out now.
pub record IsEligible (p : Pool) (exclude : Str → Bool) (id : Str) (acc : Account) : Type 0 where
  pub not_excluded : exclude id ≡ false
  pub can_acquire : can_acquire_id p id ≡ true
  pub found : find_account p.lookup id ≡ some acc

abbrev pub IsIneligible : Pool → (Str → Bool) → Str → Type 0
IsIneligible p exclude id = (acc : Account) → ¬ IsEligible p exclude id acc

-- What a granted slot changes.
pub record Takes (p q : Pool) (id : Str) : Type 0 where
  pub counts :
      (j : Str) → in_use_of q j ≡ (if str_eq id j then in_use_of p id + 1 else in_use_of p j)
  pub total : current_in_use q ≡ current_in_use p + 1
  pub valid : IsCounts p.in_use → IsCounts q.in_use
  pub rotated : q.queue ≡ move_to_back id p.queue (remove_first id p.queue)
  pub rest : q ≡ record p { queue = q.queue; in_use = q.in_use }

pub take_slot-Takes : (p : Pool) (id : Str) → Takes p (take_slot p id) id
unfolding take_slot
take_slot-Takes p id = record {
  counts = λ j. ground (arith, lookup-insert id j (in_use_of p id + 1) p.in_use);
  total = omega (arith, sum-insert id (in_use_of p id + 1) p.in_use);
  valid = insert-IsCounts id (in_use_of p id + 1) p.in_use (omega arith);
  rotated = refl;
  rest = refl;
}

-- The limits that held when the slot was granted.
pub can_acquire_limits :
    (p : Pool) (id : Str)
    → can_acquire_id p id ≡ true
    → (in_use_of p id < p.max_inflight_per_account)
      × (0 < p.global_max_inflight → current_in_use p < p.global_max_inflight)
      × (id ≢ [])
unfolding can_acquire_id
can_acquire_limits p [] h = absurd (cc)
can_acquire_limits p (c ∷ s) h = (ground arith, λ g. ground arith, λ e. cc)

-- How `acquire` answers: the first eligible candidate, or nothing and no candidate was eligible.
pub data Answers (p : Pool) (exclude : Str → Bool) (ids : List Str)
    : Pool × Option Account → Type 0 where
  grants :
      {r : Pool × Option Account} (before after : List Str) (id : Str) (acc : Account)
      → ids ≡ before ++ (id ∷ after)
      → All (IsIneligible p exclude) before
      → IsEligible p exclude id acc
      → r ≡ (take_slot p id, some acc)
      → Answers p exclude ids r
  refuses :
      {r : Pool × Option Account}
      → All (IsIneligible p exclude) ids
      → r ≡ (p, none)
      → Answers p exclude ids r

skip :
    {p : Pool} {exclude : Str → Bool} {ids : List Str} {r : Pool × Option Account} (id : Str)
    → IsIneligible p exclude id
    → Answers p exclude ids r
    → Answers p exclude (id ∷ ids) r
skip id bad (grants before after found acc e others good eq) =
    grants (id ∷ before) after found acc (ap (◌∷◌ id) e) (bad, others) good eq
skip id bad (refuses others eq) = refuses (bad, others) eq

blocked-IsIneligible :
    (p : Pool) (exclude : Str → Bool) (id : Str)
    → exclude id || not (can_acquire_id p id) ≡ true
    → IsIneligible p exclude id
blocked-IsIneligible p exclude id h acc good = ground (arith, good.not_excluded, good.can_acquire)

missing-IsIneligible :
    (p : Pool) (exclude : Str → Bool) (id : Str)
    → find_account p.lookup id ≡ none
    → IsIneligible p exclude id
missing-IsIneligible p exclude id h acc good = ground (arith, good.found)

open-IsEligible :
    (p : Pool) (exclude : Str → Bool) (id : Str) (acc : Account)
    → exclude id || not (can_acquire_id p id) ≡ false
    → find_account p.lookup id ≡ some acc
    → IsEligible p exclude id acc
open-IsEligible p exclude id acc h found = record {
  not_excluded = ground arith;
  can_acquire = ground arith;
  found = found;
}

try_acquire-Answers :
    (p : Pool) (exclude : Str → Bool) (ids : List Str)
    → Answers p exclude ids (try_acquire p exclude ids)
unfolding try_acquire
try_acquire-Answers p exclude [] = refuses tt refl
try_acquire-Answers p exclude (id ∷ ids) =
    elim (Bool-cases (exclude id || not (can_acquire_id p id))) [
      | inl blocked ↦
          rw blocked (
            skip id (blocked-IsIneligible p exclude id blocked) (try_acquire-Answers p exclude ids))
      | inr free ↦ elim (Option-cases (find_account p.lookup id)) [
        | inl missing ↦
            rw (free, missing)
              (skip id (missing-IsIneligible p exclude id missing)
                (try_acquire-Answers p exclude ids))
        | inr (acc, found) ↦
            rw (free, found)
              (grants [] ids id acc refl tt (open-IsEligible p exclude id acc free found) refl)
      ]
    ]

-- The candidates that a call looks at: the target alone if there is one.
abbrev pub candidates : Pool → Str → List Str
candidates p [] = p.queue
candidates p (c ∷ s) = (c ∷ s) ∷ []

-- A call grants the first eligible candidate and takes one slot of it, or else it leaves the pool as it
-- was and no candidate was eligible.
pub acquire-Answers :
    (p : Pool) (target : Str) (exclude : Str → Bool)
    → Answers p exclude (candidates p target) (acquire p target exclude)
unfolding acquire
acquire-Answers p [] exclude = try_acquire-Answers p exclude p.queue
acquire-Answers p (c ∷ s) exclude =
    elim (Bool-cases (exclude (c ∷ s) || not (can_acquire_id p (c ∷ s)))) [
      | inl blocked ↦ rw blocked (refuses (blocked-IsIneligible p exclude _ blocked, tt) refl)
      | inr free ↦ elim (Option-cases (find_account p.lookup (c ∷ s))) [
        | inl missing ↦
            rw (free, missing) (refuses (missing-IsIneligible p exclude _ missing, tt) refl)
        | inr (acc, found) ↦
            rw (free, found)
              (grants [] [] (c ∷ s) acc refl tt (open-IsEligible p exclude _ acc free found) refl)
      ]
    ]

-- What a successful call shows.
pub record Grant (p q : Pool) (exclude : Str → Bool) (acc : Account) : Type 0 where
  pub id : Str
  pub eligible : IsEligible p exclude id acc
  pub takes : Takes p q id

pub acquire-Grant :
    (p q : Pool) (target : Str) (exclude : Str → Bool) (acc : Account)
    → acquire p target exclude ≡ (q, some acc)
    → Grant p q exclude acc
acquire-Grant p q target exclude acc h = go (acquire-Answers p target exclude)
  where
    go : Answers p exclude (candidates p target) (acquire p target exclude) → Grant p q exclude acc
    go (refuses _ eq) = absurd (ground (arith, eq, h))
    go (grants _ _ id other _ _ good eq) = record {
      id = id;
      eligible = subst (λ a. IsEligible p exclude id a) (ground (arith, eq, h)) good;
      takes = subst (λ r. Takes p r id) (ground (arith, eq, h)) (take_slot-Takes p id);
    }

-- The limits do not change with the call.
Grant-limits :
    (p q : Pool) (exclude : Str → Bool) (acc : Account) (g : Grant p q exclude acc)
    → (in_use_of q g.id ≤ q.max_inflight_per_account)
      × (0 < q.global_max_inflight → current_in_use q ≤ q.global_max_inflight)
Grant-limits p q exclude acc g = (
  ground (arith, per, g.takes.counts g.id, str_eq_refl g.id, bounds.0),
  λ h. ground (arith, global, g.takes.total, bounds.1),
)
  where
    bounds :
        (in_use_of p g.id < p.max_inflight_per_account)
        × (0 < p.global_max_inflight → current_in_use p < p.global_max_inflight)
        × (g.id ≢ [])
    bounds = can_acquire_limits p g.id g.eligible.can_acquire

    per : q.max_inflight_per_account ≡ p.max_inflight_per_account
    per = ap (λ (r : Pool). r.max_inflight_per_account) g.takes.rest

    global : q.global_max_inflight ≡ p.global_max_inflight
    global = ap (λ (r : Pool). r.global_max_inflight) g.takes.rest

-- A granted account was not excluded and is known under its identifier. Its count goes up by one and
-- stays within the limit for an account, the total stays within the global limit if there is one, and
-- every other account keeps its count.
pub acquire_respects_limits :
    (p q : Pool) (target : Str) (exclude : Str → Bool) (acc : Account)
    → acquire p target exclude ≡ (q, some acc)
    → (id : Str) × (exclude id ≡ false)
      × (find_account p.lookup id ≡ some acc)
      × (in_use_of q id ≡ in_use_of p id + 1)
      × (in_use_of q id ≤ q.max_inflight_per_account)
      × (0 < q.global_max_inflight → current_in_use q ≤ q.global_max_inflight)
      × ((j : Str) → j ≢ id → in_use_of q j ≡ in_use_of p j)
acquire_respects_limits p q target exclude acc h = (
  g.id,
  g.eligible.not_excluded,
  g.eligible.found,
  ground (arith, g.takes.counts g.id, str_eq_refl g.id),
  (Grant-limits p q exclude acc g).0,
  (Grant-limits p q exclude acc g).1,
  λ j ne. ground (arith, g.takes.counts j, str_eq_iff g.id j),
)
  where
    g : Grant p q exclude acc
    g = acquire-Grant p q target exclude acc h
