-- ===== src/Pool/Ledger.antt =====
-- The leases that callers hold, and the pool's counts: as long as leases are only taken by `acquire`
-- and given back by `release`, the counts are exactly the leases out.
use generalcompute2api.Prelude.Maps.{lookup}
use generalcompute2api.Prelude.{
  ◌∙◌, sym, subst, ℕ, ◌+◌, ◌-◌, ◌≤◌, ◌<◌, ◌≡◌, refl, ap, ◌≢◌, Bool, List, [], ◌∷◌, ◌++◌, none, some,
  All, arith, if◌then◌else◌, length,
}
use generalcompute2api.Prelude.Text.{Str, str_eq, str_eq_iff}
use generalcompute2api.Config.{Account}
use generalcompute2api.Pool.{or_zero, Pool, in_use_of, current_in_use, acquire, release, sum_counts}
use generalcompute2api.Pool.Acquire.{
  Answers, IsEligible, Takes, acquire-Answers, can_acquire_limits, candidates, grants, refuses,
  take_slot-Takes,
}
use generalcompute2api.Pool.Named.{IsNamed, granted_id, leased_id, taken-named}
use generalcompute2api.Pool.Counts.{IsCounts}
use generalcompute2api.Pool.Release.{release-Keeps, release-IsCounts, release_counts, release_total}

unfoldable pub count : Str → List Str → ℕ
count id [] = 0
count id (x ∷ xs) = (if str_eq x id then 1 else 0) + count id xs

-- The leases after one with this identifier is given back.
unfoldable pub give_back : Str → List Str → List Str
give_back id [] = []
give_back id (x ∷ xs) = if str_eq x id then xs else x ∷ give_back id xs

count-give_back :
    (id j : Str) (held : List Str)
    → 0 < count id held
    → count j (give_back id held) ≡ (if str_eq id j then count id held - 1 else count j held)
unfolding count give_back
count-give_back id j [] h = absurd (omega arith)
count-give_back id j (x ∷ xs) h = ground (
  arith,
  count-give_back id j xs,
  str_eq_iff id j,
  str_eq_iff x id,
  str_eq_iff x j,
  str_eq_iff id id,
)

length-give_back :
    (id : Str) (held : List Str) → 0 < count id held → length (give_back id held) + 1 ≡ length held
unfolding count give_back
length-give_back id [] h = absurd (omega arith)
length-give_back id (x ∷ xs) h = ground (arith, length-give_back id xs)

-- The pool with the leases that are out, reached from an unused pool by whatever `acquire` answers.
pub data Leases (start : Pool) : Pool → List Str → Type 0 where
  none_out : Leases start start []
  refuse :
      {p q : Pool} {held : List Str} (target : Str) (exclude : Str → Bool)
      → Leases start p held
      → acquire p target exclude ≡ (q, none)
      → Leases start q held
  lend :
      {p q : Pool} {held : List Str} (target : Str) (exclude : Str → Bool) (acc : Account)
      → Leases start p held
      → acquire p target exclude ≡ (q, some acc)
      → Leases start q (leased_id target acc ∷ held)
  end_lease :
      {p q : Pool} {held : List Str} (id : Str)
      → Leases start p held
      → 0 < count id held
      → id ≢ []
      → q ≡ release p id
      → Leases start q (give_back id held)

pub record IsUnused (p : Pool) : Type 0 where
  pub empty : p.in_use ≡ []
  pub named : All (IsNamed p.lookup) p.queue

pub record Agrees (start p : Pool) (held : List Str) : Type 0 where
  pub valid : IsCounts p.in_use
  pub counts : (j : Str) → in_use_of p j ≡ count j held
  pub total : current_in_use p ≡ length held
  pub per_account : (j : Str) → count j held ≤ start.max_inflight_per_account
  pub global : 0 < start.global_max_inflight → length held ≤ start.global_max_inflight
  pub named : All (IsNamed p.lookup) p.queue
  pub same_limit : p.max_inflight_per_account ≡ start.max_inflight_per_account
  pub same_global : p.global_max_inflight ≡ start.global_max_inflight

start-Agrees : (p : Pool) → IsUnused p → Agrees p p []
unfolding count sum_counts lookup
start-Agrees p u = record {
  valid = subst IsCounts (sym u.empty) tt;
  counts = λ j. ap (λ m. or_zero (lookup j m)) u.empty;
  total = ap sum_counts u.empty;
  per_account = λ j. omega arith;
  global = λ h. omega arith;
  named = u.named;
  same_limit = refl;
  same_global = refl;
}

lend-Agrees :
    {start p q : Pool} {held : List Str} (id : Str) (exclude : Str → Bool) (acc : Account)
    → Agrees start p held
    → IsEligible p exclude id acc
    → Takes p q id
    → All (IsNamed q.lookup) q.queue
    → Agrees start q (id ∷ held)
unfolding count
lend-Agrees {start} {p} {q} {held} id exclude acc a e t n = record {
  valid = t.valid a.valid;
  counts = λ j. ground (arith, t.counts j, a.counts j, a.counts id, str_eq_iff id j);
  total = ground (arith, t.total, a.total);
  per_account =
      λ j. ground (arith, a.counts id, bounds.0, a.per_account j, a.same_limit, str_eq_iff id j);
  global = λ h. ground (arith, a.total, bounds.1, a.same_global);
  named = n;
  same_limit = ground (arith, ap (λ (r : Pool). r.max_inflight_per_account) t.rest, a.same_limit);
  same_global = ground (arith, ap (λ (r : Pool). r.global_max_inflight) t.rest, a.same_global);
}
  where
    bounds :
        (in_use_of p id < p.max_inflight_per_account)
        × (0 < p.global_max_inflight → current_in_use p < p.global_max_inflight)
        × (id ≢ [])
    bounds = can_acquire_limits p id e.can_acquire

end_lease-Agrees :
    {start p : Pool} {held : List Str} (id : Str)
    → Agrees start p held
    → 0 < count id held
    → id ≢ []
    → Agrees start (release p id) (give_back id held)
end_lease-Agrees {start} {p} {held} id a out ne = record {
  valid = release-IsCounts p id a.valid;
  counts = λ j.
      ground (arith, release_counts p id j ne, a.counts id, a.counts j, count-give_back id j held);
  total =
      ground (arith, release_total p id a.valid ne, a.total, a.counts id, length-give_back id held);
  per_account = λ j. ground (arith, count-give_back id j held, a.per_account j, a.per_account id);
  global = λ h. ground (arith, length-give_back id held, a.global);
  named =
      subst (λ m. All (IsNamed m) (release p id).queue) (sym (release-Keeps p id).lookup)
        (subst (All (IsNamed p.lookup)) (sym (release-Keeps p id).queue) a.named);
  same_limit = (release-Keeps p id).per_account ∙ a.same_limit;
  same_global = (release-Keeps p id).global ∙ a.same_global;
}

refused-Agrees :
    {start p q : Pool} {held : List Str} (target : Str) (exclude : Str → Bool)
    → Agrees start p held
    → acquire p target exclude ≡ (q, none)
    → Agrees start q held
refused-Agrees {start} {p} {q} {held} target exclude a h = go (acquire-Answers p target exclude)
  where
    go : Answers p exclude (candidates p target) (acquire p target exclude) → Agrees start q held
    go (refuses _ eq) = subst (λ r. Agrees start r held) (ground (arith, eq, h)) a
    go (grants _ _ id other _ _ good eq) = absurd (ground (arith, eq, h))

granted-Agrees :
    {start p q : Pool} {held : List Str} (target : Str) (exclude : Str → Bool) (acc : Account)
    → Agrees start p held
    → acquire p target exclude ≡ (q, some acc)
    → Agrees start q (leased_id target acc ∷ held)
granted-Agrees {start} {p} {q} {held} target exclude acc a h = go (acquire-Answers p target exclude)
  where
    go :
        Answers p exclude (candidates p target) (acquire p target exclude)
        → Agrees start q (leased_id target acc ∷ held)
    go (refuses _ eq) = absurd (ground (arith, eq, h))
    go (grants before after id other split _ good eq) =
        let t = subst (λ r. Takes p r id) {y = q} (ground (arith, eq, h)) (take_slot-Takes p id) in
        let e = subst (λ a. IsEligible p exclude id a) {y = acc} (ground (arith, eq, h)) good in
        subst (λ i. Agrees start q (i ∷ held))
          (sym (granted_id p target id acc before after split a.named e.found))
          (lend-Agrees id exclude acc a e t (taken-named p q id t a.named))

Leases-Agrees :
    {start p : Pool} {held : List Str} → IsUnused start → Leases start p held → Agrees start p held
Leases-Agrees u none_out = start-Agrees _ u
Leases-Agrees {start} u (refuse {p} {held = held} target exclude r eq) =
    refused-Agrees target exclude (Leases-Agrees u r) eq
Leases-Agrees {start} u (lend {p} {held = held} target exclude acc r eq) =
    granted-Agrees target exclude acc (Leases-Agrees u r) eq
Leases-Agrees {start} u (end_lease {p} {held = held} id r out ne eq) =
    subst (λ q. Agrees start q (give_back id held)) (sym eq)
      (end_lease-Agrees id (Leases-Agrees u r) out ne)

-- A pool starts with no leases out, and each account of its queue is found under its own identifier. After any
-- calls of acquire, whatever they answer, and releases of leases that are out, every count is the number of
-- leases out for that identifier and the total is the number of all leases out. At no time has an account
-- more leases out than its limit, nor the pool more than a positive global limit.
pub Leases-within_limits :
    {start p : Pool} {held : List Str}
    → IsUnused start
    → Leases start p held
    → ((j : Str) → (in_use_of p j ≡ count j held) × (count j held ≤ start.max_inflight_per_account))
      × (current_in_use p ≡ length held)
      × (0 < start.global_max_inflight → length held ≤ start.global_max_inflight)
Leases-within_limits {start} {p} {held} u r =
    (λ j. (a.counts j, a.per_account j), a.total, a.global)
  where
    a : Agrees start p held
    a = Leases-Agrees u r

pub count-append : (id : Str) (xs ys : List Str) → count id (xs ++ ys) ≡ count id xs + count id ys
unfolding count
count-append id [] ys = omega arith
count-append id (x ∷ xs) ys = omega (arith, count-append id xs ys)
