-- ===== src/Pool/Release.antt =====
-- `release` in internal/account/pool_core.go: it takes one slot back, and undoes an `acquire`.
use generalcompute2api.Prelude.{
  ℕ, zero, suc, ◌+◌, ◌-◌, ◌≡◌, refl, ◌≢◌, Bool, List, [], ◌∷◌, some, arith, if◌then◌else◌, ltb,
}
use generalcompute2api.Prelude.Maps.{insert, erase, lookup-insert, lookup-erase}
use generalcompute2api.Prelude.Text.{Str, str_eq, str_eq_iff, str_eq_refl}
use generalcompute2api.Config.{Account}
use generalcompute2api.Pool.{
  Pool, in_use_of, current_in_use, acquire, release, release_count, notify_waiter, notify,
}
use generalcompute2api.Pool.Counts.{
  insert-IsCounts, erase-IsCounts, IsCounts, sum-insert, sum-erase,
}
use generalcompute2api.Pool.Lookup.{find_account}
use generalcompute2api.Pool.Acquire.{Grant, acquire-Grant, can_acquire_limits}

-- Waking a waiter leaves the counts alone.
pub notify_waiter-in_use : (p : Pool) → (notify_waiter p).in_use ≡ p.in_use
unfolding notify_waiter
notify_waiter-in_use p = go p.waiters
  where
    go : (ws : List ℕ) → (notify p ws).in_use ≡ p.in_use
    go [] = refl
    go (w ∷ ws) = refl

-- `release` takes one off the account's count, down to 0, and changes no other.
pub release_counts :
    (p : Pool) (id j : Str)
    → id ≢ []
    → in_use_of (release p id) j ≡ (if str_eq id j then in_use_of p id - 1 else in_use_of p j)
unfolding release
release_counts p [] j ne = absurd (ne refl)
release_counts p (c ∷ s) j ne = go (in_use_of p (c ∷ s)) refl
  where
    go :
        (n : ℕ)
        → in_use_of p (c ∷ s) ≡ n
        → in_use_of (release_count p (c ∷ s) n) j
          ≡ (if str_eq (c ∷ s) j then n - 1 else in_use_of p j)
    go zero e = ground (arith, str_eq_iff (c ∷ s) j)
    go (suc zero) e = rw notify_waiter-in_use (ground (arith, lookup-erase (c ∷ s) j p.in_use))
    go (suc (suc n)) e =
        rw notify_waiter-in_use (ground (arith, lookup-insert (c ∷ s) j (suc n) p.in_use))

pub release_total :
    (p : Pool) (id : Str)
    → IsCounts p.in_use
    → id ≢ []
    → current_in_use (release p id) + (if ltb 0 (in_use_of p id) then 1 else 0) ≡ current_in_use p
unfolding release
release_total p [] v ne = absurd (ne refl)
release_total p (c ∷ s) v ne = go (in_use_of p (c ∷ s)) refl
  where
    go :
        (n : ℕ)
        → in_use_of p (c ∷ s) ≡ n
        → current_in_use (release_count p (c ∷ s) n) + (if ltb 0 n then 1 else 0) ≡ current_in_use p
    go zero e = ground arith
    go (suc zero) e = rw notify_waiter-in_use (ground (arith, sum-erase (c ∷ s) p.in_use v))
    go (suc (suc n)) e =
        rw notify_waiter-in_use (ground (arith, sum-insert (c ∷ s) (suc n) p.in_use))

-- Releasing what was just acquired restores the count of every account and the total.
pub release-acquire :
    (p q : Pool) (target : Str) (exclude : Str → Bool) (acc : Account)
    → IsCounts p.in_use
    → acquire p target exclude ≡ (q, some acc)
    → (id : Str) × (find_account p.lookup id ≡ some acc)
      × ((j : Str) → in_use_of (release q id) j ≡ in_use_of p j)
      × (current_in_use (release q id) ≡ current_in_use p)
release-acquire p q target exclude acc v h = (g.id, g.eligible.found, restored, total)
  where
    g : Grant p q exclude acc
    g = acquire-Grant p q target exclude acc h

    taken : in_use_of q g.id ≡ in_use_of p g.id + 1
    taken = ground (arith, g.takes.counts g.id, str_eq_refl g.id)

    named : g.id ≢ []
    named = (can_acquire_limits p g.id g.eligible.can_acquire).2

    restored : (j : Str) → in_use_of (release q g.id) j ≡ in_use_of p j
    restored j =
        ground (arith, release_counts q g.id j named, g.takes.counts j, taken, str_eq_iff g.id j)

    total : current_in_use (release q g.id) ≡ current_in_use p
    total = ground (arith, release_total q g.id (g.takes.valid v) named, taken, g.takes.total)

-- What `release` leaves as it is.
pub record Keeps (p q : Pool) : Type 0 where
  pub lookup : q.lookup ≡ p.lookup
  pub queue : q.queue ≡ p.queue
  pub per_account : q.max_inflight_per_account ≡ p.max_inflight_per_account
  pub global : q.global_max_inflight ≡ p.global_max_inflight
  pub queue_size : q.max_queue_size ≡ p.max_queue_size

notify-Keeps :
    (p : Pool) (ws : List ℕ) (m : List (Str × ℕ)) → Keeps p (notify (record p { in_use = m }) ws)
notify-Keeps p [] m = record {
  lookup = refl;
  queue = refl;
  per_account = refl;
  global = refl;
  queue_size = refl;
}
notify-Keeps p (w ∷ ws) m = record {
  lookup = refl;
  queue = refl;
  per_account = refl;
  global = refl;
  queue_size = refl;
}

release_count-Keeps : (p : Pool) (id : Str) (n : ℕ) → Keeps p (release_count p id n)
unfolding notify_waiter
release_count-Keeps p id zero = record {
  lookup = refl;
  queue = refl;
  per_account = refl;
  global = refl;
  queue_size = refl;
}
release_count-Keeps p id (suc zero) = notify-Keeps p p.waiters (erase id p.in_use)
release_count-Keeps p id (suc (suc n)) = notify-Keeps p p.waiters (insert id (suc n) p.in_use)

pub release-Keeps : (p : Pool) (id : Str) → Keeps p (release p id)
unfolding release
release-Keeps p [] = record {
  lookup = refl;
  queue = refl;
  per_account = refl;
  global = refl;
  queue_size = refl;
}
release-Keeps p (c ∷ s) = release_count-Keeps p (c ∷ s) (in_use_of p (c ∷ s))

release_count-IsCounts :
    (p : Pool) (id : Str) (n : ℕ) → IsCounts p.in_use → IsCounts (release_count p id n).in_use
release_count-IsCounts p id zero v = v
release_count-IsCounts p id (suc zero) v = rw notify_waiter-in_use (erase-IsCounts id p.in_use v)
release_count-IsCounts p id (suc (suc n)) v =
    rw notify_waiter-in_use (insert-IsCounts id (suc n) p.in_use (omega arith) v)

pub release-IsCounts : (p : Pool) (id : Str) → IsCounts p.in_use → IsCounts (release p id).in_use
unfolding release
release-IsCounts p [] v = v
release-IsCounts p (c ∷ s) v = release_count-IsCounts p (c ∷ s) (in_use_of p (c ∷ s)) v
