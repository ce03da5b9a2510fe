-- ===== src/Pool/Calls.antt =====
-- Any sequence of calls on a pool, in the order in which they take its lock.
use generalcompute2api.Prelude.{
  ℕ, refl, subst, sym, Bool, true, false, List, [], ◌∷◌, Option, none, some, length,
}
use generalcompute2api.Prelude.Int.{ℤ}
use generalcompute2api.Prelude.Text.{Str}
use generalcompute2api.Config.{Account}
use generalcompute2api.Config.Limits.{Env}
use generalcompute2api.Pool.{
  Pool, acquire, acquire_wait, release, remove_waiter, after_acquire, after_failure, can_queue,
}
use generalcompute2api.Pool.Changes.{
  remove_account, reset, sync_accounts, apply_runtime_limits, with_limits,
}
use generalcompute2api.Pool.Acquire.{
  Answers, grants, refuses, acquire-Answers, candidates, take_slot-Takes,
}
use generalcompute2api.Pool.Counts.{IsCounts, erase-IsCounts, select-IsCounts}
use generalcompute2api.Pool.Lookup.{contains, account_ids, sorted_accounts_for_queue}
use generalcompute2api.Pool.Release.{release-IsCounts, notify_waiter-in_use}
use generalcompute2api.Pool.Waiters.{
  IsOrderly, SameChannels-IsOrderly, acquire-SameChannels, acquire_wait-IsOrderly,
  release-IsOrderly, drain_waiters-IsOrderly, notify_waiter-IsOrderly, remove_waiter-IsOrderly,
}

-- The calls that change a pool.
pub data Call : Type 0 where
  acquires : Str → (Str → Bool) → Call
  waits : Bool → Str → (Str → Bool) → Call
  cancels : ℕ → Call
  releases removes : Str → Call
  syncs : List Account → Call
  limits : ℤ → ℤ → ℤ → Call
  resets : Call

unfoldable pub step : Env → Pool → Call → Pool
step e p (acquires target exclude) = (acquire p target exclude).0
step e p (waits done target exclude) = (acquire_wait done p target exclude).0
step e p (cancels w) = remove_waiter p w
step e p (releases id) = release p id
step e p (removes id) = remove_account p id
step e p (syncs accounts) = sync_accounts e p accounts
step e p (limits a b c) = apply_runtime_limits p a b c
step e p resets = reset e p

unfoldable pub run : Env → Pool → List Call → Pool
unfolding step
run e p [] = p
run e p (c ∷ cs) = run e (step e p c) cs

-- The channels are orderly, and the map of counts has one positive entry for each account in use.
pub record IsSound (p : Pool) : Type 0 where
  pub orderly : IsOrderly p
  pub valid : IsCounts p.in_use

acquire-IsCounts :
    (p : Pool) (target : Str) (exclude : Str → Bool)
    → IsCounts p.in_use
    → IsCounts (acquire p target exclude).0.in_use
acquire-IsCounts p target exclude v = go (acquire-Answers p target exclude)
  where
    go :
        {r : Pool × Option Account}
        → Answers p exclude (candidates p target) r
        → IsCounts r.0.in_use
    go (grants _ _ id acc _ _ _ eq) =
        subst (λ (s : Pool × Option Account). IsCounts s.0.in_use) (sym eq)
          ((take_slot-Takes p id).valid v)
    go (refuses _ eq) = subst (λ (s : Pool × Option Account). IsCounts s.0.in_use) (sym eq) v

after_acquire-IsCounts :
    (r : Pool × Option Account) (target : Str) (exclude : Str → Bool)
    → IsCounts r.0.in_use
    → IsCounts (after_acquire r target exclude).0.in_use
after_acquire-IsCounts (p, some acc) target exclude v = v
after_acquire-IsCounts (p, none) target exclude v = go (can_queue p target exclude)
  where
    go : (b : Bool) → IsCounts (after_failure p b).0.in_use
    go true = v
    go false = v

acquire_wait-IsCounts :
    (done : Bool) (p : Pool) (target : Str) (exclude : Str → Bool)
    → IsCounts p.in_use
    → IsCounts (acquire_wait done p target exclude).0.in_use
unfolding acquire_wait
acquire_wait-IsCounts true p target exclude v = v
acquire_wait-IsCounts false p target exclude v =
    after_acquire-IsCounts (acquire p target exclude) target exclude
      (acquire-IsCounts p target exclude v)

remove_account-IsSound : (p : Pool) (id : Str) → IsSound p → IsSound (remove_account p id)
unfolding remove_account
remove_account-IsSound p [] s = s
remove_account-IsSound p (c ∷ id) s = record {
  orderly = drain_waiters-IsOrderly _ (SameChannels-IsOrderly (refl, refl, refl) s.orderly);
  valid = erase-IsCounts (c ∷ id) p.in_use s.valid;
}

sync_accounts-IsSound :
    (e : Env) (p : Pool) (accounts : List Account)
    → IsSound p
    → IsSound (sync_accounts e p accounts)
unfolding sync_accounts
sync_accounts-IsSound e p accounts s = record {
  orderly = drain_waiters-IsOrderly _ (SameChannels-IsOrderly (refl, refl, refl) s.orderly);
  valid =
      select-IsCounts (λ id. contains id (account_ids (sorted_accounts_for_queue accounts)))
        p.in_use s.valid;
}

reset-IsSound : (e : Env) (p : Pool) → IsSound p → IsSound (reset e p)
unfolding reset
reset-IsSound e p s = record {
  orderly =
      SameChannels-IsOrderly (refl, refl, refl)
        (drain_waiters-IsOrderly
          (with_limits p e (length (account_ids (sorted_accounts_for_queue p.lookup.accounts))))
          (SameChannels-IsOrderly (refl, refl, refl) s.orderly));
  valid = tt;
}

apply_runtime_limits-IsSound :
    (p : Pool) (a b c : ℤ) → IsSound p → IsSound (apply_runtime_limits p a b c)
unfolding apply_runtime_limits
apply_runtime_limits-IsSound p a b c s = record {
  orderly = notify_waiter-IsOrderly _ (SameChannels-IsOrderly (refl, refl, refl) s.orderly);
  valid = subst IsCounts (sym (notify_waiter-in_use _)) s.valid;
}

step-IsSound : (e : Env) (p : Pool) (c : Call) → IsSound p → IsSound (step e p c)
unfolding step
step-IsSound e p (acquires target exclude) s = record {
  orderly = SameChannels-IsOrderly (acquire-SameChannels p target exclude) s.orderly;
  valid = acquire-IsCounts p target exclude s.valid;
}
step-IsSound e p (waits done target exclude) s = record {
  orderly = acquire_wait-IsOrderly done p target exclude s.orderly;
  valid = acquire_wait-IsCounts done p target exclude s.valid;
}
step-IsSound e p (cancels w) s = record {
  orderly = remove_waiter-IsOrderly p w s.orderly;
  valid = unfold remove_waiter in s.valid;
}
step-IsSound e p (releases id) s = record {
  orderly = release-IsOrderly p id s.orderly;
  valid = release-IsCounts p id s.valid;
}
step-IsSound e p (removes id) s = remove_account-IsSound p id s
step-IsSound e p (syncs accounts) s = sync_accounts-IsSound e p accounts s
step-IsSound e p (limits a b c) s = apply_runtime_limits-IsSound p a b c s
step-IsSound e p resets s = reset-IsSound e p s

-- Whatever calls are made on a pool, in whatever order: no channel is closed twice or closed while it
-- is still queued, and every count that is stored is positive and stored once.
pub run-IsSound : (e : Env) (p : Pool) (cs : List Call) → IsSound p → IsSound (run e p cs)
unfolding run
run-IsSound e p [] s = s
run-IsSound e p (c ∷ cs) s = run-IsSound e (step e p c) cs (step-IsSound e p c s)
