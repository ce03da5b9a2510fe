-- ===== src/Pool/Tests.antt =====
-- Runs of the account pool, and its theorems at concrete pools.
use generalcompute2api.Prelude.{
  ap, ◌∙◌, ◌+◌, ◌≤◌, ◌<◌, ◌≡◌, refl, Bool, false, [], ◌∷◌, none, some, arith, length,
}
use generalcompute2api.Prelude.Int.{pos, negsuc}
use generalcompute2api.Prelude.Maps.{lookup, insert}
use generalcompute2api.Prelude.Text.{Str, codes, str_eq, trim_space}
use generalcompute2api.Config.{Account, identifier}
use generalcompute2api.Config.Limits.{Env}
use generalcompute2api.Pool.Acquire.{Answers, acquire-Answers}
use generalcompute2api.Pool.Calls.{
  IsSound, run, run-IsSound, waits, cancels, releases, removes, syncs, limits, resets,
}
use generalcompute2api.Pool.Named.{IsNamed}
use generalcompute2api.Pool.Ledger.{IsUnused, Leases, none_out, lend, Leases-within_limits, count}
use generalcompute2api.Pool.Lookup.{
  MemoryLookup, account_ids, remove_first, find_account, new_memory_lookup,
  sorted_accounts_for_queue,
}
use generalcompute2api.Pool.Sync.{removed_account_forgets_leases}
use generalcompute2api.Pool.Waiters.{IsOrderly, count as count_number}
use generalcompute2api.Pool.Waiting.{WaitTurn, acquire_wait-WaitTurn, cancelled_wakeup_lost}
use generalcompute2api.Pool.{
  account_ids, Pool, acquire, acquire_wait, can_acquire_id, current_in_use, in_use_of, release,
  remove_waiter, sum_counts, take_slot, try_acquire,
}
use generalcompute2api.Pool.Changes.{new_pool, remove_account, sync_accounts}

abbrev account : Str → Str → Account
account email token = record {
  name = [];
  remark = [];
  email = email;
  mobile = [];
  password = [];
  token = token;
  proxy_id = [];
  cookie = [];
  session_id = [];
  organization_id = [];
}

abbrev id1 : Str
id1 = codes "acc1@example.com"

abbrev id2 : Str
id2 = codes "acc2@example.com"

abbrev acc1 : Account
acc1 = account id1 []

abbrev acc2 : Account
acc2 = account id2 (codes "token2")

abbrev env : Env
env = record { account_max_inflight = codes "1"; account_max_queue = []; global_max_inflight = [] }

abbrev no_exclude : Str → Bool
no_exclude _ = false

abbrev idle : Pool
idle = record {
  lookup = record { accounts = acc2 ∷ acc1 ∷ []; by_id = (id1, acc1) ∷ (id2, acc2) ∷ [] };
  runtime = none;
  queue = id2 ∷ id1 ∷ [];
  in_use = [];
  waiters = [];
  closed = [];
  next_waiter = 0;
  max_inflight_per_account = 1;
  recommended_concurrency = 2;
  max_queue_size = some 2;
  global_max_inflight = 2;
}

-- Both accounts leased; two callers wait.
abbrev full : Pool
full = record idle { in_use = (id2, 1) ∷ (id1, 1) ∷ []; waiters = 0 ∷ 1 ∷ []; next_waiter = 2 }

-- The account with a token is served first, then the other, then nobody.
round_robin :
    ((acquire idle [] no_exclude).1 ≡ some acc2)
    × ((acquire (acquire idle [] no_exclude).0 [] no_exclude).1 ≡ some acc1)
    × ((acquire full [] no_exclude).1 ≡ none)
unfolding acquire try_acquire can_acquire_id take_slot find_account lookup trim_space str_eq
    sum_counts insert remove_first
round_robin = (refl, refl, refl)

new_pool_queue : (new_pool env (new_memory_lookup (acc1 ∷ acc2 ∷ [])) none).queue ≡ id2 ∷ id1 ∷ []
unfolding new_pool new_memory_lookup sorted_accounts_for_queue identifier trim_space account_ids
new_pool_queue = refl

full-IsOrderly : IsOrderly full
unfolding count_number
full-IsOrderly = record { once = λ w. ground arith; fresh = λ w h. ground arith }

full-IsSound : IsSound full
unfolding lookup str_eq
full-IsSound = record {
  orderly = full-IsOrderly;
  valid = (omega arith, refl, (omega arith, refl, tt));
}

leased_eq : acquire idle [] no_exclude ≡ (take_slot idle id2, some acc2)
unfolding acquire try_acquire can_acquire_id take_slot find_account lookup trim_space str_eq
    sum_counts
leased_eq = refl

named_by :
    (m : MemoryLookup) (id : Str) (a : Account)
    → find_account m id ≡ some a
    → identifier a ≡ id
    → IsNamed m id
named_by m id a f e b g = ap identifier {x = b} {y = a} (ground (arith, f, g)) ∙ e

idle-IsUnused : IsUnused idle
unfolding find_account lookup trim_space str_eq identifier
idle-IsUnused = record {
  empty = refl;
  named = (named_by idle.lookup id2 acc2 refl refl, (named_by idle.lookup id1 acc1 refl refl, tt));
}

first_lease : Leases idle (take_slot idle id2) (identifier acc2 ∷ [])
first_lease = lend [] no_exclude acc2 none_out leased_eq

Leases-within_limits_example :
    ((j : Str)
      → (in_use_of (take_slot idle id2) j ≡ count j (identifier acc2 ∷ []))
        × (count j (identifier acc2 ∷ []) ≤ idle.max_inflight_per_account))
    × (current_in_use (take_slot idle id2) ≡ length (identifier acc2 ∷ []))
    × (0 < idle.global_max_inflight → length (identifier acc2 ∷ []) ≤ idle.global_max_inflight)
Leases-within_limits_example = Leases-within_limits idle-IsUnused first_lease

acquire-Answers_example : Answers full no_exclude (id2 ∷ id1 ∷ []) (acquire full [] no_exclude)
acquire-Answers_example = acquire-Answers full [] no_exclude

run-IsSound_example : IsSound (
    run env full (
      releases id1
      ∷ waits false [] no_exclude
      ∷ cancels 1
      ∷ removes id2
      ∷ syncs (acc1 ∷ [])
      ∷ limits (negsuc 0) (pos 3) (pos 0)
      ∷ resets
      ∷ []))
run-IsSound_example =
    run-IsSound env full
      (releases id1
        ∷ waits false [] no_exclude
        ∷ cancels 1
        ∷ removes id2
        ∷ syncs (acc1 ∷ [])
        ∷ limits (negsuc 0) (pos 3) (pos 0)
        ∷ resets
        ∷ [])
      full-IsSound

removed_account_forgets_leases_example :
    in_use_of (sync_accounts env (remove_account full id1) (acc1 ∷ acc2 ∷ [])) id1 ≡ 0
removed_account_forgets_leases_example =
    removed_account_forgets_leases env full (acc1 ∷ acc2 ∷ []) b'a' (codes "cc1@example.com")

acquire_wait-WaitTurn_example :
    WaitTurn full id1 no_exclude (acquire_wait false full id1 no_exclude)
acquire_wait-WaitTurn_example = acquire_wait-WaitTurn full id1 no_exclude

held : 0 < in_use_of full id1
unfolding lookup str_eq
held = omega arith

cancelled_wakeup_lost_example :
    let q = remove_waiter (release full id1) 0 in
    (q.waiters ≡ 1 ∷ []) × (q.closed ≡ 0 ∷ []) × (in_use_of q id1 + 1 ≡ in_use_of full id1)
cancelled_wakeup_lost_example =
    cancelled_wakeup_lost full id1 0 (1 ∷ []) full-IsOrderly (λ e. cc) held refl
