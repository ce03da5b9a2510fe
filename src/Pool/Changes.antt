-- ===== src/Pool/Changes.antt =====
-- internal/account: accounts that go, and changes of the pool: its limits, its reset and its accounts.
use generalcompute2api.Prelude.{
  ℕ, zero, suc, ◌*◌, List, [], ◌∷◌, ◌++◌, Option, none, some, if◌then◌else◌, ltb, length, select,
}
use generalcompute2api.Prelude.Int.{ℤ, pos, negsuc}
use generalcompute2api.Prelude.Maps.{lookup, erase}
use generalcompute2api.Prelude.Text.{Str}
use generalcompute2api.Config.{Account}
use generalcompute2api.Config.Limits.{
  Env, RuntimeConfig, max_inflight_from_env, max_queue_from_env, runtime_account_max_inflight,
  runtime_account_max_queue, runtime_global_max_inflight, default_recommended_concurrency,
}
use generalcompute2api.Pool.Lookup.{
  MemoryLookup, new_memory_lookup, sorted_accounts_for_queue, account_ids, contains, remove_first,
  sort_strings,
}
use generalcompute2api.Pool.{Pool, in_use_of, current_in_use, notify_waiter, drain_waiters}

abbrev pub without : Str → List Str → Option (List Str) → List Str
without id queue none = queue
without id queue (some rest) = rest

unfoldable pub remove_account : Pool → Str → Pool
unfolding drain_waiters
remove_account p [] = p
remove_account p (c ∷ s) = drain_waiters (record p {
  queue = without (c ∷ s) p.queue (remove_first (c ∷ s) p.queue);
  in_use = erase (c ∷ s) p.in_use;
})

abbrev pub configured_inflight : Option RuntimeConfig → Env → ℕ
configured_inflight none e = max_inflight_from_env e
configured_inflight (some c) e = runtime_account_max_inflight c e

abbrev pub configured_queue : Option RuntimeConfig → Env → Option ℕ
configured_queue none e = max_queue_from_env e
configured_queue (some c) e = runtime_account_max_queue c e

abbrev pub configured_global : Option RuntimeConfig → Env → ℕ → ℕ
configured_global none e recommended = recommended
configured_global (some c) e recommended = runtime_global_max_inflight c e recommended

-- The limits that `Reset` and `SyncAccounts` compute for a number of accounts.
unfoldable pub with_limits : Pool → Env → ℕ → Pool
with_limits p e accounts =
    let per = configured_inflight p.runtime e in
    let recommended = default_recommended_concurrency accounts per in
    record p {
      max_inflight_per_account = per;
      recommended_concurrency = recommended;
      max_queue_size = configured_queue p.runtime e;
      global_max_inflight = configured_global p.runtime e recommended;
    }

unfoldable pub reset : Env → Pool → Pool
unfolding drain_waiters with_limits
reset e p =
    let ids = account_ids (sorted_accounts_for_queue p.lookup.accounts) in
    record (drain_waiters (with_limits p e (length ids))) { queue = ids; in_use = [] }

unfoldable pub new_pool : Env → MemoryLookup → Option RuntimeConfig → Pool
unfolding reset
new_pool e lookup runtime = reset e (record {
  lookup = lookup;
  runtime = runtime;
  queue = [];
  in_use = [];
  waiters = [];
  closed = [];
  next_waiter = 0;
  max_inflight_per_account = 2;
  recommended_concurrency = 0;
  max_queue_size = some 0;
  global_max_inflight = 0;
})

-- `for _, id := range newIDs`: what is not seen yet goes to the end.
unfoldable pub append_unseen : List Str → List Str → List Str
append_unseen seen [] = []
append_unseen seen (id ∷ ids) =
    let rest = append_unseen seen ids in
    let more = append_unseen (id ∷ seen) ids in if contains id seen then rest else id ∷ more

unfoldable pub sync_accounts : Env → Pool → List Account → Pool
unfolding drain_waiters with_limits append_unseen
sync_accounts e p accounts =
    let sorted = sorted_accounts_for_queue accounts in
    let ids = account_ids sorted in
    let kept = select (λ id. contains id ids) p.queue in
    drain_waiters (record (with_limits p e (length ids)) {
      lookup = new_memory_lookup sorted;
      queue = kept ++ append_unseen kept ids;
      in_use = select (λ (entry : Str × ℕ). contains entry.0 ids) p.in_use;
    })

abbrev pub at_least_one : ℤ → ℕ
at_least_one (pos (suc n)) = suc n
at_least_one _ = 1

abbrev pub queue_limit : ℤ → Option ℕ
queue_limit (pos n) = some n
queue_limit (negsuc n) = none

abbrev pub non_zero_or : ℕ → ℕ → ℕ
non_zero_or zero d = d
non_zero_or (suc n) d = suc n

abbrev pub global_limit : ℤ → ℕ → ℕ → ℕ
global_limit (pos (suc n)) per accounts = suc n
global_limit _ per accounts = non_zero_or (per * accounts) per

unfoldable pub apply_runtime_limits : Pool → ℤ → ℤ → ℤ → Pool
unfolding notify_waiter
apply_runtime_limits p max_inflight max_queue global =
    let per = at_least_one max_inflight in
    notify_waiter (record p {
      max_inflight_per_account = per;
      max_queue_size = queue_limit max_queue;
      global_max_inflight = global_limit global per (length p.lookup.accounts);
      recommended_concurrency = default_recommended_concurrency (length p.queue) per;
    })

pub record Status : Type 0 where
  pub available_accounts : List Str
  pub available : ℕ
  pub in_use_accounts : List Str
  pub in_use : ℕ
  pub total : ℕ
  pub waiting : ℕ

unfoldable pub used_ids : List (Str × ℕ) → List Str
used_ids [] = []
used_ids ((id, n) ∷ m) = if ltb 0 n then id ∷ used_ids m else used_ids m

unfoldable pub status : Pool → Status
unfolding used_ids
status p =
    let free = select (λ id. ltb (in_use_of p id) p.max_inflight_per_account) p.queue in
    record {
      available_accounts = free;
      available = length free;
      in_use_accounts = sort_strings (used_ids p.in_use);
      in_use = current_in_use p;
      total = length p.lookup.accounts;
      waiting = length p.waiters;
    }
