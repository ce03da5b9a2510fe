-- ===== src/Pool.antt =====
-- internal/account: the pool that hands out accounts (pool_core.go, pool_acquire.go, pool_limits.go,
-- pool_waiters.go, lookup.go). Each method takes the state that it holds the lock on and returns the
-- new one. A channel is a number; `closed` holds the channels that were closed, newest first.
pub mod Changes
pub mod Lookup
pub mod Counts
pub mod Acquire
pub mod Release
pub mod Named
pub mod Ledger
pub mod Waiters
pub mod Calls
pub mod Sync
pub mod Waiting
pub mod Tests
use generalcompute2api.Prelude.{
  ℕ, zero, suc, ◌+◌, ◌-◌, ◌*◌, Bool, true, false, not, ◌&&◌, ◌||◌, List, [], ◌∷◌, ◌++◌, Option,
  none, some, if◌then◌else◌, ltb, leb, ◌==◌, length, select, reverse,
}
use generalcompute2api.Prelude.Int.{ℤ, pos, negsuc}
use generalcompute2api.Prelude.Maps.{lookup, insert, erase, has_key}
use generalcompute2api.Prelude.Text.{Str, str_eq}
use generalcompute2api.Config.{Account}
use generalcompute2api.Config.Limits.{
  Env, RuntimeConfig, max_inflight_from_env, max_queue_from_env, runtime_account_max_inflight,
  runtime_account_max_queue, runtime_global_max_inflight, default_recommended_concurrency,
}
use Lookup.{
  MemoryLookup, new_memory_lookup, find_account, sorted_accounts_for_queue, account_ids, contains,
  remove_first, sort_strings,
}

pub record Pool : Type 0 where
  pub lookup : MemoryLookup
  pub runtime : Option RuntimeConfig
  pub queue : List Str
  pub in_use : List (Str × ℕ)
  pub waiters : List ℕ
  pub closed : List ℕ
  pub next_waiter : ℕ
  pub max_inflight_per_account : ℕ
  pub recommended_concurrency : ℕ
  -- `none` is `unlimitedQueueSize`.
  pub max_queue_size : Option ℕ
  pub global_max_inflight : ℕ

-- A missing key reads as 0.
abbrev pub or_zero : Option ℕ → ℕ
or_zero none = 0
or_zero (some n) = n

abbrev pub in_use_of : Pool → Str → ℕ
in_use_of p id = or_zero (lookup id p.in_use)

unfoldable pub sum_counts : List (Str × ℕ) → ℕ
sum_counts [] = 0
sum_counts ((id, n) ∷ m) = n + sum_counts m

abbrev pub current_in_use : Pool → ℕ
current_in_use p = sum_counts p.in_use

unfoldable pub can_acquire_id : Pool → Str → Bool
can_acquire_id p [] = false
can_acquire_id p (c ∷ s) =
    not (leb p.max_inflight_per_account (in_use_of p (c ∷ s)))
    && not (ltb 0 p.global_max_inflight && leb p.global_max_inflight (current_in_use p))

abbrev pub move_to_back : Str → List Str → Option (List Str) → List Str
move_to_back id queue none = queue
move_to_back id queue (some rest) = rest ++ (id ∷ [])

unfoldable pub bump_queue : Pool → Str → Pool
bump_queue p id = record p { queue = move_to_back id p.queue (remove_first id p.queue) }

-- `p.inUse[id]++` and `p.bumpQueue(id)`.
unfoldable pub take_slot : Pool → Str → Pool
unfolding bump_queue
take_slot p id = bump_queue (record p { in_use = insert id (in_use_of p id + 1) p.in_use }) id

-- The loop of `tryAcquire`, over what is left of the queue.
unfoldable pub try_acquire : Pool → (Str → Bool) → List Str → Pool × Option Account
try_acquire p exclude [] = (p, none)
try_acquire p exclude (id ∷ ids) =
    let rest = try_acquire p exclude ids in
    if exclude id || not (can_acquire_id p id)
    then rest
    else elim (find_account p.lookup id) [ none ↦ rest | some acc ↦ (take_slot p id, some acc) ]

-- `exclude[id]` of a map that may be nil.
unfoldable pub acquire : Pool → Str → (Str → Bool) → Pool × Option Account
acquire p [] exclude = try_acquire p exclude p.queue
acquire p (c ∷ s) exclude =
    if exclude (c ∷ s) || not (can_acquire_id p (c ∷ s))
    then (p, none)
    else elim (find_account p.lookup (c ∷ s)) [
      | none ↦ (p, none)
      | some acc ↦ (take_slot p (c ∷ s), some acc)
    ]

abbrev pub has_room : Option ℕ → ℕ → Bool
has_room none waiting = true
has_room (some limit) waiting = ltb 0 limit && ltb waiting limit

abbrev pub target_known : Pool → Str → (Str → Bool) → Bool
target_known p [] exclude = true
target_known p (c ∷ s) exclude =
    not (exclude (c ∷ s)) && elim (find_account p.lookup (c ∷ s)) [ none ↦ false | some _ ↦ true ]

unfoldable pub can_queue : Pool → Str → (Str → Bool) → Bool
can_queue p target exclude =
    target_known p target exclude && has_room p.max_queue_size (length p.waiters)

-- The first waiter is woken.
abbrev pub notify : Pool → List ℕ → Pool
notify p [] = p
notify p (w ∷ ws) = record p { waiters = ws; closed = w ∷ p.closed }

unfoldable pub notify_waiter : Pool → Pool
notify_waiter p = notify p p.waiters

unfoldable pub drain_waiters : Pool → Pool
drain_waiters p = record p { waiters = []; closed = reverse p.waiters ++ p.closed }

-- The waiter's entry, removed where it is still queued.
unfoldable pub remove_number : ℕ → List ℕ → List ℕ
remove_number w [] = []
remove_number w (x ∷ xs) = if x == w then xs else x ∷ remove_number w xs

unfoldable pub remove_waiter : Pool → ℕ → Pool
unfolding remove_number
remove_waiter p w = record p { waiters = remove_number w p.waiters }

-- `AcquireWait` between two waits: an account, a refusal, or a channel to wait on.
pub data Attempt : Type 0 where
  granted : Account → Attempt
  refused : Attempt
  waits_on : ℕ → Attempt

abbrev pub enqueue : Pool → Pool
enqueue p = record p {
  waiters = p.waiters ++ (p.next_waiter ∷ []);
  next_waiter = p.next_waiter + 1;
}

abbrev pub after_failure : Pool → Bool → Pool × Attempt
after_failure p true = (enqueue p, waits_on p.next_waiter)
after_failure p false = (p, refused)

abbrev pub after_acquire : Pool × Option Account → Str → (Str → Bool) → Pool × Attempt
after_acquire (p, some acc) target exclude = (p, granted acc)
after_acquire (p, none) target exclude = after_failure p (can_queue p target exclude)

-- One turn of the loop of `AcquireWait`; the first argument is `ctx.Err() != nil`.
unfoldable pub acquire_wait : Bool → Pool → Str → (Str → Bool) → Pool × Attempt
acquire_wait true p target exclude = (p, refused)
acquire_wait false p target exclude = after_acquire (acquire p target exclude) target exclude

abbrev pub release_count : Pool → Str → ℕ → Pool
release_count p id zero = p
release_count p id (suc zero) = notify_waiter (record p { in_use = erase id p.in_use })
release_count p id (suc (suc n)) = notify_waiter (record p { in_use = insert id (suc n) p.in_use })

unfoldable pub release : Pool → Str → Pool
release p [] = p
release p (c ∷ s) = release_count p (c ∷ s) (in_use_of p (c ∷ s))
