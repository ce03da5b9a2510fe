-- ===== src/Config/Limits.antt =====
-- internal/config/store_accessors.go and internal/account/pool_limits.go: the pool's limits, from the
-- configuration file, then the environment, then a default.
use generalcompute2api.Prelude.{ℕ, zero, suc, ◌*◌, ◌<◌, [], ◌∷◌, Option, none, some, arith}
use generalcompute2api.Prelude.Int.{ℤ, pos, negsuc}
use generalcompute2api.Prelude.Text.{Str, trim_space, atoi}

-- The environment variables that the limits read; an unset one is the empty string.
pub record Env : Type 0 where
  pub account_max_inflight : Str
  pub account_max_queue : Str
  pub global_max_inflight : Str

pub record RuntimeConfig : Type 0 where
  pub account_max_inflight : ℤ
  pub account_max_queue : ℤ
  pub global_max_inflight : ℤ

-- `n, err := strconv.Atoi(raw); err == nil && n > 0`.
abbrev positive : Option ℤ → Option ℕ
positive (some (pos (suc n))) = some (suc n)
positive _ = none

abbrev non_negative : Option ℤ → Option ℕ
non_negative (some (pos n)) = some n
non_negative _ = none

-- A value that is only read if it is not empty once trimmed.
abbrev read_env : Str → Option ℤ
read_env raw = elim (trim_space raw) [ [] ↦ none | c ∷ s ↦ atoi (c ∷ s) ]

abbrev or_else {ℓ} : {A : Type ℓ} → Option A → A → A
or_else (some a) d = a
or_else none d = d

unfoldable pub max_inflight_from_env : Env → ℕ
max_inflight_from_env e = or_else (positive (read_env e.account_max_inflight)) 1

-- `none` is `unlimitedQueueSize`, the only negative value of the limit.
unfoldable pub max_queue_from_env : Env → Option ℕ
max_queue_from_env e = non_negative (read_env e.account_max_queue)

abbrev if_positive {ℓ} : {A : Type ℓ} → ℤ → (ℕ → A) → A → A
if_positive (pos (suc n)) f d = f (suc n)
if_positive _ f d = d

unfoldable pub runtime_account_max_inflight : RuntimeConfig → Env → ℕ
unfolding max_inflight_from_env
runtime_account_max_inflight c e =
    if_positive c.account_max_inflight (λ n. n) (max_inflight_from_env e)

unfoldable pub runtime_account_max_queue : RuntimeConfig → Env → Option ℕ
unfolding max_queue_from_env
runtime_account_max_queue c e = if_positive c.account_max_queue (λ n. some n) (max_queue_from_env e)

unfoldable pub runtime_global_max_inflight : RuntimeConfig → Env → ℕ → ℕ
runtime_global_max_inflight c e default_size =
    if_positive c.global_max_inflight (λ n. n)
      (or_else (positive (read_env e.global_max_inflight)) default_size)

unfoldable pub default_recommended_concurrency : ℕ → ℕ → ℕ
default_recommended_concurrency zero per = 0
default_recommended_concurrency (suc n) zero = suc n * 1
default_recommended_concurrency (suc n) (suc per) = suc n * suc per

positive_pos : (o : Option ℤ) → 0 < or_else (positive o) 1
positive_pos (some (pos (suc n))) = omega arith
positive_pos _ = omega arith

pub max_inflight_from_env_pos : (e : Env) → 0 < max_inflight_from_env e
unfolding max_inflight_from_env
max_inflight_from_env_pos e = positive_pos (read_env e.account_max_inflight)

pub runtime_account_max_inflight_pos :
    (c : RuntimeConfig) (e : Env) → 0 < runtime_account_max_inflight c e
unfolding runtime_account_max_inflight
runtime_account_max_inflight_pos c e = go c.account_max_inflight
  where
    go :
        (z : ℤ)
        → 0 < if_positive z (λ n. n) (or_else (positive (read_env e.account_max_inflight)) 1)
    go (pos (suc n)) = omega arith
    go (pos zero) = positive_pos (read_env e.account_max_inflight)
    go (negsuc n) = positive_pos (read_env e.account_max_inflight)
