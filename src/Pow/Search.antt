-- ===== src/Pow/Search.antt =====
-- The search of `SolvePow`: the answer is the least nonce whose hash is the target.
use generalcompute2api.Prelude.{
  ℕ, zero, suc, ◌+◌, ◌%◌, ◌≤◌, ◌<◌, ◌≡◌, ap, sym, subst, ◌↔◌, Bool, true, false, ◌&&◌, ◌++◌, some,
  arith, ◌==◌, ==_iff, length, take, Bool-cases, inl, inr,
}
use generalcompute2api.Prelude.Int.{ℤ}
use generalcompute2api.Prelude.Text.{Str, str_eq_iff}
use generalcompute2api.Pow.Absorb.{nonce_state-hash_state}
use generalcompute2api.Pow.Decimal.{decimal_digits, length-decimal_digits}
use generalcompute2api.Pow.Hash.{Bytes, absorb_full, hash_state, lanes, zero_state}
use generalcompute2api.Pow.Solve.{
  nonce_state, Solution, found, failed, cancelled, no_solution, build_prefix, decode_hex, hits,
  nonce_count, search_nonce, solve_pow,
}

-- A search over the nonces from `first` to below `last`, for the least one with the property; it may
-- be stopped at a multiple of 1024.
pub data Searched (stops : ℕ → Bool) (P : ℕ → Type 0) (first last : ℕ) : Solution → Type 0 where
  hit_at :
      (n : ℕ)
      → first ≤ n
      → n < last
      → P n
      → ((m : ℕ) → first ≤ m → m < n → ¬ P m)
      → Searched stops P first last (found n)
  exhausted :
      ((m : ℕ) → first ≤ m → m < last → ¬ P m) → Searched stops P first last (failed no_solution)
  stopped :
      (n : ℕ)
      → first ≤ n
      → n < last
      → n % 1024 ≡ 0
      → stops n ≡ true
      → ((m : ℕ) → first ≤ m → m < n → ¬ P m)
      → Searched stops P first last (failed cancelled)

module _ (stops : ℕ → Bool) (hit : ℕ → Bool) (P : ℕ → Type 0)
    (iff : (n : ℕ) → (hit n ≡ true) ↔ P n) where
  missed :
      (n bound : ℕ)
      → hit n ≡ false
      → ((m : ℕ) → n + 1 ≤ m → m < bound → ¬ P m)
      → (m : ℕ) → n ≤ m
      → m < bound
      → ¬ P m
  missed n bound h rest m le lt p = elim (Bool-cases (m == n)) [
    | inl same ↦ ground (arith, (iff m).1 p, ap hit ((==_iff m n).0 same))
    | inr other ↦ rest m (ground arith) lt p
  ]

  later :
      (n last : ℕ) {s : Solution}
      → hit n ≡ false
      → Searched stops P (n + 1) last s
      → Searched stops P n last s
  later n last h (hit_at k a b p none_before) =
      hit_at k (omega arith) b p (missed n k h none_before)
  later n last h (exhausted none_at) = exhausted (missed n last h none_at)
  later n last h (stopped k a b c d none_before) =
      stopped k (omega arith) b c d (missed n k h none_before)

  search_nonce-Searched :
      (left n last : ℕ) → n + left ≡ last → Searched stops P n last (search_nonce stops hit left n)
  unfolding search_nonce
  search_nonce-Searched zero n last e = exhausted (λ m a b. absurd (omega arith))
  search_nonce-Searched (suc left) n last e = elim (Bool-cases (n % 1024 == 0 && stops n)) [
    | inl stop ↦ rw stop (
        stopped n (omega arith) (omega arith) (ground arith) (ground arith)
          (λ m a b. absurd (omega arith)))
    | inr go ↦ elim (Bool-cases (hit n)) [
      | inl yes_hit ↦
          rw (go, yes_hit)
            (hit_at n (omega arith) (omega arith) ((iff n).0 yes_hit)
              (λ m a b. absurd (omega arith)))
      | inr no_hit ↦
          rw (go, no_hit)
            (later n last no_hit (search_nonce-Searched left (n + 1) last (omega arith)))
    ]
  ]

-- The hash of the prefix and a nonce begins with the target's words.
abbrev pub IsAnswer : Str → Bytes → ℕ → Type 0
IsAnswer prefix target n = take 4 (hash_state (prefix ++ decimal_digits n)) ≡ lanes target

hits_iff :
    (prefix : Str) (target : Bytes) (n : ℕ)
    → (hits (lanes target) (absorb_full (length prefix) zero_state prefix) n ≡ true)
      ↔ IsAnswer prefix target n
unfolding hits
hits_iff prefix target n =
    rw (← nonce_state-hash_state prefix (decimal_digits n) (length-decimal_digits n))
      (str_eq_iff (take 4 (nonce_state _ _ (decimal_digits n))) (lanes target))

solve_pow-eq :
    (stops : ℕ → Bool) (challenge_hex salt : Str) (expire_at difficulty : ℤ) (target : Bytes)
    → length challenge_hex ≡ 64
    → decode_hex challenge_hex ≡ some target
    → solve_pow stops challenge_hex salt expire_at difficulty
      ≡ search_nonce stops
          (hits (lanes target) (
            absorb_full
              (length (build_prefix salt expire_at))
              zero_state
              (build_prefix salt expire_at)))
          (nonce_count difficulty)
          0
unfolding solve_pow
solve_pow-eq stops challenge_hex salt expire_at difficulty target h k =
    rw (k, (==_iff (length challenge_hex) 64).1 h)

-- For a well-formed challenge the solver answers with the least nonce below the difficulty for which
-- the hash of prefix and nonce is the target, it reports that there is none, or the context was done at
-- a nonce divisible by 1024 before any answer was met.
pub solve_pow-Searched :
    (stops : ℕ → Bool) (challenge_hex salt : Str) (expire_at difficulty : ℤ) (target : Bytes)
    → length challenge_hex ≡ 64
    → decode_hex challenge_hex ≡ some target
    → Searched stops
        (IsAnswer (build_prefix salt expire_at) target)
        0
        (nonce_count difficulty)
        (solve_pow stops challenge_hex salt expire_at difficulty)
solve_pow-Searched stops challenge_hex salt expire_at difficulty target h k =
    subst (λ s. Searched stops P 0 (nonce_count difficulty) s) (sym answer)
      (search_nonce-Searched stops hit P (hits_iff prefix target) (nonce_count difficulty) 0 _
        (omega arith))
  where
    prefix : Str
    prefix = build_prefix salt expire_at

    P : ℕ → Type 0
    P = IsAnswer prefix target

    hit : ℕ → Bool
    hit = hits (lanes target) (absorb_full (length prefix) zero_state prefix)

    answer :
        solve_pow stops challenge_hex salt expire_at difficulty
        ≡ search_nonce stops hit (nonce_count difficulty) 0
    answer = solve_pow-eq stops challenge_hex salt expire_at difficulty target h k
