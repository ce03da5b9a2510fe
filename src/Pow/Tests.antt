-- ===== src/Pow/Tests.antt =====
-- The test vectors of pow/deepseek_pow_test.go, and the solver's theorems at a concrete challenge.
use generalcompute2api.Prelude.{ℕ, ◌≡◌, refl, [], ◌∷◌, ◌++◌, some, arith, length, false, Bool}
use generalcompute2api.Prelude.Int.{pos}
use generalcompute2api.Prelude.Text.{Str, codes}
use generalcompute2api.Pow.Absorb.{nonce_state-hash_state}
use generalcompute2api.Pow.Decimal.{digits_loop}
use generalcompute2api.Pow.Hash.{Bytes, absorb_full, deepseek_hash_v1, hash_state, zero_state}
use generalcompute2api.Pow.Search.{IsAnswer, Searched, solve_pow-Searched}
use generalcompute2api.Pow.Solve.{build_prefix, decode_hex, nonce_count, nonce_state, solve_pow}

abbrev target : Bytes
target =
    0xd4 ∷ 0xa2 ∷ 0xea ∷ 0x58 ∷ 0xc8 ∷ 0x9e ∷ 0x40 ∷ 0x88 ∷ 0x7c ∷ 0x93 ∷ 0x34 ∷ 0x84 ∷ 0x86 ∷ 0x83
    ∷ 0x80 ∷ 0xc6 ∷ 0xf8 ∷ 0x03 ∷ 0xea ∷ 0xa8 ∷ 0xdc ∷ 0x53 ∷ 0xa3 ∷ 0xb9 ∷ 0xdf ∷ 0x8e ∷ 0x43
    ∷ 0x1b ∷ 0x92 ∷ 0x1a ∷ 0x4f ∷ 0x09 ∷ []

abbrev challenge : Str
challenge = codes "d4a2ea58c89e40887c933484868380c6f803eaa8dc53a3b9df8e431b921a4f09"

hash_vectors :
    (deepseek_hash_v1 []
      ≡ 0xe5 ∷ 0x94 ∷ 0x80 ∷ 0x8b ∷ 0xc5 ∷ 0xb7 ∷ 0x15 ∷ 0x1a ∷ 0xc1 ∷ 0x60 ∷ 0xc6 ∷ 0xd3 ∷ 0x9a
        ∷ 0x02 ∷ 0xe0 ∷ 0xa8 ∷ 0xe2 ∷ 0x61 ∷ 0xed ∷ 0x58 ∷ 0x85 ∷ 0x78 ∷ 0x40 ∷ 0x30 ∷ 0x99 ∷ 0xe3
        ∷ 0x56 ∷ 0x1d ∷ 0xc4 ∷ 0x0c ∷ 0x26 ∷ 0xb3 ∷ [])
    × (deepseek_hash_v1 (codes "testsalt_1700000000_42") ≡ target)
unfolding deepseek_hash_v1
hash_vectors = (refl, refl)

prefix_text : build_prefix (codes "testsalt") (pos 1700000000) ≡ codes "testsalt_1700000000_"
unfolding build_prefix digits_loop
prefix_text = refl

decoded : decode_hex challenge ≡ some target
unfolding decode_hex
decoded = refl

never : ℕ → Bool
never _ = false

solve_pow-Searched_example :
    Searched never
      (IsAnswer (build_prefix (codes "testsalt") (pos 1700000000)) target)
      0
      (nonce_count (pos 1000))
      (solve_pow never challenge (codes "testsalt") (pos 1700000000) (pos 1000))
solve_pow-Searched_example =
    solve_pow-Searched never challenge (codes "testsalt") (pos 1700000000) (pos 1000) target refl
      decoded

nonce_state-hash_state_example :
    nonce_state
      (absorb_full (length (codes "salt_1_")) zero_state (codes "salt_1_")).0
      (absorb_full (length (codes "salt_1_")) zero_state (codes "salt_1_")).1
      (codes "42")
    ≡ hash_state (codes "salt_1_" ++ codes "42")
nonce_state-hash_state_example = nonce_state-hash_state (codes "salt_1_") (codes "42") (omega arith)
