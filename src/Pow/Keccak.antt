-- ===== src/Pow/Keccak.antt =====
-- pow/deepseek_hash.go: 64-bit words, and Keccak-f[1600] without its round 0. A word is a number below
-- 2 ^ 64; the state is a list of 25 words.
use Prim.Native.Nat.{bit_and, bit_or, bit_xor}
use generalcompute2api.Prelude.{ℕ, ◌-◌, ◌*◌, ◌/◌, ◌%◌, ◌^◌, List, [], ◌∷◌}

abbrev pub KeccakState : Type 0
KeccakState = List ℕ

abbrev pub word : ℕ
word = 2 ^ 64

infixl 60 ◌⊕◌
abbrev ◌⊕◌ : ℕ → ℕ → ℕ
a ⊕ b = bit_xor a b

-- `v<<k | v>>(64-k)`.
abbrev pub rotl64 : ℕ → ℕ → ℕ
rotl64 v k = bit_or ((v * 2 ^ k) % word) (v / 2 ^ (64 - k))

-- `x ^ (^y & z)`.
abbrev chi : ℕ → ℕ → ℕ → ℕ
chi x y z = x ⊕ bit_and (word - 1 - y) z

abbrev theta_column : ℕ → ℕ → ℕ → ℕ → ℕ → ℕ
theta_column a b c d e = a ⊕ b ⊕ c ⊕ d ⊕ e

unfoldable pub theta : KeccakState → KeccakState
theta
      (a0 ∷ a1 ∷ a2 ∷ a3 ∷ a4 ∷ a5 ∷ a6 ∷ a7 ∷ a8 ∷ a9 ∷ a10 ∷ a11 ∷ a12 ∷ a13 ∷ a14 ∷ a15 ∷ a16
        ∷ a17 ∷ a18 ∷ a19 ∷ a20 ∷ a21 ∷ a22 ∷ a23 ∷ a24 ∷ []) =
    let c0 : ℕ = theta_column a0 a5 a10 a15 a20 in
    let c1 : ℕ = theta_column a1 a6 a11 a16 a21 in
    let c2 : ℕ = theta_column a2 a7 a12 a17 a22 in
    let c3 : ℕ = theta_column a3 a8 a13 a18 a23 in
    let c4 : ℕ = theta_column a4 a9 a14 a19 a24 in
    let d0 : ℕ = c4 ⊕ rotl64 c1 1 in
    let d1 : ℕ = c0 ⊕ rotl64 c2 1 in
    let d2 : ℕ = c1 ⊕ rotl64 c3 1 in
    let d3 : ℕ = c2 ⊕ rotl64 c4 1 in
    let d4 : ℕ = c3 ⊕ rotl64 c0 1 in
    (a0 ⊕ d0)
    ∷ (a1 ⊕ d1)
    ∷ (a2 ⊕ d2)
    ∷ (a3 ⊕ d3)
    ∷ (a4 ⊕ d4)
    ∷ (a5 ⊕ d0)
    ∷ (a6 ⊕ d1)
    ∷ (a7 ⊕ d2)
    ∷ (a8 ⊕ d3)
    ∷ (a9 ⊕ d4)
    ∷ (a10 ⊕ d0)
    ∷ (a11 ⊕ d1)
    ∷ (a12 ⊕ d2)
    ∷ (a13 ⊕ d3)
    ∷ (a14 ⊕ d4)
    ∷ (a15 ⊕ d0)
    ∷ (a16 ⊕ d1)
    ∷ (a17 ⊕ d2)
    ∷ (a18 ⊕ d3)
    ∷ (a19 ⊕ d4)
    ∷ (a20 ⊕ d0)
    ∷ (a21 ⊕ d1)
    ∷ (a22 ⊕ d2)
    ∷ (a23 ⊕ d3)
    ∷ (a24 ⊕ d4)
    ∷ []
theta s = s

-- The rotated words `b0` to `b24`.
unfoldable pub rho_pi : KeccakState → KeccakState
rho_pi
      (a0 ∷ a1 ∷ a2 ∷ a3 ∷ a4 ∷ a5 ∷ a6 ∷ a7 ∷ a8 ∷ a9 ∷ a10 ∷ a11 ∷ a12 ∷ a13 ∷ a14 ∷ a15 ∷ a16
        ∷ a17 ∷ a18 ∷ a19 ∷ a20 ∷ a21 ∷ a22 ∷ a23 ∷ a24 ∷ []) =
    a0
    ∷ rotl64 a6 44
    ∷ rotl64 a12 43
    ∷ rotl64 a18 21
    ∷ rotl64 a24 14
    ∷ rotl64 a3 28
    ∷ rotl64 a9 20
    ∷ rotl64 a10 3
    ∷ rotl64 a16 45
    ∷ rotl64 a22 61
    ∷ rotl64 a1 1
    ∷ rotl64 a7 6
    ∷ rotl64 a13 25
    ∷ rotl64 a19 8
    ∷ rotl64 a20 18
    ∷ rotl64 a4 27
    ∷ rotl64 a5 36
    ∷ rotl64 a11 10
    ∷ rotl64 a17 15
    ∷ rotl64 a23 56
    ∷ rotl64 a2 62
    ∷ rotl64 a8 55
    ∷ rotl64 a14 39
    ∷ rotl64 a15 41
    ∷ rotl64 a21 2
    ∷ []
rho_pi s = s

-- The last step of a round; `k` is the round's constant.
unfoldable pub chi_iota : ℕ → KeccakState → KeccakState
chi_iota k
      (b0 ∷ b1 ∷ b2 ∷ b3 ∷ b4 ∷ b5 ∷ b6 ∷ b7 ∷ b8 ∷ b9 ∷ b10 ∷ b11 ∷ b12 ∷ b13 ∷ b14 ∷ b15 ∷ b16
        ∷ b17 ∷ b18 ∷ b19 ∷ b20 ∷ b21 ∷ b22 ∷ b23 ∷ b24 ∷ []) =
    (chi b0 b1 b2 ⊕ k)
    ∷ chi b1 b2 b3
    ∷ chi b2 b3 b4
    ∷ chi b3 b4 b0
    ∷ chi b4 b0 b1
    ∷ chi b5 b6 b7
    ∷ chi b6 b7 b8
    ∷ chi b7 b8 b9
    ∷ chi b8 b9 b5
    ∷ chi b9 b5 b6
    ∷ chi b10 b11 b12
    ∷ chi b11 b12 b13
    ∷ chi b12 b13 b14
    ∷ chi b13 b14 b10
    ∷ chi b14 b10 b11
    ∷ chi b15 b16 b17
    ∷ chi b16 b17 b18
    ∷ chi b17 b18 b19
    ∷ chi b18 b19 b15
    ∷ chi b19 b15 b16
    ∷ chi b20 b21 b22
    ∷ chi b21 b22 b23
    ∷ chi b22 b23 b24
    ∷ chi b23 b24 b20
    ∷ chi b24 b20 b21
    ∷ []
chi_iota k s = s

-- `rc[1]` to `rc[23]`: the loop starts at round 1.
abbrev pub round_constants : List ℕ
round_constants =
    0x0000000000008082 ∷ 0x800000000000808a ∷ 0x8000000080008000 ∷ 0x000000000000808b
    ∷ 0x0000000080000001 ∷ 0x8000000080008081 ∷ 0x8000000000008009 ∷ 0x000000000000008a
    ∷ 0x0000000000000088 ∷ 0x0000000080008009 ∷ 0x000000008000000a ∷ 0x000000008000808b
    ∷ 0x800000000000008b ∷ 0x8000000000008089 ∷ 0x8000000000008003 ∷ 0x8000000000008002
    ∷ 0x8000000000000080 ∷ 0x000000000000800a ∷ 0x800000008000000a ∷ 0x8000000080008081
    ∷ 0x8000000000008080 ∷ 0x0000000080000001 ∷ 0x8000000080008008 ∷ []

unfoldable pub rounds : List ℕ → KeccakState → KeccakState
rounds [] s = s
rounds (k ∷ ks) s = rounds ks (chi_iota k (rho_pi (theta s)))

unfoldable pub keccak_f23 : KeccakState → KeccakState
unfolding rounds theta rho_pi chi_iota
keccak_f23 s = rounds round_constants s
