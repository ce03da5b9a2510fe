-- ===== src/Pow/Hash.antt =====
-- `DeepSeekHashV1` in pow/deepseek_hash.go: the sponge around the permutation, over lists of bytes.
use Prim.Native.Nat.{bit_or, bit_xor}
use generalcompute2api.Prelude.{
  ℕ, zero, suc, ◌+◌, ◌-◌, ◌*◌, ◌/◌, ◌%◌, ◌^◌, List, [], ◌∷◌, ◌++◌, if◌then◌else◌, leb, length, take,
  drop, replicate,
}
use generalcompute2api.Pow.Keccak.{KeccakState, keccak_f23}

abbrev pub Bytes : Type 0
Bytes = List ℕ

abbrev pub rate : ℕ
rate = 136

-- `binary.LittleEndian.Uint64` of each group of eight bytes.
unfoldable pub lanes : Bytes → List ℕ
lanes (b0 ∷ b1 ∷ b2 ∷ b3 ∷ b4 ∷ b5 ∷ b6 ∷ b7 ∷ rest) =
    (b0
      + 2 ^ 8 * b1
      + 2 ^ 16 * b2
      + 2 ^ 24 * b3
      + 2 ^ 32 * b4
      + 2 ^ 40 * b5
      + 2 ^ 48 * b6
      + 2 ^ 56 * b7)
    ∷ lanes rest
lanes _ = []

-- `s[i] ^= …` for the words of a block.
unfoldable pub xor_lanes : KeccakState → List ℕ → KeccakState
xor_lanes [] ys = []
xor_lanes (x ∷ xs) [] = x ∷ xs
xor_lanes (x ∷ xs) (y ∷ ys) = bit_xor x y ∷ xor_lanes xs ys

unfoldable pub absorb_block : KeccakState → Bytes → KeccakState
unfolding keccak_f23 lanes xor_lanes
absorb_block s block = keccak_f23 (xor_lanes s (lanes block))

-- `for off+rate <= len(data)`: the state and the bytes that are left. The fuel is the data's length.
unfoldable pub absorb_full : ℕ → KeccakState → Bytes → KeccakState × Bytes
absorb_full zero s d = (s, d)
absorb_full (suc fuel) s d =
    let rest = absorb_full fuel (absorb_block s (take rate d)) (drop rate d) in
    if leb rate (length d) then rest else (s, d)

unfoldable pub or_last : Bytes → Bytes
or_last [] = []
or_last (x ∷ []) = bit_or x 0x80 ∷ []
or_last (x ∷ y ∷ rest) = x ∷ or_last (y ∷ rest)

-- The last block: the bytes left, 0x06, zeros, and 0x80 in the last byte.
unfoldable pub pad : Bytes → Bytes
unfolding or_last
pad tail = or_last (tail ++ (0x06 ∷ replicate (rate - 1 - length tail) 0))

abbrev pub zero_state : KeccakState
zero_state = replicate 25 0

abbrev pub finish : KeccakState × Bytes → KeccakState
finish (s, tail) = absorb_block s (pad tail)

-- The state whose first four words are the digest.
unfoldable pub hash_state : Bytes → KeccakState
unfolding absorb_full absorb_block pad
hash_state data_bytes = finish (absorb_full (length data_bytes) zero_state data_bytes)

-- `binary.LittleEndian.PutUint64`.
unfoldable pub put_lane : ℕ → Bytes
put_lane w =
    (w % 256)
    ∷ ((w / 2 ^ 8) % 256)
    ∷ ((w / 2 ^ 16) % 256)
    ∷ ((w / 2 ^ 24) % 256)
    ∷ ((w / 2 ^ 32) % 256)
    ∷ ((w / 2 ^ 40) % 256)
    ∷ ((w / 2 ^ 48) % 256)
    ∷ ((w / 2 ^ 56) % 256)
    ∷ []

abbrev put_lanes : List ℕ → Bytes
put_lanes [] = []
put_lanes (w ∷ ws) = put_lane w ++ put_lanes ws

unfoldable pub deepseek_hash_v1 : Bytes → Bytes
unfolding hash_state put_lane
deepseek_hash_v1 data_bytes = put_lanes (take 4 (hash_state data_bytes))
