-- ===== src/Pow/Solve.antt =====
-- `SolvePow` in pow/deepseek_pow.go: the prefix is absorbed once, and each nonce finishes a copy of
-- that state.
use generalcompute2api.Prelude.{
  ℕ, zero, suc, ◌+◌, ◌-◌, ◌*◌, ◌%◌, Bool, not, ◌&&◌, List, [], ◌∷◌, ◌++◌, Option, none, some,
  if◌then◌else◌, leb, ltb, ◌==◌, length, take, drop,
}
use generalcompute2api.Prelude.Int.{ℤ, pos, negsuc}
use generalcompute2api.Prelude.Text.{Str, str_eq}
use generalcompute2api.Pow.Decimal.{decimal_digits, format_int}
use generalcompute2api.Pow.Hash.{Bytes, absorb_block, absorb_full, lanes, pad, rate, zero_state}
use generalcompute2api.Pow.Keccak.{KeccakState}

pub data SolveError : Type 0 where
  bad_length bad_hex cancelled no_solution : SolveError

pub data Solution : Type 0 where
  found : ℕ → Solution
  failed : SolveError → Solution

unfoldable pub hex_digit : ℕ → Option ℕ
hex_digit c =
    if leb b'0' c && leb c b'9'
    then some (c - 48)
    else if leb b'a' c && leb c b'f'
    then some (c - 87)
    else if leb b'A' c && leb c b'F'
    then some (c - 55)
    else none

abbrev hex_pair : Option ℕ → Option ℕ → Option Bytes → Option Bytes
hex_pair (some a) (some b) (some rest) = some ((a * 16 + b) ∷ rest)
hex_pair _ _ _ = none

-- `hex.DecodeString`.
unfoldable pub decode_hex : Str → Option Bytes
unfolding hex_digit
decode_hex [] = some []
decode_hex (a ∷ []) = none
decode_hex (a ∷ b ∷ s) = hex_pair (hex_digit a) (hex_digit b) (decode_hex s)

unfoldable pub build_prefix : Str → ℤ → Str
unfolding format_int
build_prefix salt expire_at = salt ++ (b'_' ∷ (format_int expire_at ++ (b'_' ∷ [])))

-- The state for one nonce, from the state of the prefix and the bytes left of it.
unfoldable pub nonce_state : KeccakState → Bytes → Bytes → KeccakState
unfolding absorb_block pad
nonce_state base tail num =
    if ltb (length tail + length num) rate
    then absorb_block base (pad (tail ++ num))
    else absorb_block (absorb_block base (tail ++ take (rate - length tail) num))
        (pad (drop (rate - length tail) num))

-- `s[0] == t0 && … && s[3] == t3`.
unfoldable pub hits : List ℕ → KeccakState × Bytes → ℕ → Bool
hits target (base, tail) n = str_eq (take 4 (nonce_state base tail (decimal_digits n))) target

-- The loop from nonce `n` over the given number of nonces. `stops n` is `ctx.Err() != nil` as the loop
-- would read it at nonce `n`; it reads it at every 1024th.
unfoldable pub search_nonce : (ℕ → Bool) → (ℕ → Bool) → ℕ → ℕ → Solution
search_nonce stops hit zero n = failed no_solution
search_nonce stops hit (suc left) n =
    let next = search_nonce stops hit left (n + 1) in
    if n % 1024 == 0 && stops n then failed cancelled else if hit n then found n else next

abbrev pub nonce_count : ℤ → ℕ
nonce_count (pos n) = n
nonce_count (negsuc n) = 0

abbrev pub search_target : (ℕ → Bool) → Str → ℤ → Option Bytes → Solution
search_target stops prefix difficulty none = failed bad_hex
search_target stops prefix difficulty (some target) =
    search_nonce stops (hits (lanes target) (absorb_full (length prefix) zero_state prefix))
      (nonce_count difficulty) 0

unfoldable pub solve_pow : (ℕ → Bool) → Str → Str → ℤ → ℤ → Solution
solve_pow stops challenge_hex salt expire_at difficulty =
    if not (length challenge_hex == 64)
    then failed bad_length
    else search_target stops (build_prefix salt expire_at) difficulty (decode_hex challenge_hex)

-- `SolveAndBuildHeader` up to the header: a difficulty of 0 is 144000.
abbrev pub difficulty_or_default : ℤ → ℤ
difficulty_or_default (pos zero) = pos 144000
difficulty_or_default d = d
