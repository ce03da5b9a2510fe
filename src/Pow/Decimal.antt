-- ===== src/Pow/Decimal.antt =====
-- The decimal digits that `SolvePow` writes for each nonce (pow/deepseek_pow.go), and
-- `strconv.FormatInt`.
use generalcompute2api.Prelude.{
  ℕ, zero, suc, ◌+◌, ◌-◌, ◌*◌, ◌/◌, ◌%◌, ◌^◌, ◌≤◌, ◌<◌, ◌≡◌, [], ◌∷◌, some, arith, if◌then◌else◌,
  leb, ◌==◌, length, Bool-cases, inl, inr, ap, ◌∙◌, true, ◌&&◌,
}
use native.Mathlib.Nat.{pow-suc}
use generalcompute2api.Prelude.Int.{ℤ, pos, negsuc}
use generalcompute2api.Prelude.Text.{Str, decimal}

-- `for v > 0`, from the last digit on; the fuel is the 20 bytes of the buffer.
unfoldable pub digits_loop : ℕ → ℕ → Str → Str
digits_loop zero v out = out
digits_loop (suc fuel) v out =
    let rest = digits_loop fuel (v / 10) ((b'0' + v % 10) ∷ out) in if v == 0 then out else rest

unfoldable pub decimal_digits : ℕ → Str
decimal_digits v = if v == 0 then b'0' ∷ [] else digits_loop 20 v []

unfoldable pub format_int : ℤ → Str
unfolding decimal_digits
format_int (pos n) = decimal_digits n
format_int (negsuc n) = b'-' ∷ decimal_digits (n + 1)

length-digits_loop : (fuel v : ℕ) (out : Str) → length (digits_loop fuel v out) ≤ fuel + length out
unfolding digits_loop
length-digits_loop zero v out = omega arith
length-digits_loop (suc fuel) v out =
    ground (arith, length-digits_loop fuel (v / 10) ((b'0' + v % 10) ∷ out))

-- The digits fit into the buffer.
pub length-decimal_digits : (v : ℕ) → length (decimal_digits v) ≤ 20
unfolding decimal_digits
length-decimal_digits v = ground (arith, length-digits_loop 20 v [])

decimal_step : (v : ℕ) (out : Str) → decimal (v / 10) ((b'0' + v % 10) ∷ out) ≡ decimal v out
unfolding decimal
decimal_step v out = rw (digit, value)
  where
    digit : (leb 48 (b'0' + v % 10) && leb (b'0' + v % 10) 57) ≡ true
    digit = ground arith

    value : v / 10 * 10 + (b'0' + v % 10 - 48) ≡ v
    value = omega arith

decimal-digits_loop :
    (fuel v : ℕ) (out : Str) → v < 10 ^ fuel → decimal 0 (digits_loop fuel v out) ≡ decimal v out
unfolding digits_loop
decimal-digits_loop zero v out h = ap (λ n. decimal n out) (omega arith)
decimal-digits_loop (suc fuel) v out h = elim (Bool-cases (v == 0)) [
  | inl done ↦ rw done (ap (λ n. decimal n out) (ground arith))
  | inr more ↦ rw more (
      decimal-digits_loop fuel (v / 10) ((b'0' + v % 10) ∷ out) (omega (arith, pow-suc 10 fuel))
      ∙ decimal_step v out)
]

-- Reading the digits back gives the nonce, for every nonce below 10 ^ 20.
pub decimal-decimal_digits : (v : ℕ) → v < 10 ^ 20 → decimal 0 (decimal_digits v) ≡ some v
unfolding decimal_digits decimal
decimal-decimal_digits v h = elim (Bool-cases (v == 0)) [
  | inl z ↦ rw z (ap some (ground arith))
  | inr more ↦ rw more (decimal-digits_loop 20 v [] h)
]
