-- ===== src/Pow/Absorb.antt =====
-- The sponge over a text in two parts: absorbing the first part and later the rest, as `SolvePow` does,
-- is absorbing the whole text.
use generalcompute2api.Prelude.{
  leb_false→lt, le→leb, lt→leb_false, leb→le, ℕ, zero, suc, ◌+◌, ◌-◌, ◌≤◌, ◌<◌, ◌≡◌, refl, ap, sym,
  ◌∙◌, List, [], ◌∷◌, ◌++◌, arith, leb, ltb, leb→le, le→leb, lt→leb_false, leb_false→lt, ltb→lt,
  ltb_false→le, length, take, drop, length-append, length-drop, Bool-cases, inl, inr,
}
use native.Mathlib.Nat.{le_refl}
use generalcompute2api.Pow.Hash.{
  Bytes, absorb_block, absorb_full, finish, hash_state, rate, zero_state,
}
use generalcompute2api.Pow.Keccak.{KeccakState}
use generalcompute2api.Pow.Solve.{nonce_state}

take-append_le :
    {A : Type 0} (n : ℕ) (xs ys : List A) → n ≤ length xs → take n (xs ++ ys) ≡ take n xs
take-append_le zero xs ys h = refl
take-append_le (suc n) [] ys h = elim h [ ]
take-append_le (suc n) (x ∷ xs) ys h = ap (◌∷◌ x) (take-append_le n xs ys (omega arith))

drop-append_le :
    {A : Type 0} (n : ℕ) (xs ys : List A) → n ≤ length xs → drop n (xs ++ ys) ≡ drop n xs ++ ys
drop-append_le zero xs ys h = refl
drop-append_le (suc n) [] ys h = elim h [ ]
drop-append_le (suc n) (x ∷ xs) ys h = drop-append_le n xs ys (omega arith)

take-append_ge :
    {A : Type 0} (n : ℕ) (xs ys : List A)
    → length xs ≤ n
    → take n (xs ++ ys) ≡ xs ++ take (n - length xs) ys
take-append_ge n [] ys h = ap (λ k. take k ys) (omega arith)
take-append_ge zero (x ∷ xs) ys h = elim h [ ]
take-append_ge (suc n) (x ∷ xs) ys h =
    ap (◌∷◌ x) (take-append_ge n xs ys (omega arith) ∙ ap (λ k. xs ++ take k ys) (omega arith))

drop-append_ge :
    {A : Type 0} (n : ℕ) (xs ys : List A)
    → length xs ≤ n
    → drop n (xs ++ ys) ≡ drop (n - length xs) ys
drop-append_ge n [] ys h = ap (λ k. drop k ys) (omega arith)
drop-append_ge zero (x ∷ xs) ys h = elim h [ ]
drop-append_ge (suc n) (x ∷ xs) ys h =
    drop-append_ge n xs ys (omega arith) ∙ ap (λ k. drop k ys) (omega arith)

-- Less than a block is left, whatever the fuel.
absorb_full_short :
    (fuel : ℕ) (s : KeccakState) (d : Bytes) → length d < rate → absorb_full fuel s d ≡ (s, d)
unfolding absorb_full
absorb_full_short zero s d h = refl
absorb_full_short (suc fuel) s d h = rw (lt→leb_false rate (length d) h)

absorb_full_step :
    (fuel : ℕ) (s : KeccakState) (d : Bytes)
    → rate ≤ length d
    → absorb_full (suc fuel) s d ≡ absorb_full fuel (absorb_block s (take rate d)) (drop rate d)
unfolding absorb_full
absorb_full_step fuel s d h = rw (le→leb rate (length d) h)

length-drop_le : (fuel : ℕ) (d : Bytes) → length d ≤ suc fuel → length (drop rate d) ≤ fuel
length-drop_le fuel d h = omega (arith, length-drop rate d)

-- With fuel for the whole text, absorbing stops with less than a block left.
pub length-absorb_full :
    (fuel : ℕ) (s : KeccakState) (d : Bytes)
    → length d ≤ fuel
    → length (absorb_full fuel s d).1 < rate
length-absorb_full zero s d h = rw (absorb_full_short zero s d (omega arith)) (omega arith)
length-absorb_full (suc fuel) s d h = elim (Bool-cases (leb rate (length d))) [
  | inl more ↦
      rw (absorb_full_step fuel s d (leb→le _ _ more))
        (length-absorb_full fuel _ (drop rate d) (length-drop_le fuel d h))
  | inr done ↦ rw (absorb_full_short (suc fuel) s d (leb_false→lt _ _ done)) (leb_false→lt _ _ done)
]

-- The fuel that a text gets does not matter once it is enough.
absorb_full_fuel :
    (f g : ℕ) (s : KeccakState) (d : Bytes)
    → length d ≤ f
    → length d ≤ g
    → absorb_full f s d ≡ absorb_full g s d
absorb_full_fuel (suc f) (suc g) s d h k = elim (Bool-cases (leb rate (length d))) [
  | inl more ↦
      absorb_full_step f s d (leb→le _ _ more)
      ∙ absorb_full_fuel f g _ (drop rate d) (length-drop_le f d h) (length-drop_le g d k)
      ∙ sym (absorb_full_step g s d (leb→le _ _ more))
  | inr done ↦
      absorb_full_short (suc f) s d (leb_false→lt _ _ done)
      ∙ sym (absorb_full_short (suc g) s d (leb_false→lt _ _ done))
]
absorb_full_fuel f g s d h k =
    absorb_full_short f s d (omega arith) ∙ sym (absorb_full_short g s d (omega arith))

absorb_full-append_short :
    (f g h : ℕ) (s : KeccakState) (p d : Bytes)
    → length p < rate
    → length (p ++ d) ≤ g
    → length ((absorb_full f s p).1 ++ d) ≤ h
    → absorb_full g s (p ++ d) ≡ absorb_full h (absorb_full f s p).0 ((absorb_full f s p).1 ++ d)
absorb_full-append_short f g h s p d a b c =
    let stop = absorb_full_short f s p a in
    rw stop (absorb_full_fuel g h s (p ++ d) b (rw stop at c))

-- Absorbing a text goes on from where absorbing its first part stopped.
absorb_full-append :
    (f g h : ℕ) (s : KeccakState) (p d : Bytes)
    → length p ≤ f
    → length (p ++ d) ≤ g
    → length ((absorb_full f s p).1 ++ d) ≤ h
    → absorb_full g s (p ++ d) ≡ absorb_full h (absorb_full f s p).0 ((absorb_full f s p).1 ++ d)
absorb_full-append (suc f) (suc g) h s p d a b c = elim (Bool-cases (leb rate (length p))) [
  | inl more ↦
      let long : rate ≤ length p = leb→le _ _ more in
      let step = absorb_full_step f s p long in
      absorb_full_step g s (p ++ d) (omega (arith, length-append p d))
      ∙ rw (take-append_le rate p d long, drop-append_le rate p d long, step)
          (absorb_full-append f g h _ (drop rate p) d (length-drop_le f p a)
            (omega (arith, length-append p d, length-append (drop rate p) d, length-drop rate p))
            (rw step at c))
  | inr done ↦ absorb_full-append_short (suc f) (suc g) h s p d (leb_false→lt _ _ done) b c
]
absorb_full-append zero g h s p d a b c = absorb_full-append_short zero g h s p d (omega arith) b c
absorb_full-append (suc f) zero h s p d a b c =
    absorb_full-append_short (suc f) zero h s p d (omega (arith, length-append p d)) b c

-- Where the nonce fills the block, one block is absorbed and the rest of the nonce is left.
absorb_full_two :
    (base : KeccakState) (tail num : Bytes)
    → length num ≤ 20
    → length tail < rate
    → rate ≤ length tail + length num
    → absorb_full (length (tail ++ num)) base (tail ++ num)
      ≡ (absorb_block base (tail ++ take (rate - length tail) num), drop (rate - length tail) num)
absorb_full_two base tail num h k full =
    ap (λ f. absorb_full f base (tail ++ num)) fuel
    ∙ absorb_full_step _ base (tail ++ num) (omega (arith, total))
    ∙ rw (take-append_ge rate tail num (omega arith), drop-append_ge rate tail num (omega arith))
        (absorb_full_short _ _ _ (omega (arith, length-drop (rate - length tail) num)))
  where
    total : length (tail ++ num) ≡ length tail + length num
    total = length-append tail num

    fuel : length (tail ++ num) ≡ suc (length (tail ++ num) - 1)
    fuel = omega (arith, total)

-- A nonce adds at most one block.
finish-nonce_state :
    (base : KeccakState) (tail num : Bytes)
    → length num ≤ 20
    → length tail < rate
    → nonce_state base tail num ≡ finish (absorb_full (length (tail ++ num)) base (tail ++ num))
unfolding nonce_state
finish-nonce_state base tail num h k = elim (Bool-cases (ltb (length tail + length num) rate)) [
  | inl one ↦
      rw (one, absorb_full_short _ base (tail ++ num) (omega (arith, total, ltb→lt _ _ one)))
  | inr two ↦ rw two (sym (ap finish (absorb_full_two base tail num h k (ltb_false→le _ _ two))))
]
  where
    total : length (tail ++ num) ≡ length tail + length num
    total = length-append tail num

-- What `SolvePow` computes for a nonce is the hash of the prefix followed by the nonce's digits.
pub nonce_state-hash_state :
    (prefix num : Bytes)
    → length num ≤ 20
    → nonce_state
        (absorb_full (length prefix) zero_state prefix).0
        (absorb_full (length prefix) zero_state prefix).1
        num
      ≡ hash_state (prefix ++ num)
unfolding hash_state
nonce_state-hash_state prefix num h =
    finish-nonce_state (absorb_full (length prefix) zero_state prefix).0
      (absorb_full (length prefix) zero_state prefix).1 num h
      (length-absorb_full (length prefix) zero_state prefix (le_refl _))
    ∙ ap finish (
        sym (
          absorb_full-append (length prefix) (length (prefix ++ num)) _ zero_state prefix num
            (le_refl _) (le_refl _) (le_refl _)))
