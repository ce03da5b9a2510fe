-- ===== src/Sieve/Subsequences.antt =====
-- Texts that are left when parts of another are taken out, in the same order.
use generalcompute2api.Prelude.{ℕ, zero, suc, ◌≡◌, refl, ap, [], ◌∷◌, ◌++◌, take, drop}
use generalcompute2api.Prelude.Text.{Str}

pub data IsSubsequence : Str → Str → Type 0 where
  done : IsSubsequence [] []
  keep : (c : ℕ) {a b : Str} → IsSubsequence a b → IsSubsequence (c ∷ a) (c ∷ b)
  skip : (c : ℕ) {a b : Str} → IsSubsequence a b → IsSubsequence a (c ∷ b)

pub subsequence_refl : (a : Str) → IsSubsequence a a
subsequence_refl [] = done
subsequence_refl (c ∷ a) = keep c (subsequence_refl a)

pub subsequence_trans : {a b c : Str} → IsSubsequence a b → IsSubsequence b c → IsSubsequence a c
subsequence_trans h done = h
subsequence_trans h (skip x k) = skip x (subsequence_trans h k)
subsequence_trans (keep _ h) (keep x k) = keep x (subsequence_trans h k)
subsequence_trans (skip _ h) (keep x k) = skip x (subsequence_trans h k)

pub subsequence_append :
    {a b c d : Str} → IsSubsequence a b → IsSubsequence c d → IsSubsequence (a ++ c) (b ++ d)
subsequence_append done k = k
subsequence_append (keep x h) k = keep x (subsequence_append h k)
subsequence_append (skip x h) k = skip x (subsequence_append h k)

pub empty-IsSubsequence : (a : Str) → IsSubsequence [] a
empty-IsSubsequence [] = done
empty-IsSubsequence (c ∷ a) = skip c (empty-IsSubsequence a)

pub take-IsSubsequence : (n : ℕ) (a : Str) → IsSubsequence (take n a) a
take-IsSubsequence zero a = empty-IsSubsequence a
take-IsSubsequence (suc n) [] = done
take-IsSubsequence (suc n) (c ∷ a) = keep c (take-IsSubsequence n a)

pub drop-IsSubsequence : (n : ℕ) (a : Str) → IsSubsequence (drop n a) a
drop-IsSubsequence zero a = subsequence_refl a
drop-IsSubsequence (suc n) [] = done
drop-IsSubsequence (suc n) (c ∷ a) = skip c (drop-IsSubsequence n a)

pub take-drop : (n : ℕ) (a : Str) → take n a ++ drop n a ≡ a
take-drop zero a = refl
take-drop (suc n) [] = refl
take-drop (suc n) (c ∷ a) = ap (λ b. c ∷ b) (take-drop n a)

pub append_assoc : (a b c : Str) → (a ++ b) ++ c ≡ a ++ (b ++ c)
append_assoc [] b c = refl
append_assoc (x ∷ a) b c = ap (λ d. x ∷ d) (append_assoc a b c)

pub append_empty : (a : Str) → a ++ [] ≡ a
append_empty [] = refl
append_empty (x ∷ a) = ap (λ d. x ∷ d) (append_empty a)
