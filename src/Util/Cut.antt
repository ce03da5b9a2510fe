-- ===== src/Util/Cut.antt =====
-- A text that is cut is a prefix within the limit, and it ends where a rune starts.
use generalcompute2api.Prelude.{
  ℕ, zero, suc, ◌≤◌, ◌<◌, ◌≡◌, refl, ap, sym, Bool, true, false, [], ◌∷◌, ◌++◌, arith, leb, length,
  take, drop, length-take, Bool-cases, inl, inr, leb→le,
}
use mathlib.Core.List.{append-nil}
use generalcompute2api.Prelude.Text.{Str}
use generalcompute2api.Util.{back_to_rune_start, starts_rune, truncate_utf8_bytes}

take-append-drop : (n : ℕ) (s : Str) → take n s ++ drop n s ≡ s
take-append-drop zero s = refl
take-append-drop (suc n) [] = refl
take-append-drop (suc n) (x ∷ s) = ap (◌∷◌ x) (take-append-drop n s)

back_to_rune_start-le : (raw : Str) (cut : ℕ) → back_to_rune_start raw cut ≤ cut
unfolding back_to_rune_start
back_to_rune_start-le raw zero = omega arith
back_to_rune_start-le raw (suc cut) = ground (arith, back_to_rune_start-le raw cut)

back_to_rune_start-starts :
    (raw : Str) (cut : ℕ)
    → 0 < back_to_rune_start raw cut
    → starts_rune (drop (back_to_rune_start raw cut) raw) ≡ true
unfolding back_to_rune_start
back_to_rune_start-starts raw zero h = absurd (omega arith)
back_to_rune_start-starts raw (suc cut) h = elim (Bool-cases (starts_rune (drop (suc cut) raw))) [
  | inl here ↦ rw here here
  | inr not_here ↦ rw not_here (back_to_rune_start-starts raw cut (rw not_here at h))
]

-- A text cut to a limit: a prefix within it, the whole text unless it says that it was cut, and what is
-- left begins with the first byte of a rune, unless nothing was kept.
pub record Cuts (text : Str) (limit : ℕ) (r : Str × Bool) : Type 0 where
  pub rest : Str
  pub splits : text ≡ r.0 ++ rest
  pub within : length r.0 ≤ limit
  pub whole : r.1 ≡ false → rest ≡ []
  pub at_start : 0 < length r.0 → starts_rune rest ≡ true

cut-Cuts :
    (text : Str) (limit cut : ℕ)
    → cut ≤ limit
    → (0 < cut → starts_rune (drop cut text) ≡ true)
    → Cuts text limit (take cut text, true)
cut-Cuts text limit cut h k = record {
  rest = drop cut text;
  splits = sym (take-append-drop cut text);
  within = omega (arith, length-take cut text);
  whole = λ e. cc;
  at_start = λ p. k (omega (arith, length-take cut text));
}

-- Cutting to a number of bytes gives a prefix within the limit. It is the whole text unless it is
-- reported as cut, and what is left begins with the first byte of a rune unless nothing was kept.
pub truncate_utf8_bytes-Cuts :
    (text : Str) (limit : ℕ) → Cuts text limit (truncate_utf8_bytes text limit)
unfolding truncate_utf8_bytes
truncate_utf8_bytes-Cuts text limit = elim (Bool-cases (leb (length text) limit)) [
  | inl fits ↦ rw fits (record {
    rest = [];
    splits = sym (append-nil text);
    within = leb→le _ _ fits;
    whole = λ e. refl;
    at_start = λ p. refl;
  })
  | inr long ↦ rw long (
      cut-Cuts text limit (back_to_rune_start text limit) (back_to_rune_start-le text limit)
        (back_to_rune_start-starts text limit))
]
