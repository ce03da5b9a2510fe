-- ===== src/Sieve/Trims.antt =====
-- internal/toolstream/tool_sieve_xml.go: a fence that wraps a block is taken away.
use generalcompute2api.Prelude.{
  ℕ, ◌+◌, ◌-◌, ◌≤◌, sym, subst, Bool, not, ◌&&◌, ◌||◌, [], ◌∷◌, ◌++◌, Option, none, some,
  if◌then◌else◌, length, take, drop, arith, both_branches, length-drop, reverse,
}
use mathlib.Core.List.{reverse-cons, reverse-reverse}
use generalcompute2api.Prelude.Strings.{count, last_index, trim_left_where, trim_right_where}
use generalcompute2api.Prelude.Text.{Str, codes, has_prefix, trim_space}
use generalcompute2api.Fence.{non_empty}
use generalcompute2api.Sieve.Fences.{even, is_space, trim_wrapping_json_fence}
use generalcompute2api.Sieve.Subsequences.{
  IsSubsequence, append_empty, done, drop-IsSubsequence, empty-IsSubsequence, keep, skip,
  subsequence_append, subsequence_refl, subsequence_trans, take-IsSubsequence,
}

reverse-IsSubsequence : {a b : Str} → IsSubsequence a b → IsSubsequence (reverse a) (reverse b)
reverse-IsSubsequence done = done
reverse-IsSubsequence (keep c {a} {b} h) =
    subst (λ s. IsSubsequence s (reverse (c ∷ b))) (sym (reverse-cons c a))
      (subst (IsSubsequence (reverse a ++ c ∷ [])) (sym (reverse-cons c b))
        (subsequence_append (reverse-IsSubsequence h) (subsequence_refl (c ∷ []))))
reverse-IsSubsequence (skip c {a} {b} h) =
    subst (λ s. IsSubsequence s (reverse (c ∷ b))) (append_empty (reverse a))
      (subst (IsSubsequence (reverse a ++ [])) (sym (reverse-cons c b))
        (subsequence_append (reverse-IsSubsequence h) (empty-IsSubsequence (c ∷ []))))

trim_left-IsSubsequence : (p : ℕ → Bool) (s : Str) → IsSubsequence (trim_left_where p s) s
unfolding trim_left_where
trim_left-IsSubsequence p [] = done
trim_left-IsSubsequence p (c ∷ s) =
    both_branches (λ t. IsSubsequence t (c ∷ s)) (p c) (skip c (trim_left-IsSubsequence p s))
      (subsequence_refl (c ∷ s))

trim_right-IsSubsequence : (p : ℕ → Bool) (s : Str) → IsSubsequence (trim_right_where p s) s
unfolding trim_right_where
trim_right-IsSubsequence p s =
    subst (IsSubsequence (trim_right_where p s)) (reverse-reverse s)
      (reverse-IsSubsequence (trim_left-IsSubsequence p (reverse s)))

-- Shorter texts around a call.
abbrev TrimsTo : Str → Str → Str × Str → Type 0
TrimsTo before after (b, a) =
    IsSubsequence b before × IsSubsequence a after × (length a ≤ length after)

pub trim_wrapping-TrimsTo :
    (equal_fold : Str → Str → Bool) (before after : Str)
    → TrimsTo before after (trim_wrapping_json_fence equal_fold before after)
unfolding trim_wrapping_json_fence
trim_wrapping-TrimsTo equal_fold before after =
    by_fence (last_index (trim_right_where is_space before) (codes "```"))
  where
    by_fence :
        (o : Option ℕ)
        → TrimsTo before after (elim o as (λ _. Str × Str) [
          | none ↦ (before, after)
          | some i ↦
              let trimmed = trim_right_where is_space before in
              let header = trim_space (drop (i + 3) trimmed) in
              if even (count (take (i + 3) trimmed) (codes "```"))
                || (non_empty header && not (equal_fold header (codes "json")))
                || not (has_prefix (trim_left_where is_space after) (codes "```"))
              then (before, after)
              else (
                take i trimmed,
                drop ((length after - length (trim_left_where is_space after)) + 3) after,
              )
        ])
    by_fence none = (subsequence_refl before, subsequence_refl after, omega arith)
    by_fence (some i) =
        both_branches (TrimsTo before after) _
          (subsequence_refl before, subsequence_refl after, omega arith)
          (
            subsequence_trans (take-IsSubsequence i (trim_right_where is_space before))
                (trim_right-IsSubsequence is_space before),
            drop-IsSubsequence _ after,
            omega (
              arith,
              length-drop ((length after - length (trim_left_where is_space after)) + 3) after,
            ),
          )
