-- ===== src/Sieve/Captures.antt =====
-- The sieve's detector: what a capture leaves of the captured text.
use generalcompute2api.Prelude.{
  ℕ, zero, suc, ◌+◌, ◌-◌, ◌≤◌, ◌<◌, ◌≡◌, ◌⊎◌, inl, inr, refl, sym, subst, ap, ◌∙◌, Bool, true,
  false, ◌&&◌, List, [], ◌∷◌, ◌++◌, Option, none, some, if_true, if_false, Bool-cases,
  if◌then◌else◌, leb, ltb, length, take, drop, arith, both_branches, length-drop,
}
use generalcompute2api.Prelude.Runs.{
  Ends, Ends-any, Ends-bind, Ends-elim, Ends-if, Ends-ok, Ends-option,
}
use generalcompute2api.Prelude.Text.{Str}
use generalcompute2api.Fence.{non_empty}
use generalcompute2api.Markup.Found.{find_tool_markup_tag-Ends}
use generalcompute2api.Markup.TagEnds.{AllLieIn, LiesIn}
use generalcompute2api.Markup.Matched.{ClosesIn, find_matching_close-Ends}
use generalcompute2api.Markup.Scan.{ToolMarkupTag, slice}
use generalcompute2api.Sieve.Fences.{trim_wrapping_json_fence}
use generalcompute2api.Sieve.Settled.{LeavesOf, TextOrder}
use generalcompute2api.Sieve.Subsequences.{
  IsSubsequence, append_empty, empty-IsSubsequence, subsequence_append, subsequence_refl,
  subsequence_trans, take-drop,
}
use generalcompute2api.Sieve.Xml.{
  RejectedBlock, Scanned, ToolCallParseResult, block_loop, candidate, earlier, is_wrapper_open,
  scanned, with_calls,
}
use generalcompute2api.Sieve.Trims.{trim_wrapping-TrimsTo}

pub take-empty : (n : ℕ) → take {A = ℕ} n [] ≡ []
take-empty zero = refl
take-empty (suc n) = refl

-- The text before `i`, from `i` to `j`, and from `j` on.
pub cut_middle : (i j : ℕ) (s : Str) → i ≤ j → (take i s ++ take (j - i) (drop i s)) ++ drop j s ≡ s
cut_middle zero j s h = ap (λ k. take k s ++ drop j s) (omega arith) ∙ take-drop j s
cut_middle (suc i) zero s h = absurd (omega (arith, h))
cut_middle (suc i) (suc j) [] h = ap (λ t. t ++ []) (take-empty (suc j - suc i))
cut_middle (suc i) (suc j) (c ∷ s) h =
    ap (λ k. c ∷ ((take i s ++ take k (drop i s)) ++ drop j s)) (omega arith)
    ∙ ap (λ t. c ∷ t) (cut_middle i j s (omega (arith, h)))

pub Ends-slice : (i j : ℕ) (s : Str) → Ends Unit (λ t. t ≡ take (j - i) (drop i s)) (slice i j s)
unfolding Ends
Ends-slice i j s =
    both_branches (Ends Unit (λ t. t ≡ take (j - i) (drop i s))) (leb i j && leb j (length s)) refl
      tt

-- Nothing was found in a block.
abbrev pub IsQuiet : {C : Type 0} → ToolCallParseResult C → Type 0
IsQuiet parsed = (parsed.calls ≡ []) × (parsed.saw_tool_call_syntax ≡ false)

-- The texts around the block from `i` to `j`.
around-IsSubsequence : (i j : ℕ) (s : Str) → i ≤ j → IsSubsequence (take i s ++ drop j s) s
around-IsSubsequence i j s h = subst (IsSubsequence (take i s ++ drop j s)) (cut_middle i j s h) (
    subsequence_append
      (subst (λ t. IsSubsequence t (take i s ++ take (j - i) (drop i s))) (append_empty (take i s))
        (subsequence_append (subsequence_refl (take i s))
          (empty-IsSubsequence (take (j - i) (drop i s)))))
      (subsequence_refl (drop j s)))

shorter_after : (j : ℕ) (s : Str) → 0 < j → 0 < length s → length (drop j s) < length s
shorter_after j s h k = omega (arith, length-drop j s, h, k)

abbrev pub RejectedLeaves : (Str → Str → Type 0) → Str → Option RejectedBlock → Type 0
RejectedLeaves R s none = Unit {0}
RejectedLeaves R s (some (start, before, after)) = R (before ++ after) s × (length after < length s)

earlier-Leaves :
    (R : Str → Str → Type 0) (s : Str) (o : Option RejectedBlock) (b : RejectedBlock)
    → RejectedLeaves R s o
    → RejectedLeaves R s (some b)
    → RejectedLeaves R s (earlier o b)
earlier-Leaves R s none b h k = k
earlier-Leaves R s (some a) b h k = both_branches (RejectedLeaves R s) (ltb b.0 a.0) k h

abbrev pub ScannedLeaves : {C : Type 0} → (Str → Str → Type 0) → Str → Scanned C → Type 0
ScannedLeaves R s (candidate cap) = LeavesOf R s (some cap)
ScannedLeaves R s (scanned any_open rejected) = RejectedLeaves R s rejected

clash : true ≡ false → ⊥
clash e = ground arith

-- The search goes on after a tag.
pub still_less :
    (fuel : ℕ) (s : Str) (from : ℕ) (tag : ToolMarkupTag)
    → LiesIn s from tag
    → length s - from < suc fuel
    → length s - (tag.end + 1) < fuel
still_less fuel s from tag l h = omega (arith, h, l.0, l.1, l.2, l.3, l.4)

tag_before_close :
    (s : Str) (from : ℕ) (tag close : ToolMarkupTag)
    → LiesIn s from tag
    → LiesIn s (tag.end + 1) close
    → tag.start ≤ close.end + 1
tag_before_close s from tag close l m = omega (arith, l.0, l.1, l.2, l.3, m.0, m.1, m.2, m.3)

pub some_calls : {C : Type 0} (cs : List C) → cs ≡ [] → non_empty cs ≡ true → ⊥
some_calls [] e f = ground arith
some_calls (c ∷ cs) e f = ground arith

module _ {C : Type 0} (lower_rune : ℕ → ℕ) (equal_fold : Str → Str → Bool)
    (parse : Str → ToolCallParseResult C) (R : Str → Str → Type 0) (order : TextOrder R)
    (allowed : (b : Str) → IsQuiet (parse b) ⊎ ((x y : Str) → IsSubsequence x y → R x y)) where
  -- A block with calls.
  pub with_calls-Leaves :
      (block s : Str) (i j : ℕ)
      → i ≤ j
      → 0 < j
      → 0 < length s
      → non_empty (parse block).calls ≡ true
      → LeavesOf R s (
          some (
            with_calls
              (parse block).calls
              (trim_wrapping_json_fence equal_fold (take i s) (drop j s))))
  with_calls-Leaves block s i j h k m e = elim (allowed block) [
    | inl q ↦ absurd (some_calls (parse block).calls q.0 e)
    | inr f ↦
        let t = trim_wrapping-TrimsTo equal_fold (take i s) (drop j s) in
        (
          f _ _ (subsequence_trans (subsequence_append t.0 t.1) (around-IsSubsequence i j s h)),
          omega (arith, t.2, shorter_after j s k m),
        )
  ]

  -- A block without calls, which stays unless it looks like a call.
  pub without_calls-Leaves :
      (block read s : Str) (i j : ℕ)
      → i ≤ j
      → 0 < j
      → 0 < length s
      → block ≡ take (j - i) (drop i s)
      → RejectedLeaves R s (
          some (
            i,
            (if (parse read).saw_tool_call_syntax then take i s else take i s ++ block),
            drop j s,
          ))
  without_calls-Leaves block read s i j h k m e = (
    elim (Bool-cases (parse read).saw_tool_call_syntax) [
      | inl saw ↦
          subst (λ t. R (t ++ drop j s) s) (sym (if_true _ (take i s) (take i s ++ block) saw))
            (elim (allowed read) [
              | inl q ↦ absurd (clash (sym saw ∙ q.1))
              | inr f ↦ f _ _ (around-IsSubsequence i j s h)
            ])
      | inr missed ↦
          subst (λ t. R (t ++ drop j s) s) (sym (if_false _ (take i s) (take i s ++ block) missed))
            (subst (λ t. R ((take i s ++ t) ++ drop j s) s) (sym e)
              (subst (λ t. R t s) (sym (cut_middle i j s h)) (order.order_refl s)))
    ],
    shorter_after j s k m,
  )

  pub block_loop-Leaves :
      (fuel : ℕ) (s : Str) (from : ℕ) (any_open : Bool) (rejected : Option RejectedBlock)
      → length s - from < fuel
      → RejectedLeaves R s rejected
      → Ends Unit
          (ScannedLeaves R s)
          (block_loop lower_rune equal_fold parse fuel s from any_open rejected)
  unfolding block_loop
  block_loop-Leaves zero s from any_open rejected h r = absurd (omega (arith, h))
  block_loop-Leaves (suc fuel) s from any_open rejected h r =
      Ends-if _ _ (leb (length s) from) _ _
        (λ _. Ends-ok _ (ScannedLeaves R s) (scanned any_open rejected) r)
        (λ past.
          Ends-bind _ _ _ _ _ (Ends-any _ _ _ (find_tool_markup_tag-Ends lower_rune s from)) (λ o a.
            Ends-option _ _ o _ _ (λ _. Ends-ok _ (ScannedLeaves R s) (scanned any_open rejected) r)
              (λ tag e.
                (let l = subst (AllLieIn s from) e a in
                  let shorter = still_less fuel s from tag l h in
                  Ends-elim _ _ (is_wrapper_open tag) _ _
                    (λ _.
                      Ends-bind _ _ _ _ _
                        (Ends-any _ _ _ (find_matching_close-Ends lower_rune s tag))
                        (λ c b.
                          Ends-option _ _ c _ _
                            (λ _. block_loop-Leaves fuel s (tag.end + 1) true rejected shorter r)
                            (λ close d.
                              (let m = (subst (ClosesIn s (tag.end + 1) tag.name) d b).0 in
                                let ordered = tag_before_close s from tag close l m in
                                Ends-bind _ _ _ _ _ (Ends-slice tag.start (close.end + 1) s)
                                  (λ block q.
                                    Ends-elim _ _ (non_empty (parse block).calls) _ _
                                      (λ n. Ends-ok _ (ScannedLeaves R s) (candidate _) (
                                        with_calls-Leaves block s tag.start (close.end + 1) ordered
                                          (omega arith) (omega (arith, m.4)) n))
                                      (λ n.
                                        block_loop-Leaves fuel s (tag.end + 1) any_open _ shorter (
                                          earlier-Leaves R s rejected _ r (
                                            without_calls-Leaves block block s tag.start
                                              (close.end + 1) ordered (omega arith)
                                              (omega (arith, m.4)) q))))))))
                    (λ _. block_loop-Leaves fuel s (tag.end + 1) any_open rejected shorter r)))))
