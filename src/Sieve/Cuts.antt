-- ===== src/Sieve/Cuts.antt =====
-- The sieve's detector: where a call may begin. No search runs for ever, and the safe text and the text
-- that is held make up the whole.
use generalcompute2api.Prelude.{
  ℕ, zero, suc, ◌+◌, ◌-◌, ◌<◌, ◌≡◌, subst, Bool, true, false, List, [], ◌++◌, Option, none, some,
  if◌then◌else◌, leb, ◌==◌, length, take, drop, arith, both_branches,
}
use generalcompute2api.Prelude.Runs.{
  Run, ok, ◌>>=◌, Ends, Ends-any, Ends-bind, Ends-elim, Ends-if, Ends-ok, Ends-option,
}
use generalcompute2api.Prelude.Strings.{contains}
use generalcompute2api.Prelude.Text.{Str, codes}
use generalcompute2api.Util.Lower.{to_lower}
use generalcompute2api.Fence.{CodeFence, inside_code_fence_with_state}
use generalcompute2api.Markup.Found.{after_slash-lt, find_tool_markup_tag-Ends}
use generalcompute2api.Markup.TagEnds.{AllLieIn}
use generalcompute2api.Markup.Scan.{
  after_less_thans, after_slash, is_partial_tool_markup_tag_prefix,
}
use generalcompute2api.Sieve.Bare.{find_partial_bare_tool_name_tag_start}
use generalcompute2api.Sieve.Detect.{
  find_partial_xml_tool_tag_start, find_tool_segment_start, segment_loop, split_at_start,
  split_safe_content_for_tool_detection,
}
use generalcompute2api.Sieve.Fences.{
  after_last, find_partial_shell_code_fence_start, include_duplicate_leading_less_than,
}
use generalcompute2api.Sieve.Subsequences.{append_empty, take-drop}
use generalcompute2api.Sieve.Searches.{
  Any, partial_prefix_loop-Ends, find_shell-Ends, find_minimax-Ends, find_partial_minimax-Ends,
}

segment_loop-Ends :
    (lower_rune : ℕ → ℕ) (fuel : ℕ) (f : CodeFence) (s : Str) (offset : ℕ)
    → length s - offset < fuel
    → Ends Unit Any (segment_loop lower_rune fuel f s offset)
unfolding segment_loop
segment_loop-Ends r zero f s offset h = absurd (omega (arith, h))
segment_loop-Ends r (suc fuel) f s offset h =
    Ends-bind _ _ _ _ _ (Ends-any _ _ _ (find_tool_markup_tag-Ends r s offset)) (λ o a.
      Ends-option _ _ o _ _ (λ _. Ends-ok _ Any none tt)
        (λ tag e.
          (let l = subst (AllLieIn s offset) e a in
            let start = include_duplicate_leading_less_than s tag.start in
            Ends-elim _ _ (inside_code_fence_with_state f (take start s)) _ _
              (λ _.
                segment_loop-Ends r fuel f s (tag.end + 1)
                  (omega (arith, h, l.0, l.1, l.2, l.3, l.4)))
              (λ _. Ends-ok _ Any (some start) tt))))

module _ (lower_rune : ℕ → ℕ) (equal_fold : Str → Str → Bool) (names : List Str) where
  pub find_tool_segment_start-Ends :
      (f : CodeFence) (s : Str)
      → Ends Unit Any (find_tool_segment_start lower_rune equal_fold names f s)
  unfolding find_tool_segment_start
  find_tool_segment_start-Ends f s =
      let found = λ (start : ℕ). Ends-ok Unit (Any {A = Option ℕ}) (some start) tt in
      Ends-bind _ _ _ _ _ (find_minimax-Ends lower_rune f s) (λ m _.
        Ends-option _ _ m _ _
          (λ _. Ends-bind _ _ _ _ _ (find_shell-Ends lower_rune f s) (λ h _.
            Ends-option _ _ h _ _
              (λ _.
                Ends-bind _ _ _ _ _
                  (segment_loop-Ends lower_rune (suc (length s)) f s 0 (omega arith))
                  (λ t _. Ends-option _ _ t _ _ (λ _. Ends-ok _ Any _ tt) (λ start _. found start)))
              (λ start _. found start)))
          (λ start _. found start))

is_partial-Ends :
    (lower_rune : ℕ → ℕ) (text : Str)
    → Ends Unit Any (is_partial_tool_markup_tag_prefix lower_rune text)
unfolding is_partial_tool_markup_tag_prefix
is_partial-Ends r text =
    Ends-if _ _ _ _ _ (λ _. Ends-ok _ Any false tt)
      (λ _.
        Ends-if _ _ (leb (length text) (after_less_thans text 0)) _ _ (λ _. Ends-ok _ Any true tt)
          (λ _.
            partial_prefix_loop-Ends (suc (length text)) (to_lower r text) text
              (after_slash text (after_less_thans text 0)) (omega (arith, after_slash-lt text 0))))

find_partial_xml-Ends :
    (lower_rune : ℕ → ℕ) (s : Str) → Ends Unit Any (find_partial_xml_tool_tag_start lower_rune s)
unfolding find_partial_xml_tool_tag_start
find_partial_xml-Ends r s = after_less_than (after_last (λ c. c == b'<') s)
  where
    after_less_than :
        (n : ℕ)
        → Ends Unit Any (elim n as (λ _. Run (Option ℕ)) [
          | zero ↦ ok none
          | suc last_lt ↦
              let start = include_duplicate_leading_less_than s last_lt in
              let tail = drop start s in
              elim (contains tail (codes ">")) [
                | true ↦ ok none
                | false ↦ is_partial_tool_markup_tag_prefix r tail >>= λ partial.
                    ok (if partial then some start else none)
              ]
        ])
    after_less_than zero = Ends-ok _ Any none tt
    after_less_than (suc last_lt) =
        let tail = drop (include_duplicate_leading_less_than s last_lt) s in
        Ends-elim _ _ (contains tail (codes ">")) _ _ (λ _. Ends-ok _ Any none tt)
          (λ _. Ends-bind _ _ _ _ _ (is_partial-Ends r tail) (λ partial _. Ends-ok _ Any _ tt))

-- The two parts of a text.
abbrev MakesUp : Str → Str × Str → Type 0
MakesUp s (safe, hold) = safe ++ hold ≡ s

split_at_start-MakesUp :
    (f : CodeFence) (s : Str) (start : ℕ) → MakesUp s (split_at_start f s start)
unfolding split_at_start
split_at_start-MakesUp f s start =
    both_branches (MakesUp s) (inside_code_fence_with_state f (take start s)) (append_empty s)
      (take-drop start s)

module _ (lower_rune : ℕ → ℕ) (names : List Str) where
  pub split_safe-MakesUp :
      (f : CodeFence) (s : Str)
      → Ends Unit
          (λ (a, b). a ++ b ≡ s)
          (split_safe_content_for_tool_detection lower_rune names f s)
  unfolding split_safe_content_for_tool_detection
  split_safe-MakesUp f s =
      let cut = λ (start : ℕ).
        Ends-ok Unit (MakesUp s) (split_at_start f s start) (split_at_start-MakesUp f s start) in
      Ends-bind _ _ _ _ _ (find_partial_xml-Ends lower_rune s) (λ x _.
        Ends-option _ (MakesUp s) x _ _
          (λ _. Ends-bind _ _ _ _ _ (find_partial_minimax-Ends lower_rune s) (λ m _.
            Ends-option _ (MakesUp s) m _ _
              (λ _.
                Ends-option _ (MakesUp s) (find_partial_shell_code_fence_start lower_rune s) _ _
                  (λ _.
                    Ends-option _ (MakesUp s)
                      (find_partial_bare_tool_name_tag_start lower_rune s names) _ _
                      (λ _. Ends-ok _ (MakesUp s) (s, []) (append_empty s)) (λ start _. cut start))
                  (λ start _. cut start))
              (λ start _. cut start)))
          (λ start _. cut start))
