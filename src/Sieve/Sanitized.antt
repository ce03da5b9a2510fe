-- ===== src/Sieve/Sanitized.antt =====
-- internal/toolstream: what is cut out of the text.
use generalcompute2api.Prelude.{
  ℕ, zero, suc, ◌+◌, ◌-◌, ◌≤◌, ◌<◌, ◌≡◌, ◌⊎◌, inl, inr, sym, subst, ap, ◌∙◌, Bool, true, false,
  List, [], ◌∷◌, ◌++◌, none, some, both_branches, leb, ltb, length, take, drop, arith, leb_false→lt,
}
use generalcompute2api.Prelude.Runs.{
  Ends, Ends-any, Ends-bind, Ends-elim, Ends-if, Ends-ok, Ends-option, Ends-slice_from,
}
use generalcompute2api.Prelude.Strings.{index, trim_left_where}
use generalcompute2api.Prelude.Text.{Str, codes}
use generalcompute2api.Fence.{non_empty}
use generalcompute2api.Markup.Found.{find_tool_markup_tag-Ends}
use generalcompute2api.Markup.TagEnds.{AllLieIn}
use generalcompute2api.Markup.Matched.{find_matching_close-Ends}
use generalcompute2api.Markup.Names.{invoke, tool_calls}
use generalcompute2api.Markup.Scan.{ToolMarkupTag}
use generalcompute2api.Sieve.Captures.{Ends-slice, IsQuiet, some_calls, take-empty, still_less}
use generalcompute2api.Sieve.Consumed.{consume_xml-Leaves, find_first-Ends}
use generalcompute2api.Sieve.Cuts.{find_tool_segment_start-Ends, split_safe-MakesUp}
use generalcompute2api.Sieve.Searches.{Any}
use generalcompute2api.Sieve.Detect.{
  consume_tool_capture, keeps_buffering, sanitize_loop, sieve_detector,
}
use generalcompute2api.Sieve.Fences.{has_open_shell_code_fence, is_space}
use generalcompute2api.Sieve.Kept.{non_empty-length}
use generalcompute2api.Sieve.Settled.{IsLawful, LeavesOf, TextOrder}
use generalcompute2api.Sieve.Subsequences.{
  IsSubsequence, append_empty, empty-IsSubsequence, subsequence_append, subsequence_refl, take-drop,
}
use generalcompute2api.Sieve.Xml.{
  ToolCallParseResult, has_open_xml_tool_tag, is_wrapper_open, keep_bare_body, open_tag_loop,
  should_keep_bare_invoke_capture,
}

module _ (lower_rune : ℕ → ℕ) where
  open_tag_loop-Ends :
      (fuel : ℕ) (s : Str) (from : ℕ)
      → length s - from < fuel
      → Ends Unit Any (open_tag_loop lower_rune fuel s from)
  unfolding open_tag_loop
  open_tag_loop-Ends zero s from h = absurd (omega (arith, h))
  open_tag_loop-Ends (suc fuel) s from h =
      Ends-if _ _ (leb (length s) from) _ _ (λ _. Ends-ok _ Any false tt)
        (λ _.
          Ends-bind _ _ _ _ _ (Ends-any _ _ _ (find_tool_markup_tag-Ends lower_rune s from)) (λ o a.
            Ends-option _ _ o _ _ (λ _. Ends-ok _ Any false tt)
              (λ tag e.
                (let again =
                    open_tag_loop-Ends fuel s (tag.end + 1)
                      (still_less fuel s from tag (subst (AllLieIn s from) e a) h) in
                  Ends-elim _ _ (is_wrapper_open tag) _ _
                    (λ _.
                      Ends-bind _ _ _ _ _
                        (Ends-any _ _ _ (find_matching_close-Ends lower_rune s tag))
                        (λ c _. Ends-option _ _ c _ _ (λ _. Ends-ok _ Any true tt) (λ _ _. again)))
                    (λ _. again)))))

  has_open-Ends : (s : Str) → Ends Unit Any (has_open_xml_tool_tag lower_rune s)
  unfolding has_open_xml_tool_tag
  has_open-Ends s = open_tag_loop-Ends (suc (length s)) s 0 (omega arith)

  keep_bare_body-Ends :
      (s : Str) (tag : ToolMarkupTag) → Ends Unit Any (keep_bare_body lower_rune s tag)
  unfolding keep_bare_body
  keep_bare_body-Ends s tag =
      Ends-elim _ _ (non_empty (trim_left_where is_space (drop (tag.end + 1) s))) _ _
        (λ _.
          Ends-bind _ _ _ _ _ (find_first-Ends lower_rune s (tag.end + 1) invoke true)
            (λ o _. Ends-ok _ Any _ tt))
        (λ _. Ends-ok _ Any true tt)

  should_keep-Ends : (s : Str) → Ends Unit Any (should_keep_bare_invoke_capture lower_rune s)
  unfolding should_keep_bare_invoke_capture
  should_keep-Ends s = Ends-bind _ _ _ _ _ (find_first-Ends lower_rune s 0 invoke false) (λ o _.
      Ends-option _ _ o _ _ (λ _. Ends-ok _ Any false tt)
        (λ tag _. Ends-bind _ _ _ _ _ (find_first-Ends lower_rune s 0 tool_calls false) (λ w _.
          Ends-elim _ _
            (elim w as (λ _. Bool) [ none ↦ false | some open_tag ↦ leb open_tag.start tag.start ])
            _ _ (λ _. Ends-ok _ Any false tt)
            (λ _.
              Ends-bind _ _ _ _ _ (find_first-Ends lower_rune s (tag.start + 1) tool_calls true)
                (λ c _.
                  Ends-elim _ _
                    (elim c as (λ _. Bool) [
                      | none ↦ false
                      | some close ↦ ltb tag.start close.start
                    ])
                    _ _ (λ _. Ends-ok _ Any true tt) (λ _. keep_bare_body-Ends s tag))))))

  keeps_buffering-Ends :
      (names : List Str) (s : Str) → Ends Unit Any (keeps_buffering lower_rune names s)
  unfolding keeps_buffering
  keeps_buffering-Ends names s =
      Ends-elim _ _ (has_open_shell_code_fence lower_rune s) _ _ (λ _. Ends-ok _ Any true tt)
        (λ _. Ends-bind _ _ _ _ _ (has_open-Ends s) (λ a _.
          Ends-elim _ _ a _ _ (λ _. Ends-ok _ Any true tt)
            (λ _. Ends-bind _ _ _ _ _ (should_keep-Ends s) (λ b _. Ends-ok _ Any _ tt))))

drop_cut : (i j : ℕ) (s : Str) → i ≤ j → take (j - i) (drop i s) ++ drop j s ≡ drop i s
drop_cut zero j s h = ap (λ k. take k s ++ drop j s) (omega arith) ∙ take-drop j s
drop_cut (suc i) zero s h = absurd (omega (arith, h))
drop_cut (suc i) (suc j) [] h = ap (λ t. t ++ []) (take-empty (suc j - suc i))
drop_cut (suc i) (suc j) (c ∷ s) h =
    ap (λ k. take k (drop i s) ++ drop j s) (omega arith) ∙ drop_cut i j s (omega (arith, h))

further-IsSubsequence : (i j : ℕ) (s : Str) → i ≤ j → IsSubsequence (drop j s) (drop i s)
further-IsSubsequence i j s h = subst (IsSubsequence (drop j s)) (drop_cut i j s h) (
    subsequence_append (empty-IsSubsequence (take (j - i) (drop i s)))
      (subsequence_refl (drop j s)))

-- A part of the text from `i` to `j`, and then a part of the text after it.
part_then :
    (i j : ℕ) (s part rest : Str)
    → i ≤ j
    → part ≡ take (j - i) (drop i s)
    → IsSubsequence rest (drop j s)
    → IsSubsequence (part ++ rest) (drop i s)
part_then i j s part rest h e k =
    subst (λ p. IsSubsequence (p ++ rest) (drop i s)) (sym e)
      (subst (IsSubsequence (take (j - i) (drop i s) ++ rest)) (drop_cut i j s h)
        (subsequence_append (subsequence_refl (take (j - i) (drop i s))) k))

pub sanitize_loop-Ends :
    (lower_rune : ℕ → ℕ) (fuel : ℕ) (text lower : Str) (pos : ℕ)
    → length text - pos < fuel
    → Ends Unit
        (λ t. IsSubsequence t (drop pos text))
        (sanitize_loop lower_rune fuel text lower pos)
unfolding sanitize_loop
sanitize_loop-Ends r zero text lower pos h = absurd (omega (arith, h))
sanitize_loop-Ends r (suc fuel) text lower pos h =
    Ends-if _ _ (leb (length text) pos) _ _
      (λ _.
        Ends-ok _ (λ t. IsSubsequence t (drop pos text)) [] (empty-IsSubsequence (drop pos text)))
      (λ past. Ends-bind _ _ _ _ _ (Ends-slice_from pos lower) (λ tail _.
        Ends-option _ _ (index tail (codes "<![cdata[")) _ _
          (λ _.
            Ends-ok _ (λ t. IsSubsequence t (drop pos text)) _ (subsequence_refl (drop pos text)))
          (λ rel _. Ends-bind _ _ _ _ _ (Ends-slice pos (pos + rel) text) (λ before b.
            Ends-bind _ _ _ _ _ (Ends-slice_from (pos + rel + 9) lower) (λ rest _.
              Ends-option _ _ (index rest (codes "]]>")) _ _
                (λ _. Ends-bind _ _ _ _ _ (Ends-slice_from (pos + rel + 9) text) (λ content c.
                  Ends-ok _ (λ t. IsSubsequence t (drop pos text)) _
                    (part_then pos (pos + rel) text before content (omega arith) b (
                      subst (λ t. IsSubsequence t (drop (pos + rel) text)) (sym c)
                        (further-IsSubsequence (pos + rel) (pos + rel + 9) text (omega arith))))))
                (λ end_rel _.
                  (let end = pos + rel + 9 + end_rel + 3 in
                    Ends-bind _ _ _ _ _ (Ends-slice (pos + rel) end text) (λ part s.
                      Ends-bind _ _ _ _ _
                        (sanitize_loop-Ends r fuel text lower end
                          (omega (arith, h, leb_false→lt (length text) pos past)))
                        (λ more m.
                          Ends-ok _ (λ t. IsSubsequence t (drop pos text)) _
                            (part_then pos (pos + rel) text before (part ++ more) (omega arith) b
                              (part_then (pos + rel) end text part more (omega arith) s m)))))))))))

module _ {C : Type 0} (lower_rune : ℕ → ℕ) (equal_fold : Str → Str → Bool)
    (parse : Str → ToolCallParseResult C) (R : Str → Str → Type 0) (order : TextOrder R)
    (allowed : (b : Str) → IsQuiet (parse b) ⊎ ((x y : Str) → IsSubsequence x y → R x y))
    (names : List Str) where
  at_most_nothing : (s : Str) → non_empty (parse s).calls ≡ true → R [] s
  at_most_nothing s c = elim (allowed s) [
    | inl q ↦ absurd (some_calls (parse s).calls q.0 c)
    | inr f ↦ f [] s (empty-IsSubsequence s)
  ]

  consume-Leaves :
      (s : Str)
      → Ends Unit (LeavesOf R s) (consume_tool_capture lower_rune equal_fold parse names s)
  unfolding consume_tool_capture
  consume-Leaves s =
      Ends-elim _ _ (non_empty s) _ _
        (λ n.
          Ends-bind _ _ _ _ _ (consume_xml-Leaves lower_rune equal_fold parse R order allowed s)
            (λ o l.
              Ends-option _ _ o _ _
                (λ _.
                  Ends-elim _ _ (non_empty (parse s).calls) _ _
                    (λ c. Ends-ok _ (LeavesOf R s) _ (at_most_nothing s c, non_empty-length s n))
                    (λ _. Ends-bind _ _ _ _ _ (keeps_buffering-Ends lower_rune names s) (λ keeps _.
                      Ends-ok _ (LeavesOf R s) _ (
                        both_branches (LeavesOf R s) keeps tt (
                          subst (λ u. R u s) (sym (append_empty s)) (order.order_refl s),
                          non_empty-length s n,
                        )))))
                (λ cap e. Ends-ok _ (LeavesOf R s) (some cap) (subst (LeavesOf R s) e l))))
        (λ _. Ends-ok _ (LeavesOf R s) none tt)

  -- The detector is lawful, whatever the parser of a block finds in it.
  pub sieve_detector-IsLawful : IsLawful R (sieve_detector lower_rune equal_fold parse names)
  sieve_detector-IsLawful = record {
    find_start_ends = find_tool_segment_start-Ends lower_rune equal_fold names;
    split_safe_ends = split_safe-MakesUp lower_rune names;
    consume_ends = consume-Leaves;
  }
