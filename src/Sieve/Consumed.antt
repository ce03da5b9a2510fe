-- ===== src/Sieve/Consumed.antt =====
-- The sieve's detector: what `consumeXMLToolCapture` leaves of the captured text.
use generalcompute2api.Prelude.{
  ℕ, zero, suc, ◌+◌, ◌-◌, ◌<◌, ◌⊎◌, inl, inr, sym, subst, Bool, true, false, not, ◌&&◌, [], ◌++◌,
  Option, none, some, if◌then◌else◌, if_true, if_false, Bool-cases, leb, ltb, length, arith,
}
use generalcompute2api.Prelude.Runs.{
  Run, ok, Ends, Ends-any, Ends-bind, Ends-elim, Ends-if, Ends-map, Ends-ok, Ends-option,
}
use generalcompute2api.Prelude.Text.{Str, codes, str_eq}
use generalcompute2api.Fence.{non_empty}
use generalcompute2api.Markup.Found.{find_tool_markup_tag-Ends}
use generalcompute2api.Markup.TagEnds.{AllLieIn, AllLieIn-from}
use generalcompute2api.Markup.Names.{invoke, tool_calls}
use generalcompute2api.Markup.Scan.{ToolMarkupTag}
use generalcompute2api.Sieve.{Capture}
use generalcompute2api.Sieve.Captures.{
  Ends-slice, IsQuiet, ScannedLeaves, block_loop-Leaves, still_less, with_calls-Leaves,
  without_calls-Leaves,
}
use generalcompute2api.Sieve.Settled.{LeavesOf, TextOrder}
use generalcompute2api.Sieve.Subsequences.{IsSubsequence}
use generalcompute2api.Sieve.Xml.{
  Scanned, ToolCallParseResult, candidate, consume_bare_invoke, consume_invoke,
  consume_xml_tool_capture, find_first_tool_markup_tag_by_name_from, first_tag_loop, scanned,
  with_calls,
}

first_tag_loop-Ends :
    (lower_rune : ℕ → ℕ) (fuel : ℕ) (s : Str) (pos : ℕ) (name : Str) (closing : Bool)
    → length s - pos < fuel
    → Ends Unit (AllLieIn s pos) (first_tag_loop lower_rune fuel s pos name closing)
unfolding first_tag_loop
first_tag_loop-Ends r zero s pos name closing h = absurd (omega (arith, h))
first_tag_loop-Ends r (suc fuel) s pos name closing h =
    Ends-if _ _ (leb (length s) pos) _ _ (λ _. Ends-ok _ (AllLieIn s pos) none tt)
      (λ _. Ends-bind _ _ _ _ _ (Ends-any _ _ _ (find_tool_markup_tag-Ends r s pos)) (λ o a.
        Ends-option _ _ o _ _ (λ _. Ends-ok _ (AllLieIn s pos) none tt)
          (λ tag e.
            (let l = subst (AllLieIn s pos) e a in
              Ends-elim _ _
                (str_eq tag.name name && (if closing then tag.closing else not tag.closing)) _ _
                (λ _. Ends-ok _ (AllLieIn s pos) (some tag) l)
                (λ _.
                  Ends-map _ _ _ _
                    (first_tag_loop-Ends r fuel s (tag.end + 1) name closing
                      (still_less fuel s pos tag l h))
                    (λ p b.
                      AllLieIn-from s pos (tag.end + 1) p (omega (arith, l.0, l.1, l.2, l.3))
                        b))))))

pub find_first-Ends :
    (lower_rune : ℕ → ℕ) (s : Str) (start : ℕ) (name : Str) (closing : Bool)
    → Ends Unit
        (AllLieIn s start)
        (find_first_tool_markup_tag_by_name_from lower_rune s start name closing)
unfolding find_first_tool_markup_tag_by_name_from
find_first-Ends r s start name closing =
    first_tag_loop-Ends r (suc (length s)) s start name closing (omega arith)

module _ {C : Type 0} (lower_rune : ℕ → ℕ) (equal_fold : Str → Str → Bool)
    (parse : Str → ToolCallParseResult C) (R : Str → Str → Type 0) (order : TextOrder R)
    (allowed : (b : Str) → IsQuiet (parse b) ⊎ ((x y : Str) → IsSubsequence x y → R x y)) where
  consume_invoke-Leaves :
      (s : Str) (invoke_tag close : ToolMarkupTag)
      → invoke_tag.start < close.end + 1
      → 0 < length s
      → Ends Unit
          (λ cap. LeavesOf R s (some cap))
          (consume_invoke lower_rune equal_fold parse s invoke_tag close)
  unfolding consume_invoke
  consume_invoke-Leaves s invoke_tag close h k =
      let i = invoke_tag.start in
      let j = close.end + 1 in
      Ends-bind _ _ _ _ _ (Ends-slice i j s) (λ block q.
        (let read = codes "<tool_calls>" ++ block in
          let P =
            λ (texts : Str × Str). LeavesOf R s (some (with_calls (parse read).calls texts)) in
          Ends-ok _ (λ cap. LeavesOf R s (some cap)) _
            (elim (Bool-cases (non_empty (parse read).calls)) [
              | inl e ↦ subst P (sym (if_true _ _ _ e)) (
                  with_calls-Leaves lower_rune equal_fold parse R order allowed read s i j
                    (omega (arith, h)) (omega arith) k e)
              | inr n ↦ subst P (sym (if_false _ _ _ n)) (
                  without_calls-Leaves lower_rune equal_fold parse R order allowed block read s i j
                    (omega (arith, h)) (omega arith) k q)
            ])))

  consume_bare_invoke-Leaves :
      (s : Str) → Ends Unit (LeavesOf R s) (consume_bare_invoke lower_rune equal_fold parse s)
  unfolding consume_bare_invoke
  consume_bare_invoke-Leaves s =
      Ends-bind _ _ _ _ _ (find_first-Ends lower_rune s 0 invoke false) (λ o a.
        Ends-option _ _ o _ _ (λ _. Ends-ok _ (LeavesOf R s) none tt)
          (λ invoke_tag e.
            Ends-bind _ _ _ _ _ (find_first-Ends lower_rune s 0 tool_calls false) (λ w _.
              Ends-elim _ _
                (elim w as (λ _. Bool) [
                  | none ↦ true
                  | some open_tag ↦ ltb invoke_tag.start open_tag.start
                ])
                _ _
                (λ _.
                  Ends-bind _ _ _ _ _
                    (find_first-Ends lower_rune s (invoke_tag.start + 1) tool_calls true)
                    (λ c b.
                      Ends-option _ _ c _ _ (λ _. Ends-ok _ (LeavesOf R s) none tt)
                        (λ close d.
                          (let m = subst (AllLieIn s (invoke_tag.start + 1)) d b in
                            Ends-elim _ _ (ltb invoke_tag.start close.start) _ _
                              (λ _.
                                Ends-bind _ _ _ _ _
                                  (consume_invoke-Leaves s invoke_tag close
                                    (omega (arith, m.0, m.1, m.2, m.3)) (omega (arith, m.4)))
                                  (λ cap l. Ends-ok _ (LeavesOf R s) (some cap) l))
                              (λ _. Ends-ok _ (LeavesOf R s) none tt)))))
                (λ _. Ends-ok _ (LeavesOf R s) none tt))))

  pub consume_xml-Leaves :
      (s : Str) → Ends Unit (LeavesOf R s) (consume_xml_tool_capture lower_rune equal_fold parse s)
  unfolding consume_xml_tool_capture
  consume_xml-Leaves s =
      Ends-bind _ _ _ _ _
        (block_loop-Leaves lower_rune equal_fold parse R order allowed (suc (length s)) s 0 false
          none (omega arith) tt)
        by_result
    where
      by_result :
          (found : Scanned C)
          → ScannedLeaves R s found
          → Ends Unit (LeavesOf R s) (elim found as (λ _. Run (Option (Capture C))) [
            | candidate cap ↦ ok (some cap)
            | scanned any_open rejected ↦ elim any_open [
              | true ↦ ok none
              | false ↦ elim rejected [
                | some block ↦ ok (some (with_calls [] (block.1, block.2)))
                | none ↦ consume_bare_invoke lower_rune equal_fold parse s
              ]
            ]
          ])
      by_result (candidate cap) l = Ends-ok _ (LeavesOf R s) (some cap) l
      by_result (scanned true rejected) l = Ends-ok _ (LeavesOf R s) none tt
      by_result (scanned false none) l = consume_bare_invoke-Leaves s
      by_result (scanned false (some block)) l =
          Ends-ok _ (LeavesOf R s) (some (with_calls [] (block.1, block.2))) l
