-- ===== src/Sieve/Flushed.antt =====
-- The sieve at the end of a stream.
use generalcompute2api.Prelude.{
  ◌≡◌, refl, sym, subst, ap, ◌∙◌, false, List, [], ◌∷◌, ◌++◌, Option, none, some, if◌then◌else◌,
  arith, both_branches,
}
use generalcompute2api.Prelude.Runs.{Ends, Ends-bind, Ends-elim, Ends-ok, Ends-option}
use generalcompute2api.Prelude.Text.{Str, str_eq}
use generalcompute2api.Fence.{non_empty}
use generalcompute2api.Sieve.{State, Event, Capture, Detector}
use generalcompute2api.Sieve.Process.{
  calls_events, capture_events, flush, flush_capture, held, recovered_events, released_text,
  text_events,
}
use generalcompute2api.Sieve.Kept.{process_chunk-Leaves}
use generalcompute2api.Sieve.Settled.{
  IsLawful, IsSettled, LeavesOf, TextOrder, text_of, text_of-append, text_of-calls,
  text_of-text_events,
}
use generalcompute2api.Sieve.Subsequences.{
  IsSubsequence, append_empty, empty-IsSubsequence, subsequence_append, subsequence_refl,
  subsequence_trans,
}

pub subsequence_order : TextOrder IsSubsequence
subsequence_order = record {
  order_refl = subsequence_refl;
  order_trans = λ a b c h k. subsequence_trans h k;
  order_after = λ p a b h. subsequence_append (subsequence_refl p) h;
}

-- What the end of a stream relies on besides.
pub record EndsLawfully {C : Type 0} (d : Detector C) : Type 0 where
  pub consume_xml_ends : (s : Str) → Ends Unit (LeavesOf IsSubsequence s) (d.consume_xml s)
  pub sanitize_ends : (s : Str) → Ends Unit (λ t. IsSubsequence t s) (d.sanitize s)

module _ {C : Type 0} (d : Detector C) where
  text_of-released_text : (s : Str) → IsSubsequence (text_of (released_text d s)) s
  text_of-released_text s =
      both_branches (λ es. IsSubsequence (text_of es) s) (d.is_malformed s) (empty-IsSubsequence s)
        (subst (λ t. IsSubsequence t s) (sym (text_of-text_events C s)) (subsequence_refl s))

  text_of-capture_events :
      (cap : Capture C) → text_of (capture_events cap) ≡ cap.before ++ cap.after
  text_of-capture_events cap =
      text_of-append (text_events cap.before) (calls_events cap.calls ++ text_events cap.after)
      ∙ ap (λ t. t ++ text_of (calls_events cap.calls ++ text_events cap.after))
          (text_of-text_events C cap.before)
      ∙ ap (λ t. cap.before ++ t) (calls_then_text cap.calls cap.after)
    where
      calls_then_text : (cs : List C) (s : Str) → text_of (calls_events cs ++ text_events s) ≡ s
      calls_then_text [] s = text_of-text_events C s
      calls_then_text (c ∷ cs) s = text_of-text_events C s

  recovered-IsSubsequence :
      (content recovered : Str) (o : Option (Capture C))
      → IsSubsequence recovered content
      → LeavesOf IsSubsequence recovered o
      → IsSubsequence (text_of (recovered_events d content o)) content
  recovered-IsSubsequence content recovered none h l = text_of-released_text content
  recovered-IsSubsequence content recovered (some cap) h l =
      both_branches (λ es. IsSubsequence (text_of es) content) (non_empty cap.calls)
        (subst (λ t. IsSubsequence t content) (sym (text_of-capture_events cap))
          (subsequence_trans l.0 h))
        (text_of-released_text content)

module _ {C : Type 0} (d : Detector C) (lawful : IsLawful IsSubsequence d)
    (ending : EndsLawfully d) where
  flush_capture-Ends :
      (content : Str)
      → Ends Unit (λ es. IsSubsequence (text_of es) content) (flush_capture d content)
  unfolding flush_capture
  flush_capture-Ends content = Ends-bind _ _ _ _ _ (lawful.consume_ends content) (λ o l.
      Ends-option _ _ o _ _
        (λ n.
          Ends-elim _ _ (non_empty content) _ _
            (λ _. Ends-bind _ _ _ _ _ (ending.sanitize_ends content) (λ recovered h.
              Ends-elim _ _ (str_eq recovered content) _ _
                (λ _.
                  Ends-ok _ (λ es. IsSubsequence (text_of es) content) _
                    (text_of-released_text d content))
                (λ _. Ends-bind _ _ _ _ _ (ending.consume_xml_ends recovered) (λ p k.
                  Ends-ok _ (λ es. IsSubsequence (text_of es) content) _
                    (recovered-IsSubsequence d content recovered p h k)))))
            (λ _.
              Ends-ok _ (λ es. IsSubsequence (text_of es) content) []
                (empty-IsSubsequence content)))
        (λ cap s.
          Ends-ok _ (λ es. IsSubsequence (text_of es) content) _
            (subst (λ t. IsSubsequence t content) (sym (text_of-capture_events d cap))
              (subst (LeavesOf IsSubsequence content) s l).0)))

  nothing_captured : (st : State C) → IsSettled st → (if st.capturing then [] else st.capture) ≡ []
  nothing_captured st w = ground (arith)

  flushed_text :
      (es : List (Event C)) (cs : List C) (fs gs : List (Event C))
      → text_of (es ++ (calls_events cs ++ (fs ++ gs))) ≡ text_of es ++ (text_of fs ++ text_of gs)
  flushed_text es cs fs gs =
      text_of-append es (calls_events cs ++ (fs ++ gs))
      ∙ ap (λ t. text_of es ++ t) (text_of-calls cs (fs ++ gs) ∙ text_of-append fs gs)

  -- At the end of a stream the sieve gives back a part of the text that it holds, in the same order, and
  -- keeps nothing: no text and no calls. It does not run for ever, though a slice may be out of range.
  pub flush-Empties :
      (st : State C)
      → IsSettled st
      → Ends Unit
          (λ (after, events).
            IsSubsequence (text_of events) (held st)
            × (held after ≡ [])
            × (after.pending_tool_calls ≡ [])
            × (after.capturing ≡ false))
          (flush d st)
  unfolding flush
  flush-Empties st w =
      Ends-bind _ _ _ _ _ (process_chunk-Leaves IsSubsequence subsequence_order d lawful st [] w)
        (λ x l.
          Ends-bind _ _ _ _ _
            (Ends-elim Unit (λ es. IsSubsequence (text_of es) x.0.capture) x.0.capturing _ _
              (λ _. flush_capture-Ends x.0.capture)
              (λ _.
                Ends-ok _ (λ es. IsSubsequence (text_of es) x.0.capture) []
                  (empty-IsSubsequence x.0.capture)))
            (λ captured h. Ends-ok _ _ _ (
              subst (λ t. IsSubsequence t (held st))
                  (sym (
                    flushed_text x.1 x.0.pending_tool_calls captured (released_text d x.0.pending)))
                  (subsequence_trans
                    (subsequence_append (subsequence_refl (text_of x.1))
                      (subsequence_append h (text_of-released_text d x.0.pending)))
                    (subst (IsSubsequence (text_of x.1 ++ held x.0)) (append_empty (held st)) l.0)),
              ap (λ c. c ++ []) (nothing_captured x.0 l.1),
              refl,
              refl,
            )))
