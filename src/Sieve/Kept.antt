-- ===== src/Sieve/Kept.antt =====
-- The sieve: what becomes of the text, and that the loop ends. `R left text` says how the text that is
-- left relates to the text that came: it is the same, or a part of it in the same order.
use generalcompute2api.Prelude.{
  ℕ, zero, suc, ◌<◌, ◌≡◌, refl, sym, subst, ap, ◌∙◌, true, false, List, [], ◌∷◌, ◌++◌, length, take,
  drop, arith, length-append, length-drop,
}
use generalcompute2api.Prelude.Runs.{Run, Ends, Ends-bind, Ends-elim, Ends-ok, Ends-option}
use generalcompute2api.Prelude.Text.{Str}
use generalcompute2api.Fence.{non_empty}
use generalcompute2api.Sieve.{State, Event, Detector}
use generalcompute2api.Sieve.Process.{
  after_events, begun, enough_fuel, held, noted, process_chunk, process_loop, released, text_events,
}
use generalcompute2api.Sieve.Subsequences.{append_assoc, append_empty, take-drop}
use generalcompute2api.Sieve.Settled.{
  text_of, calls_of, TextOrder, LeavesOf, IsLawful, text_of-append, text_of-text_events,
  text_of-calls, calls_of-text, calls_of-calls, held-noted, work, IsSettled, work-noted,
  IsSettled-noted, held-released, work-released, released-IsSettled, capturing_work,
}

pub non_empty-length : (s : Str) → non_empty s ≡ true → 0 < length s
non_empty-length [] e = ground arith
non_empty-length (c ∷ s) e = omega arith

-- The safe text is gone.
shorter_work :
    {C : Type 0} (st : State C) (safe hold : Str) (fuel : ℕ)
    → st.capturing ≡ false
    → st.capture ≡ []
    → non_empty safe ≡ true
    → safe ++ hold ≡ st.pending
    → work st < suc fuel
    → work (record st { pending = hold }) < fuel
shorter_work st safe hold fuel e c n q h = ground (
  arith,
  length-append st.capture hold,
  length-append st.capture st.pending,
  length-append safe hold,
  ap length c,
  ap length q,
  non_empty-length safe n,
)

work-begun :
    {C : Type 0} (st : State C) (start fuel : ℕ)
    → st.capturing ≡ false
    → st.capture ≡ []
    → work st < suc fuel
    → work (begun st start) < fuel
work-begun st start fuel e c h = ground (
  arith,
  length-append (st.capture ++ drop start st.pending) [],
  length-append st.capture (drop start st.pending),
  length-append st.capture st.pending,
  length-drop start st.pending,
  ap length c,
)

fuel_suffices : {C : Type 0} (st : State C) → work st < enough_fuel st
fuel_suffices st = ground arith

clash : true ≡ false → ⊥
clash e = ground arith

-- The events and what is held at the end are what `R` leaves of a text.
abbrev pub Leaves : {C : Type 0} → (Str → Str → Type 0) → Str → State C × List (Event C) → Type 0
Leaves R s (st, events) = R (text_of events ++ held st) s × IsSettled st × (calls_of events ≡ [])

-- The same of a chunk, which emits the calls that were deferred.
abbrev pub ChunkLeaves :
    {C : Type 0} → (Str → Str → Type 0) → Str → List C → State C × List (Event C) → Type 0
ChunkLeaves R s deferred (st, events) =
    R (text_of events ++ held st) s × IsSettled st × (calls_of events ≡ deferred)

module _ {C : Type 0} (R : Str → Str → Type 0) (order : TextOrder R) (d : Detector C)
    (lawful : IsLawful R d) where
  after_events-Leaves :
      (a s t : Str) (r : Run (State C × List (Event C)))
      → R (a ++ s) t
      → Ends Unit (Leaves R s) r
      → Ends Unit (Leaves R t) (after_events (text_events a) r)
  after_events-Leaves a s t r h k = Ends-bind _ _ _ _ _ k (λ x l. Ends-ok _ (Leaves R t) _ (
    subst (λ u. R u t)
        (sym (
          ap (λ v. v ++ held x.0) (text_of-append (text_events a) x.1)
          ∙ append_assoc (text_of (text_events {C = C} a)) (text_of x.1) (held x.0)
          ∙ ap (λ v. v ++ (text_of x.1 ++ held x.0)) (text_of-text_events C a)))
        (order.order_trans _ _ _ (order.order_after a _ _ l.0) h),
    l.1,
    calls_of-text a x.1 ∙ l.2,
  ))

  process_loop-Ends :
      (fuel : ℕ) (st : State C)
      → work st < fuel
      → IsSettled st
      → Ends Unit (Leaves R (held st)) (process_loop d fuel st)
  unfolding process_loop
  process_loop-Ends zero st h w = absurd (omega (arith, h))
  process_loop-Ends (suc fuel) st h w =
      let go_on =
        λ (next : State C) (s : Str) (same : held next ≡ s) (k : work next < fuel)
            (v : IsSettled next).
          subst (λ u. Ends Unit (Leaves R u) (process_loop d fuel next)) same
            (process_loop-Ends fuel next k v) in
      let settled = λ (e : st.capturing ≡ false). ap (λ c. c ++ st.pending) (w e) in
      let stays =
        Ends-ok Unit (Leaves R (held st)) (st, []) (order.order_refl (held st), w, refl) in
      Ends-elim _ _ st.capturing _ _
        (λ e. Ends-bind _ _ _ _ _ (lawful.consume_ends (held st)) (λ o l.
          Ends-option _ _ o _ _
            (λ n. Ends-ok _ (Leaves R (held st)) _ (
              subst (λ u. R u (held st)) (sym (append_empty (held st)))
                  (order.order_refl (held st)),
              λ f. absurd (clash (sym e ∙ f)),
              refl,
            ))
            (λ cap s.
              (let waiting = record st { pending = []; capture = held st } in
                let m = subst (LeavesOf R (held st)) s l in
                after_events-Leaves cap.before cap.after (held st) _ m.0 (
                  go_on (released waiting cap) cap.after (held-released waiting cap)
                    (work-released waiting cap fuel (capturing_work st fuel cap e h m.1))
                    (released-IsSettled waiting cap))))))
        (λ e.
          Ends-elim _ _ (non_empty st.pending) _ _
            (λ some_text.
              Ends-bind _ _ _ _ _ (lawful.find_start_ends st.code_fence st.pending) (λ o _.
                Ends-option _ _ o _ _
                  (λ n.
                    Ends-bind _ _ _ _ _ (lawful.split_safe_ends st.code_fence st.pending) (λ x q.
                      Ends-elim _ _ (non_empty x.0) _ _
                        (λ safe.
                          (let rest = record st { pending = x.1 } in
                            after_events-Leaves x.0 x.1 (held st) _
                              (subst (R (x.0 ++ x.1)) (q ∙ sym (settled e))
                                (order.order_refl (x.0 ++ x.1)))
                              (go_on (noted x.0 rest) x.1
                                (held-noted x.0 rest ∙ ap (λ c. c ++ x.1) (w e))
                                (subst (λ n. n < fuel) (sym (work-noted x.0 rest))
                                  (shorter_work st x.0 x.1 fuel e (w e) safe q h))
                                (IsSettled-noted x.0 rest w))))
                        (λ _. stays)))
                  (λ start s.
                    after_events-Leaves (take start st.pending) (drop start st.pending) (held st) _
                      (subst (R (take start st.pending ++ drop start st.pending))
                        (take-drop start st.pending ∙ sym (settled e)) (order.order_refl _))
                      (go_on (begun st start) (drop start st.pending)
                        (append_empty (st.capture ++ drop start st.pending)
                          ∙ ap (λ c. c ++ drop start st.pending) (w e))
                        (work-begun st start fuel e (w e) h) (λ f. absurd (clash f))))))
            (λ _. stays))

  -- The sieve takes a chunk without running for ever, though a slice may be out of range. The text that
  -- it emits and the text that it still holds are what `R` leaves of the text that it held before and
  -- the chunk.
  pub process_chunk-Leaves :
      (st : State C) (chunk : Str)
      → IsSettled st
      → Ends Unit
          (ChunkLeaves R (held st ++ chunk) st.pending_tool_calls)
          (process_chunk d st chunk)
  unfolding process_chunk
  process_chunk-Leaves st chunk w =
      let grown = record st { pending = st.pending ++ chunk; pending_tool_calls = [] } in
      Ends-bind _ _ _ _ _ (process_loop-Ends (enough_fuel grown) grown (fuel_suffices grown) w)
        (λ x l. Ends-ok _ (ChunkLeaves R (held st ++ chunk) st.pending_tool_calls) _ (
          subst (λ u. R (u ++ held x.0) (held st ++ chunk))
              (sym (text_of-calls st.pending_tool_calls x.1))
              (subst (R (text_of x.1 ++ held x.0)) (sym (append_assoc st.capture st.pending chunk))
                l.0),
          l.1,
          calls_of-calls st.pending_tool_calls x.1 l.2,
        ))
