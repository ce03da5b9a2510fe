-- ===== src/Sse/Pump/Handed.antt =====
-- internal/sse/stream.go: what the pump hands on in all.
use generalcompute2api.Prelude.{
  ℕ, Bool, true, false, not, ◌||◌, ◌≡◌, refl, sym, ap, ◌∙◌, List, [], ◌∷◌, ◌++◌, both_branches,
  append-nil, append_assoc,
}
use generalcompute2api.Prelude.Runs.{Run, ok, panics, out_of_fuel, ◌>>=◌, Ends}
use generalcompute2api.Prelude.Text.{Str}
use generalcompute2api.Sse.{LineResult}
use generalcompute2api.Sse.Pump.{
  AccumulateConfig, Pump, PumpEvent, cancelled, note_line, has_buffered_data, read_line, waited,
}
use generalcompute2api.Sse.Pump.Steps.{finish_pump, flush_buffer, on_waited, process_line, run_pump}
use generalcompute2api.Sse.Pump.Marks.{
  Adds, Adds-refl, Adds-silent, IsTidy, all_detection, all_of, emitted, emitted_detection, mark,
  tagged, texts,
}
use generalcompute2api.Sse.Pump.Flushes.{flush_buffer-Adds, flush_buffer-Empties}
use generalcompute2api.Sse.Pump.Stopped.{IsQuiet, process_line-Takes}

-- A marked text and a text for the detection of tools.
abbrev pub Said : Type 0
Said = List (Bool × ℕ) × Str

abbrev pub say : List (Bool × ℕ) → Str → Said → Said
say t d s = (t ++ s.0, d ++ s.1)

-- What the lines say, one after the other, each read with the type that the line before leaves.
unfoldable pub said : (Str → Str → Run LineResult) → List PumpEvent → Str → Run Said
unfolding tagged
said parse [] kind = ok ([], [])
said parse (cancelled ∷ es) kind = ok ([], [])
said parse (waited ∷ es) kind = said parse es kind
said parse (read_line raw ∷ es) kind = do
  r ← parse raw kind
  rest ← said parse es r.next_type
  ok (say (tagged r.parts) (texts r.tool_detection_thinking_parts) rest)

-- What a pump has sent.
unfoldable pub sent : Pump → Said
unfolding emitted
sent st = (emitted st.out, emitted_detection st.out)

unfoldable pub sent_by : Run Pump → Run Said
unfolding sent
sent_by run = do st ← run; ok (sent st)

-- What is sent and held already, and then `s`.
unfoldable pub after : Pump → Run Said → Run Said
unfolding all_of
after st m = do s ← m; ok (say (all_of st) (all_detection st) s)

ok_say :
    {a b : List (Bool × ℕ)} {c d : Str} → a ≡ b → c ≡ d → ◌≡◌ {A = Run Said} (ok (a, c)) (ok (b, d))
ok_say {b = b} {c = c} p q =
    ap (λ (x : List (Bool × ℕ)). let y : Run Said = ok (x, c) in y) p
    ∙ ap (λ (z : Str). let y : Run Said = ok (b, z) in y) q

after-Adds :
    (t : List (Bool × ℕ)) (d : Str) (st st' : Pump) (m : Run Said)
    → Adds t d st st'
    → after st' m ≡ after st (m >>= λ s. ok (say t d s))
unfolding after
after-Adds t d st st' (ok s) h =
    ok_say (ap (λ x. x ++ s.0) h.added ∙ append_assoc (all_of st) t s.0)
      (ap (λ x. x ++ s.1) h.detected ∙ append_assoc (all_detection st) d s.1)
after-Adds t d st st' panics h = refl
after-Adds t d st st' out_of_fuel h = refl

after-bind : (st : Pump) (m : Run Said) → after st (m >>= λ s. ok (say [] [] s)) ≡ after st m
unfolding after
after-bind st (ok s) = refl
after-bind st panics = refl
after-bind st out_of_fuel = refl

Adds-refl_same : (st : Pump) → IsTidy st → Adds [] [] st st
Adds-refl_same st h = Adds-refl st st h refl refl refl

module _ (cfg : AccumulateConfig) (enabled : cfg.enabled ≡ true) (thinking_enabled : Bool) where
  finish_pump_sends :
      (st : Pump)
      → IsTidy st
      → ok (sent (finish_pump cfg thinking_enabled st)) ≡ after st (ok ([], []))
  unfolding finish_pump after all_of IsTidy sent
  finish_pump_sends st h =
      let stopped = record st { max_wait_active = false } in
      let e = flush_buffer-Empties cfg stopped enabled h in
      let final = flush_buffer cfg true stopped in
      ok_say
        (sym (
            ap (λ s. (emitted final.out ++ mark true s) ++ mark false final.text_buffer)
              e.no_thinking
            ∙ ap (λ s. (emitted final.out ++ []) ++ mark false s) e.no_text
            ∙ append-nil _
            ∙ append-nil _)
          ∙ e.adds.added)
        (sym (ap (λ s. emitted_detection final.out ++ s) e.no_detection ∙ append-nil _)
          ∙ e.adds.detected)

  on_waited-Adds : (st : Pump) → IsTidy st → Adds [] [] st (on_waited cfg thinking_enabled st)
  unfolding on_waited all_of IsTidy
  on_waited-Adds st h =
      let stopped = record st { max_wait_active = false } in
      let same = Adds-refl st stopped h refl refl refl in
      both_branches (Adds [] [] st) (not st.max_wait_active) (Adds-refl_same st h) (
        both_branches (Adds [] [] st) (has_buffered_data st)
          (Adds-silent same (flush_buffer-Adds cfg true stopped h)) same)

  module _ (parse : Str → Str → Run LineResult) (X : Type 0)
      (quiet : (raw kind : Str) → Ends X IsQuiet (parse raw kind)) (failed : Bool) where
    abbrev go_on : List PumpEvent → Pump × Bool → Run Pump
    unfolding run_pump
    go_on es next = elim next.1 [
      | true ↦ run_pump cfg thinking_enabled parse failed es next.0
      | false ↦ ok (finish_pump cfg thinking_enabled next.0)
    ]

    -- The lines after this one, by what is known of them.
    after_line :
        (es : List PumpEvent) (st : Pump) (o : Run LineResult)
        → Ends X IsQuiet o
        → IsTidy st
        → ((st' : Pump)
            → IsTidy st'
            → sent_by (run_pump cfg thinking_enabled parse failed es st')
              ≡ after st' (said parse es st'.current_type))
        → sent_by (o >>= λ r. go_on es (process_line cfg thinking_enabled r st))
          ≡ after st (
              o >>= λ r. said parse es r.next_type >>= λ rest.
              ok (say (tagged r.parts) (texts r.tool_detection_thinking_parts) rest))
    unfolding Ends after sent_by go_on
    after_line es st panics q h ih = refl
    after_line es st out_of_fuel q h ih = refl
    after_line es st (ok r) q h ih =
        let next = process_line cfg thinking_enabled r st in
        let takes = process_line-Takes cfg thinking_enabled r st enabled h q in
        ap
          (λ b. sent_by (elim b [
            | true ↦ run_pump cfg thinking_enabled parse failed es next.0
            | false ↦ ok (finish_pump cfg thinking_enabled next.0)
          ]))
          takes.1
        ∙ ih next.0 takes.0.tidy
        ∙ ap (λ kind. after next.0 (said parse es kind)) takes.0.typed
        ∙ after-Adds (tagged r.parts) (texts r.tool_detection_thinking_parts) (note_line r st)
            next.0 (said parse es r.next_type) takes.0

    -- Where parts are accumulated, all sends go through, and no line that ends the stream or is not parsed
    -- has parts: whenever the waiting time ends, what the pump has sent in the end is what it had sent and
    -- held, and then just what the lines say one after the other, thoughts and text in the same order and
    -- each byte still what it was, and likewise for the detection of tools. It panics just where the reading
    -- of the lines does.
    pub run_pump-said :
        (es : List PumpEvent) (st : Pump)
        → IsTidy st
        → sent_by (run_pump cfg thinking_enabled parse failed es st)
          ≡ after st (said parse es st.current_type)
    unfolding run_pump said IsTidy sent_by after
    run_pump-said [] st h = finish_pump_sends (record st { pump_err = st.pump_err || failed }) h
    run_pump-said (cancelled ∷ es) st h = finish_pump_sends (record st { pump_err = true }) h
    run_pump-said (waited ∷ es) st h =
        let waiting = on_waited-Adds st h in
        run_pump-said es (on_waited cfg thinking_enabled st) waiting.tidy
        ∙ ap (λ kind. after (on_waited cfg thinking_enabled st) (said parse es kind)) waiting.typed
        ∙ after-Adds [] [] st (on_waited cfg thinking_enabled st) (said parse es st.current_type)
            waiting
        ∙ after-bind st (said parse es st.current_type)
    run_pump-said (read_line raw ∷ es) st h =
        after_line es st (parse raw st.current_type) (quiet raw st.current_type) h
          (run_pump-said es)
