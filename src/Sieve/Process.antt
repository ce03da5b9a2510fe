-- ===== src/Sieve/Process.antt =====
-- internal/toolstream/tool_sieve_core.go: `ProcessChunk` and `Flush`. The loop runs on fuel.
use generalcompute2api.Prelude.{
  ℕ, zero, suc, ◌*◌, true, false, List, [], ◌∷◌, ◌++◌, Option, none, some, if◌then◌else◌, length,
  take, drop,
}
use generalcompute2api.Prelude.Runs.{Run, ok, out_of_fuel, ◌>>=◌}
use generalcompute2api.Prelude.Text.{Str, str_eq}
use generalcompute2api.Fence.{non_empty, note_text}
use generalcompute2api.Sieve.{State, Event, Capture, Detector, calls_event, content_event}

module _ {C : Type 0} where
  -- `if s != "" { … append(events, Event{Content: s}) }`, and the note that goes with it.
  abbrev pub text_events : Str → List (Event C)
  text_events [] = []
  text_events (c ∷ s) = content_event (c ∷ s) ∷ []

  abbrev pub noted : Str → State C → State C
  noted [] st = st
  noted (c ∷ s) st = record st { code_fence = note_text (c ∷ s) st.code_fence }

  abbrev pub calls_events : List C → List (Event C)
  calls_events [] = []
  calls_events (c ∷ cs) = calls_event (c ∷ cs) ∷ []

  -- What a call made before, and then the rest.
  abbrev pub after_events :
      List (Event C) → Run (State C × List (Event C)) → Run (State C × List (Event C))
  after_events events r = r >>= λ (st, more). ok (st, events ++ more)

  -- A captured text that is ready: the state that goes on.
  abbrev pub released : State C → Capture C → State C
  released st cap =
      let done = record st {
        pending = cap.after;
        capture = [];
        capturing = false;
        pending_tool_calls = if non_empty cap.calls then cap.calls else st.pending_tool_calls;
      } in
      noted cap.before done

  -- A tool call seems to begin at `start`.
  abbrev pub begun : State C → ℕ → State C
  begun st start =
      let s = noted (take start st.pending) st in
      record s { pending = []; capture = st.capture ++ drop start st.pending; capturing = true }

  -- The `for` loop.
  unfoldable pub process_loop : Detector C → ℕ → State C → Run (State C × List (Event C))
  process_loop d zero st = out_of_fuel
  process_loop d (suc fuel) st = elim st.capturing [
    | true ↦
        (let captured = st.capture ++ st.pending in
          let waiting = record st { pending = []; capture = captured } in
          d.consume captured >>= λ o. elim o [
            | none ↦ ok (waiting, [])
            | some cap ↦
                after_events (text_events cap.before) (process_loop d fuel (released waiting cap))
          ])
    | false ↦ elim (non_empty st.pending) [
      | false ↦ ok (st, [])
      | true ↦ d.find_start st.code_fence st.pending >>= λ o. elim o [
        | some start ↦
            after_events (text_events (take start st.pending))
              (process_loop d fuel (begun st start))
        | none ↦ d.split_safe st.code_fence st.pending >>= λ (safe, hold). elim (non_empty safe) [
          | false ↦ ok (st, [])
          | true ↦
              after_events (text_events safe)
                (process_loop d fuel (noted safe (record st { pending = hold })))
        ]
      ]
    ]
  ]

  -- Twice the text that is held, and one more outside of a capture.
  abbrev pub held : State C → Str
  held st = st.capture ++ st.pending

  abbrev pub enough_fuel : State C → ℕ
  enough_fuel st = suc (suc (2 * length (held st)))

  unfoldable pub process_chunk : Detector C → State C → Str → Run (State C × List (Event C))
  unfolding process_loop
  process_chunk d st chunk =
      let grown = record st { pending = st.pending ++ chunk; pending_tool_calls = [] } in
      after_events (calls_events st.pending_tool_calls) (process_loop d (enough_fuel grown) grown)

  -- The text that is given back when the stream ends, unless it looks like a broken call.
  abbrev pub released_text : Detector C → Str → List (Event C)
  released_text d s = if d.is_malformed s then [] else text_events s

  abbrev pub capture_events : Capture C → List (Event C)
  capture_events cap = text_events cap.before ++ (calls_events cap.calls ++ text_events cap.after)

  -- The capture that is recovered from a text without its loose CDATA openings, if it has calls.
  abbrev pub recovered_events : Detector C → Str → Option (Capture C) → List (Event C)
  recovered_events d content none = released_text d content
  recovered_events d content (some cap) =
      if non_empty cap.calls then capture_events cap else released_text d content

  -- What `Flush` makes of a capture.
  unfoldable pub flush_capture : Detector C → Str → Run (List (Event C))
  flush_capture d content = d.consume content >>= λ o. elim o [
    | some cap ↦ ok (capture_events cap)
    | none ↦ elim (non_empty content) [
      | false ↦ ok []
      | true ↦ d.sanitize content >>= λ recovered. elim (str_eq recovered content) [
        | true ↦ ok (released_text d content)
        | false ↦ d.consume_xml recovered >>= λ p. ok (recovered_events d content p)
      ]
    ]
  ]

  -- `noteText` for each content in turn.
  abbrev pub note_events : List (Event C) → State C → State C
  note_events [] st = st
  note_events (e ∷ es) st = note_events es (noted e.content st)

  unfoldable pub flush : Detector C → State C → Run (State C × List (Event C))
  unfolding process_chunk flush_capture
  flush d st = process_chunk d st [] >>= λ (st1, events).
      (elim st1.capturing [ true ↦ flush_capture d st1.capture | false ↦ ok [] ])
      >>= λ captured_events.
          (let last = released_text d st1.pending in
            let done = note_events last (note_events captured_events st1) in
            ok (
              record done {
                pending = [];
                capture = if st1.capturing then [] else st1.capture;
                capturing = false;
                pending_tool_calls = [];
              },
              events ++ (calls_events st1.pending_tool_calls ++ (captured_events ++ last)),
            ))
