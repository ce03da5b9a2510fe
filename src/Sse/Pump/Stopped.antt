-- ===== src/Sse/Pump/Stopped.antt =====
-- internal/sse/stream.go: what the pump makes of a line that ends the stream, and of any line.
use generalcompute2api.Prelude.{
  Bool, true, false, not, ◌&&◌, ◌||◌, ◌≡◌, refl, sym, ap, ◌∙◌, subst, List, [], ◌∷◌, ◌++◌,
  if◌then◌else◌, both_branches, Bool-cases, inl, inr, append-nil, if_true, if_false,
}
use generalcompute2api.Sse.{ContentPart, LineResult}
use generalcompute2api.Sse.Pump.{
  AccumulateConfig, Pump, is_empty, note_line, send, stop_result, write_parts,
}
use generalcompute2api.Sse.Pump.Steps.{
  flush_stopped, process_line, process_stop, send_stop, visible_result,
}
use generalcompute2api.Sse.Pump.Marks.{
  Adds, Adds-refl, Adds-silent, IsTidy, all_of, emitted, emitted-append, emitted_detection,
  emitted_detection-append, mark, send_goes, tagged, texts,
}
use generalcompute2api.Sse.Pump.Flushes.{flush_buffer-Adds}
use generalcompute2api.Sse.Pump.Kept.{accumulate-Adds}

-- A line that ends the stream, and one that is not parsed, have no parts.
abbrev pub IsQuiet : LineResult → Type 0
IsQuiet r =
    (r.stop ≡ true → (r.parts ≡ []) × (r.tool_detection_thinking_parts ≡ []))
    × (r.parsed ≡ false → (r.parts ≡ []) × (r.tool_detection_thinking_parts ≡ []))

-- The pump goes on, and nothing is added.
abbrev GoesOn : Pump → Pump × Bool → Type 0
GoesOn st next = Adds [] [] st next.0 × (next.1 ≡ true)

-- A result without parts is sent.
send-GoesOn :
    (r : LineResult) (st : Pump)
    → IsTidy st
    → r.parts ≡ []
    → r.tool_detection_thinking_parts ≡ []
    → GoesOn st (send r st)
unfolding IsTidy all_of emitted tagged
send-GoesOn r st h e f = subst (GoesOn st) (sym (send_goes r st h.0)) (
  Adds-refl st (record st { out = st.out ++ (r ∷ []) }) h
      (ap (λ t. (t ++ mark true st.thinking_buffer) ++ mark false st.text_buffer)
        (emitted-append st.out (r ∷ [])
          ∙ ap (λ ps. emitted st.out ++ (tagged ps ++ [])) e
          ∙ append-nil _))
      (ap (λ t. t ++ st.detection_buffer)
        (emitted_detection-append st.out (r ∷ [])
          ∙ ap (λ ps. emitted_detection st.out ++ (texts ps ++ [])) f
          ∙ append-nil _))
      refl,
  refl,
)

module _ (cfg : AccumulateConfig) where
  flush_nothing-Adds : (st : Pump) → IsTidy st → Adds [] [] st (flush_stopped cfg [] [] st)
  unfolding flush_stopped write_parts
  flush_nothing-Adds st h =
      both_branches (Adds [] [] st)
        (not (is_empty st.text_buffer) || not true || not (is_empty st.detection_buffer))
        (flush_buffer-Adds cfg true st h) (Adds-refl st st h refl refl refl)

  flush_stopped-Adds :
      (ps ds : List ContentPart) (st : Pump)
      → IsTidy st
      → ps ≡ []
      → ds ≡ []
      → Adds [] [] st (flush_stopped cfg ps ds st)
  flush_stopped-Adds ps ds st h e f =
      subst (λ qs. Adds [] [] st (flush_stopped cfg qs ds st)) (sym e)
        (subst (λ es. Adds [] [] st (flush_stopped cfg [] es st)) (sym f) (flush_nothing-Adds st h))

  module _ (thinking_enabled : Bool) where
    visible_result-enabled :
        (r : LineResult) → cfg.enabled ≡ true → visible_result cfg thinking_enabled r ≡ r
    unfolding visible_result
    visible_result-enabled r en = if_true _ _ _ en

    send_stop-GoesOn :
        (r : LineResult) (st : Pump)
        → cfg.enabled ≡ true
        → IsTidy st
        → r.parts ≡ []
        → r.tool_detection_thinking_parts ≡ []
        → GoesOn st (send_stop cfg thinking_enabled r st)
    unfolding send_stop all_of IsTidy
    send_stop-GoesOn r st en h e f =
        let cleared = record st { pending_id = 0 } in
        let second = send-GoesOn (stop_result st) cleared h refl refl in
        both_branches (GoesOn st) (not (is_empty r.error_message) || r.content_filter)
          (subst (λ q. GoesOn st (send q st)) (sym (visible_result-enabled r en))
            (send-GoesOn r st h e f))
          (Adds-silent (Adds-refl st cleared h refl refl refl) second.0, second.1)

    process_stop-GoesOn :
        (r : LineResult) (st : Pump)
        → cfg.enabled ≡ true
        → IsTidy st
        → r.parts ≡ []
        → r.tool_detection_thinking_parts ≡ []
        → GoesOn st (process_stop cfg thinking_enabled r st)
    unfolding process_stop
    process_stop-GoesOn r st en h e f =
        let noted =
          if cfg.enabled && cfg.flush_on_finish
          then flush_stopped cfg r.parts r.tool_detection_thinking_parts st
          else st in
        let first =
          both_branches (Adds [] [] st) (cfg.enabled && cfg.flush_on_finish)
            (flush_stopped-Adds r.parts r.tool_detection_thinking_parts st h e f)
            (Adds-refl st st h refl refl refl) in
        let second = send_stop-GoesOn r noted en first.tidy e f in
        (Adds-silent first second.0, second.1)

    -- The pump goes on with the type that the line gives, and with its parts added.
    abbrev pub Takes : LineResult → Pump → Pump × Bool → Type 0
    Takes r st next =
        Adds (tagged r.parts) (texts r.tool_detection_thinking_parts) (note_line r st) next.0
        × (next.1 ≡ true)

    GoesOn-Takes :
        (r : LineResult) (st : Pump) (next : Pump × Bool)
        → (r.parts ≡ []) × (r.tool_detection_thinking_parts ≡ [])
        → GoesOn (note_line r st) next
        → Takes r st next
    unfolding tagged
    GoesOn-Takes r st next e h = (
      subst (λ ps. Adds (tagged ps) (texts r.tool_detection_thinking_parts) (note_line r st) next.0)
          (sym e.0) (subst (λ ds. Adds [] (texts ds) (note_line r st) next.0) (sym e.1) h.0),
      h.1,
    )

    pub process_line-Takes :
        (r : LineResult) (st : Pump)
        → cfg.enabled ≡ true
        → IsTidy st
        → IsQuiet r
        → Takes r st (process_line cfg thinking_enabled r st)
    unfolding process_line IsTidy
    process_line-Takes r st en h q =
        let noted = note_line r st in
        elim (Bool-cases r.stop) [
          | inl stop ↦ subst (Takes r st) (sym (if_true _ _ _ stop)) (
              GoesOn-Takes r st _ (q.0 stop)
                (process_stop-GoesOn r noted en h (q.0 stop).0 (q.0 stop).1))
          | inr goes ↦ subst (Takes r st) (sym (if_false _ _ _ goes)) (elim (Bool-cases r.parsed) [
            | inl parsed ↦
                subst (Takes r st) (sym (if_false _ _ _ (ap not parsed) ∙ if_true _ _ _ en))
                  (accumulate-Adds cfg r noted en h, refl)
            | inr unparsed ↦ subst (Takes r st) (sym (if_true _ _ _ (ap not unparsed))) (
                GoesOn-Takes r st (noted, true) (q.1 unparsed)
                  (Adds-refl noted noted h refl refl refl, refl))
          ])
        ]
