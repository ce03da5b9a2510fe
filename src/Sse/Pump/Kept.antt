-- ===== src/Sse/Pump/Kept.antt =====
-- internal/sse/stream.go: what the pump makes of a line.
use generalcompute2api.Prelude.{
  true, false, not, ◌&&◌, ◌≡◌, refl, sym, ap, ◌∙◌, subst, List, [], ◌∷◌, ◌++◌, if◌then◌else◌,
  both_branches, leb, Bool-cases, inl, inr, append-nil, append_assoc, if_true, if_false,
}
use generalcompute2api.Sse.{ContentPart, LineResult}
use generalcompute2api.Sse.Tags.{is_thinking}
use generalcompute2api.Sse.Pump.{
  AccumulateConfig, Pump, has_line_end, is_empty, write_detection, write_text, write_thinking,
}
use generalcompute2api.Sse.Pump.Steps.{
  flush_buffer, write_each, write_part, accumulate, wait_for_more, flush_long, clear_text,
  flush_line_end,
}
use generalcompute2api.Util.{rune_count}
use generalcompute2api.Sse.Pump.Marks.{
  Adds, Adds-refl, Adds-silent, Adds-trans, IsTidy, emitted_detection, all_detection, all_of,
  emitted_detection, mark, tagged, texts,
}
use generalcompute2api.Sse.Pump.Flushes.{
  flush_buffer-Adds, flush_buffer-Empties, is_empty_lem, write_text-Adds, write_thinking-Adds,
}

write_detection-Adds :
    (ps : List ContentPart) (st : Pump) → IsTidy st → Adds [] (texts ps) st (write_detection ps st)
unfolding all_of IsTidy
write_detection-Adds [] st h = Adds-refl st st h refl refl refl
write_detection-Adds (p ∷ ps) st h =
    Adds-trans [] [] p.text (texts ps) st
      (record st { detection_buffer = st.detection_buffer ++ p.text }) _
      (record {
        added = sym (append-nil _);
        detected = sym (append_assoc (emitted_detection st.out) st.detection_buffer p.text);
        typed = refl;
        tidy = h;
      })
      (write_detection-Adds ps _ h)

-- The detection's text, and then the parts.
Adds-after :
    (ps ds : List ContentPart) (a b c : Pump)
    → Adds [] (texts ds) a b
    → Adds (tagged ps) [] b c
    → Adds (tagged ps) (texts ds) a c
Adds-after ps ds a b c h k =
    let both = Adds-trans [] (tagged ps) (texts ds) [] a b c h k in
    record {
      added = both.added;
      detected = both.detected ∙ ap (λ d. all_detection a ++ d) (append-nil (texts ds));
      typed = both.typed;
      tidy = both.tidy;
    }

module _ (cfg : AccumulateConfig) where
  text_cleared :
      (st : Pump)
      → cfg.enabled ≡ true
      → IsTidy st
      → Adds [] [] st (clear_text cfg st) × ((clear_text cfg st).text_buffer ≡ [])
  unfolding clear_text
  text_cleared st en h =
      let flush = flush_buffer-Empties cfg st en h in
      elim (is_empty st.text_buffer)
          as (λ b.
            (is_empty st.text_buffer ≡ b)
            → Adds [] [] st (if b then st else flush_buffer cfg true st)
              × ((if b then st else flush_buffer cfg true st).text_buffer ≡ [])) [
                | true ↦
                    λ e. (Adds-refl st st h refl refl refl, is_empty_lem st.text_buffer (ap not e))
                | false ↦ λ e. (flush.adds, flush.no_text)
              ]
        refl

  write_part-Adds :
      (p : ContentPart) (st : Pump)
      → cfg.enabled ≡ true
      → IsTidy st
      → Adds (mark (is_thinking p) p.text) [] st (write_part cfg p st)
  unfolding write_part
  write_part-Adds p st en h = elim (Bool-cases (is_thinking p)) [
    | inl e ↦
        let cleared = text_cleared st en h in
        subst (Adds (mark (is_thinking p) p.text) [] st) (sym (if_true _ _ _ e)) (
          subst (λ b. Adds (mark b p.text) [] st (write_thinking p (clear_text cfg st))) (sym e)
            (Adds-trans [] (mark true p.text) [] [] st (clear_text cfg st) _ cleared.0
              (write_thinking-Adds p (clear_text cfg st) cleared.0.tidy cleared.1)))
    | inr e ↦
        let written = write_text-Adds p st h e in
        subst (Adds (mark (is_thinking p) p.text) [] st) (sym (if_false _ _ _ e)) (
          subst (λ b. Adds (mark b p.text) [] st (flush_line_end cfg p st)) (sym e)
            (both_branches (Adds (mark false p.text) [] st)
              (cfg.flush_on_newline && has_line_end p.text)
              (Adds-silent written (flush_buffer-Adds cfg true (write_text p st) written.tidy))
              written))
  ]

  write_each-Adds :
      (ps : List ContentPart) (st : Pump)
      → cfg.enabled ≡ true
      → IsTidy st
      → Adds (tagged ps) [] st (write_each cfg ps st)
  unfolding write_each tagged
  write_each-Adds [] st en h = Adds-refl st st h refl refl refl
  write_each-Adds (p ∷ ps) st en h =
      let one = write_part-Adds p st en h in
      Adds-trans (mark (is_thinking p) p.text) (tagged ps) [] [] st (write_part cfg p st) _ one
        (write_each-Adds ps (write_part cfg p st) en one.tidy)

  flush_long-Adds : (st : Pump) → IsTidy st → Adds [] [] st (flush_long cfg st)
  unfolding flush_long
  flush_long-Adds st h =
      both_branches (Adds [] [] st) (leb cfg.min_chars (rune_count st.text_buffer))
        (flush_buffer-Adds cfg false st h) (Adds-refl st st h refl refl refl)

  wait_for_more-Adds : (st : Pump) → IsTidy st → Adds [] [] st (wait_for_more cfg st)
  unfolding all_of IsTidy
  wait_for_more-Adds st h = Adds-refl st (wait_for_more cfg st) h refl refl refl

  pub accumulate-Adds :
      (r : LineResult) (st : Pump)
      → cfg.enabled ≡ true
      → IsTidy st
      → Adds (tagged r.parts) (texts r.tool_detection_thinking_parts) st (accumulate cfg r st)
  unfolding accumulate
  accumulate-Adds r st en h =
      let noted = write_detection r.tool_detection_thinking_parts st in
      let first = write_detection-Adds r.tool_detection_thinking_parts st h in
      let second = write_each-Adds r.parts noted en first.tidy in
      let written = write_each cfg r.parts noted in
      let third = flush_long-Adds written second.tidy in
      Adds-silent
        (Adds-silent
          (Adds-after r.parts r.tool_detection_thinking_parts st noted written first second) third)
        (wait_for_more-Adds (flush_long cfg written) third.tidy)
