-- ===== src/Sse/Pump/Flushes.antt =====
-- internal/sse/stream.go: flushing and writing to the buffers.
use generalcompute2api.Prelude.{
  Bool, true, false, not, ◌&&◌, ◌||◌, ◌≡◌, refl, sym, ap, ◌∙◌, subst, List, [], ◌∷◌, ◌++◌,
  if◌then◌else◌, both_branches, arith, Bool-cases, inl, inr, append-nil, append_assoc, map-append,
  if_true, if_false,
}
use generalcompute2api.Prelude.Text.{str_eq}
use generalcompute2api.Sse.{ContentPart}
use generalcompute2api.Sse.Tags.{before_parts, is_thinking, thinking}
use generalcompute2api.Sse.Pump.{
  AccumulateConfig, Pump, flush_result, has_buffered_data, is_empty, pending_parts, with_timer,
  write_text, write_thinking,
}
use generalcompute2api.Sse.Pump.Steps.{flush_buffer, flush_now, should_flush}
use generalcompute2api.Sse.Pump.Marks.{
  Adds, Adds-refl, Empties, IsTidy, all_of, emitted, emitted-append, emitted_detection,
  emitted_detection-append, mark, send_goes, tagged, tagged-before, tagged-before_append,
  texts-before,
}

-- The pump when what is held has been sent.
abbrev flushed : Pump → Pump
flushed st = record st {
  any_flushed = true;
  thinking_buffer = [];
  text_buffer = [];
  detection_buffer = [];
  pending_id = 0;
  max_wait_active = false;
  out = st.out ++ (flush_result st ∷ []);
}

pub tagged-pending :
    (st : Pump)
    → IsTidy st
    → tagged (pending_parts st) ≡ mark true st.thinking_buffer ++ mark false st.text_buffer
unfolding IsTidy
tagged-pending st h =
    tagged-before_append st.thinking_buffer st.thinking_pending_type _
    ∙ ap (λ t. t ++ tagged (before_parts st.text_buffer st.text_pending_type [])) h.1
    ∙ ap (λ t. mark true st.thinking_buffer ++ t) h.2

pub flushed-Empties : (st : Pump) → IsTidy st → Empties st (flushed st)
unfolding IsTidy all_of tagged
flushed-Empties st h = record {
  adds = record {
    added =
        append-nil _
        ∙ append-nil _
        ∙ emitted-append st.out (flush_result st ∷ [])
        ∙ ap (λ t. emitted st.out ++ t) (emitted_one ∙ tagged-pending st h)
        ∙ sym (append_assoc (emitted st.out) _ _)
        ∙ sym (append-nil _);
    detected =
        append-nil _
        ∙ emitted_detection-append st.out (flush_result st ∷ [])
        ∙ ap (λ t. emitted_detection st.out ++ t)
            (append-nil _ ∙ texts-before st.detection_buffer thinking)
        ∙ sym (append-nil _);
    typed = refl;
    tidy = (h.0, refl, refl);
  };
  no_text = refl;
  no_thinking = refl;
  no_detection = refl;
}
  where
    emitted_one : emitted (flush_result st ∷ []) ≡ tagged (pending_parts st)
    emitted_one = append-nil _

pub is_empty_lem : {A : Type 0} (xs : List A) → not (is_empty xs) ≡ false → xs ≡ []
is_empty_lem [] e = refl
is_empty_lem (x ∷ xs) e = cc

-- A flush that finds nothing.
pub nothing-Empties :
    (st : Pump)
    → IsTidy st
    → has_buffered_data st ≡ false
    → Empties st (record st {
      any_flushed = true;
      thinking_buffer = [];
      text_buffer = [];
      max_wait_active = false;
    })
unfolding IsTidy all_of tagged
nothing-Empties st h e =
    let (tx, th, det) = or_false3 _ _ _ e in
    let text = is_empty_lem st.text_buffer tx in
    let thoughts = is_empty_lem st.thinking_buffer th in
    record {
      adds = record {
        added =
            append-nil _
            ∙ append-nil _
            ∙ sym (
                append-nil _
                ∙ ap (λ t. (emitted st.out ++ mark true t) ++ mark false st.text_buffer) thoughts
                ∙ ap (λ t. (emitted st.out ++ []) ++ mark false t) text
                ∙ append-nil _
                ∙ append-nil _);
        detected = sym (append-nil _);
        typed = refl;
        tidy = (h.0, refl, refl);
      };
      no_text = refl;
      no_thinking = refl;
      no_detection = is_empty_lem st.detection_buffer det;
    }
  where
    or_false3 : (a b c : Bool) → (a || b || c) ≡ false → (a ≡ false) × (b ≡ false) × (c ≡ false)
    or_false3 a b c e = ground arith

pub write_text-Adds :
    (p : ContentPart) (st : Pump)
    → IsTidy st
    → is_thinking p ≡ false
    → Adds (mark false p.text) [] st (write_text p st)
unfolding all_of IsTidy is_thinking
write_text-Adds p st h e = record {
  added =
      ap (λ t. (emitted st.out ++ mark true st.thinking_buffer) ++ t)
        (map-append _ st.text_buffer p.text)
      ∙ sym (append_assoc (emitted st.out ++ mark true st.thinking_buffer) _ _);
  detected = sym (append-nil _);
  typed = refl;
  tidy = (h.0, h.1, tagged-before (st.text_buffer ++ p.text) p.type false e);
}

-- There is no text after which a thought comes.
pub write_thinking-Adds :
    (p : ContentPart) (st : Pump)
    → IsTidy st
    → st.text_buffer ≡ []
    → Adds (mark true p.text) [] st (write_thinking p st)
unfolding all_of IsTidy str_eq
write_thinking-Adds p st h e = record {
  added =
      ap (λ t. (emitted st.out ++ mark true (st.thinking_buffer ++ p.text)) ++ mark false t) e
      ∙ append-nil _
      ∙ ap (λ t. emitted st.out ++ t) (map-append _ st.thinking_buffer p.text)
      ∙ sym (append_assoc (emitted st.out) _ _)
      ∙ ap (λ t. t ++ mark true p.text)
          (sym (
            ap (λ t. (emitted st.out ++ mark true st.thinking_buffer) ++ mark false t) e
            ∙ append-nil _));
  detected = sym (append-nil _);
  typed = refl;
  tidy = (h.0, tagged-before (st.thinking_buffer ++ p.text) thinking true refl, h.2);
}

module _ (cfg : AccumulateConfig) where
  pub flush_now-Empties : (st : Pump) → IsTidy st → Empties st (flush_now cfg st)
  unfolding flush_now IsTidy
  flush_now-Empties st h = elim (Bool-cases (has_buffered_data st)) [
    | inl e ↦
        subst (Empties st)
          (sym (
            if_true _ _ _ e
            ∙ ap with_timer (
                send_goes (flush_result st)
                  (record st {
                    any_flushed = true;
                    thinking_buffer = [];
                    text_buffer = [];
                    detection_buffer = [];
                    pending_id = 0;
                  })
                  h.0)))
          (flushed-Empties st h)
    | inr e ↦ subst (Empties st) (sym (if_false _ _ _ e)) (nothing-Empties st h e)
  ]

  pub flush_buffer-Adds :
      (force : Bool) (st : Pump) → IsTidy st → Adds [] [] st (flush_buffer cfg force st)
  unfolding flush_buffer
  flush_buffer-Adds force st h =
      both_branches (Adds [] [] st) (cfg.enabled && should_flush cfg force st)
        (flush_now-Empties st h).adds (Adds-refl st st h refl refl refl)

  pub flush_buffer-Empties :
      (st : Pump) → cfg.enabled ≡ true → IsTidy st → Empties st (flush_buffer cfg true st)
  unfolding flush_buffer
  flush_buffer-Empties st en h =
      subst (Empties st) (sym (ap (λ b. if b && true then flush_now cfg st else st) en))
        (flush_now-Empties st h)
