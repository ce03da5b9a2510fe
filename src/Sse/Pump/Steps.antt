-- ===== src/Sse/Pump/Steps.antt =====
-- internal/sse/stream.go: the functions of the pump, and its loop.
use generalcompute2api.Prelude.{
  Bool, true, false, not, ◌&&◌, ◌||◌, List, [], ◌∷◌, if◌then◌else◌, leb, ltb,
}
use generalcompute2api.Prelude.Runs.{Run, ok, ◌>>=◌}
use generalcompute2api.Prelude.Text.{Str}
use generalcompute2api.Sse.{ContentPart, LineResult}
use generalcompute2api.Sse.Tags.{is_thinking}
use generalcompute2api.Sse.Choices.{visible_parts}
use generalcompute2api.Sse.Pump.{
  AccumulateConfig, Pump, PumpEvent, cancelled, flush_result, has_buffered_data, has_line_end,
  is_empty, note_line, read_line, send, stop_result, waited, with_timer, write_detection,
  write_parts, write_text, write_thinking,
}
use generalcompute2api.Util.{rune_count}

module _ (cfg : AccumulateConfig) where
  abbrev pub should_flush : Bool → Pump → Bool
  should_flush force st =
      let text_chars = rune_count st.text_buffer in
      let thinking_chars = rune_count st.thinking_buffer in
      force
      || not st.any_flushed
      || leb cfg.min_chars text_chars
      || (ltb 0 thinking_chars && leb 50 text_chars)

  -- A flush that is made.
  unfoldable pub flush_now : Pump → Pump
  unfolding send
  flush_now st =
      let clean = record st { any_flushed = true; thinking_buffer = []; text_buffer = [] } in
      if has_buffered_data st
      then with_timer
          (send (flush_result st) (record clean { detection_buffer = []; pending_id = 0 }))
      else record clean { max_wait_active = false }

  unfoldable pub flush_buffer : Bool → Pump → Pump
  unfolding flush_now
  flush_buffer force st = if cfg.enabled && should_flush force st then flush_now st else st

  -- Before a thought, the text that is held is flushed.
  unfoldable pub clear_text : Pump → Pump
  unfolding flush_buffer
  clear_text st = if is_empty st.text_buffer then st else flush_buffer true st

  unfoldable pub flush_line_end : ContentPart → Pump → Pump
  unfolding flush_buffer
  flush_line_end p st =
      if cfg.flush_on_newline && has_line_end p.text
      then flush_buffer true (write_text p st)
      else write_text p st

  unfoldable pub write_part : ContentPart → Pump → Pump
  unfolding clear_text flush_line_end is_thinking
  write_part p st = if is_thinking p then write_thinking p (clear_text st) else flush_line_end p st

  unfoldable pub write_each : List ContentPart → Pump → Pump
  unfolding write_part
  write_each [] st = st
  write_each (p ∷ ps) st = write_each ps (write_part p st)

  abbrev pub wait_for_more : Pump → Pump
  wait_for_more st = record st { max_wait_active = st.max_wait_active || has_buffered_data st }

  unfoldable pub flush_long : Pump → Pump
  unfolding flush_buffer
  flush_long st =
      if leb cfg.min_chars (rune_count st.text_buffer) then flush_buffer false st else st

  -- A line that is parsed and goes on, where parts are accumulated.
  unfoldable pub accumulate : LineResult → Pump → Pump
  unfolding write_each flush_long
  accumulate r st =
      wait_for_more
        (flush_long (write_each r.parts (write_detection r.tool_detection_thinking_parts st)))

  -- The parts of a line that ends the stream, and those for the detection of tools.
  unfoldable pub flush_stopped : List ContentPart → List ContentPart → Pump → Pump
  unfolding flush_buffer write_parts
  flush_stopped parts detection st =
      let noted = write_detection detection st in
      if not (is_empty noted.text_buffer)
        || not (is_empty parts)
        || not (is_empty noted.detection_buffer)
      then flush_buffer true (write_parts parts noted)
      else noted

  module _ (thinking_enabled : Bool) where
    unfoldable pub visible_result : LineResult → LineResult
    unfolding visible_parts
    visible_result r =
        if cfg.enabled then r else record r { parts = visible_parts thinking_enabled r.parts }

    unfoldable pub send_stop : LineResult → Pump → Pump × Bool
    unfolding send visible_result
    send_stop r st =
        if not (is_empty r.error_message) || r.content_filter
        then send (visible_result r) st
        else send (stop_result st) (record st { pending_id = 0 })

    unfoldable pub process_stop : LineResult → Pump → Pump × Bool
    unfolding flush_stopped send_stop
    process_stop r st = send_stop r (
        if cfg.enabled && cfg.flush_on_finish
        then flush_stopped r.parts r.tool_detection_thinking_parts st
        else st)

    -- A line that is parsed and goes on, where parts are not accumulated.
    unfoldable pub pass_through : LineResult → Pump → Pump × Bool
    unfolding send visible_parts
    pass_through r st =
        let parts = visible_parts thinking_enabled r.parts in
        if is_empty parts && is_empty r.tool_detection_thinking_parts
        then (st, true)
        else send
            (record {
              parsed = true;
              stop = false;
              content_filter = false;
              error_message = [];
              parts = parts;
              tool_detection_thinking_parts = r.tool_detection_thinking_parts;
              next_type = st.current_type;
              response_message_id = 0;
            })
            st

    -- `false` where the pump is to end.
    unfoldable pub process_line : LineResult → Pump → Pump × Bool
    unfolding process_stop accumulate pass_through
    process_line r st =
        let noted = note_line r st in
        if r.stop
        then process_stop r noted
        else if not r.parsed
        then (noted, true)
        else if cfg.enabled
        then (accumulate r noted, true)
        else pass_through r noted

    -- The end of the waiting time, if the timer is set.
    unfoldable pub on_waited : Pump → Pump
    unfolding flush_buffer
    on_waited st =
        let stopped = record st { max_wait_active = false } in
        if not st.max_wait_active
        then st
        else if has_buffered_data st
        then flush_buffer true stopped
        else stopped

    unfoldable pub finish_pump : Pump → Pump
    unfolding flush_buffer
    finish_pump st = flush_buffer true (record st { max_wait_active = false })

    -- The loop; at the end of the events the reader is done, with an error or without.
    unfoldable pub run_pump : (Str → Str → Run LineResult) → Bool → List PumpEvent → Pump → Run Pump
    unfolding process_line on_waited finish_pump
    run_pump parse failed [] st = ok (finish_pump (record st { pump_err = st.pump_err || failed }))
    run_pump parse failed (cancelled ∷ es) st = ok (finish_pump (record st { pump_err = true }))
    run_pump parse failed (waited ∷ es) st = run_pump parse failed es (on_waited st)
    run_pump parse failed (read_line raw ∷ es) st = do
      r ← parse raw st.current_type
      let next = process_line r st
      elim next.1 [ true ↦ run_pump parse failed es next.0 | false ↦ ok (finish_pump next.0) ]
