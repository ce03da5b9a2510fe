-- ===== src/Stream/Tests.antt =====
-- The engine's theorems at concrete runs.
use generalcompute2api.Prelude.{◌+◌, ℕ, ◌≡◌, [], ◌∷◌, true, false, none, some}
use generalcompute2api.Prelude.Text.{codes}
use generalcompute2api.Sse.{LineResult}
use generalcompute2api.Stream.{
  ConsumeConfig, ParsedDecision, consume, initial, no_reason, eof, tick,
}
use generalcompute2api.Stream.Trace.{EndsOnce, consume-EndsOnce}
use generalcompute2api.Stream.Timeouts.{delivered, lines_delivered, lines_then_eof, live}

abbrev two_ticks : ConsumeConfig
two_ticks = record { keep_alive_interval = 5; idle_timeout = 30; max_keep_alive_no_input = 2 }

abbrev stop_line : LineResult
stop_line = record {
  parsed = true;
  stop = true;
  content_filter = false;
  error_message = [];
  parts = [];
  tool_detection_thinking_parts = [];
  next_type = codes "text";
  response_message_id = 0;
}

-- Counts the lines, and stops where the line says so.
abbrev counting : ℕ → LineResult → ℕ × ParsedDecision
counting n l = (n + 1, record { stop = l.stop; stop_reason = no_reason; content_seen = true })

consume-EndsOnce_example :
    EndsOnce
      (consume two_ticks
        (some counting)
        (initial 0 0)
        (live tick 5 ∷ live (eof none) 6 ∷ [])).returned
      (consume two_ticks (some counting) (initial 0 0) (live tick 5 ∷ live (eof none) 6 ∷ [])).calls
consume-EndsOnce_example =
    consume-EndsOnce two_ticks (some counting) (initial 0 0) (live tick 5 ∷ live (eof none) 6 ∷ [])

lines_delivered_example :
    (consume two_ticks
      (some counting)
      (initial 0 0)
      (lines_then_eof ((stop_line, 1) ∷ (stop_line, 2) ∷ []) none 3)).calls
    ≡ delivered counting 0 ((stop_line, 1) ∷ (stop_line, 2) ∷ []) none
lines_delivered_example =
    lines_delivered two_ticks counting (initial 0 0) ((stop_line, 1) ∷ (stop_line, 2) ∷ []) none 3
