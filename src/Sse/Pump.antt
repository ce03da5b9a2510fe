-- ===== src/Sse/Pump.antt =====
-- internal/sse/stream.go: the pump, which parses the lines of a body and hands on their parts in larger
-- pieces. The lines that are read, the ends of the waiting time and the cancelling of the context come in
-- the order in which the pump takes them.
pub mod Steps
pub mod Marks
pub mod Flushes
pub mod Kept
pub mod Stopped
pub mod Handed
pub mod Tests
use generalcompute2api.Prelude.{
  ℕ, Bool, true, false, not, ◌||◌, List, [], ◌∷◌, ◌++◌, if◌then◌else◌, ltb, ◌==◌,
}
use generalcompute2api.Prelude.Text.{Str}
use generalcompute2api.Sse.{ContentPart, LineResult}
use generalcompute2api.Sse.Tags.{before_parts, is_thinking, thinking}

-- `WordBoundary` is not read, and the length of `MaxWait` is that of the ticks.
pub record AccumulateConfig : Type 0 where
  pub enabled : Bool
  pub min_chars : ℕ
  pub flush_on_finish : Bool
  pub flush_on_newline : Bool

abbrev pub production_accumulate : AccumulateConfig
production_accumulate = record {
  enabled = true;
  min_chars = 16;
  flush_on_finish = true;
  flush_on_newline = true;
}

-- The variables of the pump. `sends` says of each send to come whether it goes through, or the context is
-- done instead; those after it go through. `out` is what was sent.
pub record Pump : Type 0 where
  pub current_type : Str
  pub text_buffer : Str
  pub thinking_buffer : Str
  pub detection_buffer : Str
  pub text_pending_type : Str
  pub thinking_pending_type : Str
  pub any_flushed : Bool
  pub pending_id : ℕ
  pub max_wait_active : Bool
  pub pump_err : Bool
  pub sends : List Bool
  pub out : List LineResult

abbrev pub new_pump : Str → List Bool → Pump
new_pump initial_type sends = record {
  current_type = initial_type;
  text_buffer = [];
  thinking_buffer = [];
  detection_buffer = [];
  text_pending_type = [];
  thinking_pending_type = [];
  any_flushed = false;
  pending_id = 0;
  max_wait_active = false;
  pump_err = false;
  sends = sends;
  out = [];
}

pub data PumpEvent : Type 0 where
  read_line : Str → PumpEvent
  waited : PumpEvent
  cancelled : PumpEvent

abbrev pub is_empty : {A : Type 0} → List A → Bool
is_empty [] = true
is_empty (_ ∷ _) = false

-- `select` between a send and the end of the context.
abbrev pub send_if : LineResult → Pump → List Bool → Pump × Bool
send_if r st [] = (record st { out = st.out ++ (r ∷ []) }, true)
send_if r st (true ∷ sends) = (record st { out = st.out ++ (r ∷ []); sends = sends }, true)
send_if r st (false ∷ sends) = (record st { pump_err = true; sends = sends }, false)

unfoldable pub send : LineResult → Pump → Pump × Bool
send r st = send_if r st st.sends

abbrev pub has_buffered_data : Pump → Bool
has_buffered_data st =
    not (is_empty st.text_buffer)
    || not (is_empty st.thinking_buffer)
    || not (is_empty st.detection_buffer)

-- The buffers as parts; a text has runes just where it is not empty.
abbrev pub pending_parts : Pump → List ContentPart
pending_parts st =
    before_parts st.thinking_buffer st.thinking_pending_type
      (before_parts st.text_buffer st.text_pending_type [])

abbrev pub flush_result : Pump → LineResult
flush_result st = record {
  parsed = true;
  stop = false;
  content_filter = false;
  error_message = [];
  parts = pending_parts st;
  tool_detection_thinking_parts = before_parts st.detection_buffer thinking [];
  next_type = st.current_type;
  response_message_id = st.pending_id;
}

-- `shouldFlushImmediate` looks for these.
abbrev pub has_line_end : Str → Bool
has_line_end [] = false
has_line_end (c ∷ s) = c == 10 || c == 13 || has_line_end s

-- The timer after a flush; a flush whose send failed leaves it.
abbrev pub with_timer : Pump × Bool → Pump
with_timer (st, true) = record st { max_wait_active = has_buffered_data st }
with_timer (st, false) = st

abbrev pub note_line : LineResult → Pump → Pump
note_line r st = record st {
  current_type = r.next_type;
  pending_id = if ltb 0 r.response_message_id then r.response_message_id else st.pending_id;
}

abbrev pub write_detection : List ContentPart → Pump → Pump
write_detection [] st = st
write_detection (p ∷ ps) st =
    write_detection ps (record st { detection_buffer = st.detection_buffer ++ p.text })

abbrev pub write_thinking : ContentPart → Pump → Pump
write_thinking p st = record st {
  thinking_buffer = st.thinking_buffer ++ p.text;
  thinking_pending_type = thinking;
}

abbrev pub write_text : ContentPart → Pump → Pump
write_text p st = record st { text_buffer = st.text_buffer ++ p.text; text_pending_type = p.type }

-- The parts of the line that ends the stream go to the buffers.
unfoldable pub write_parts : List ContentPart → Pump → Pump
unfolding is_thinking
write_parts [] st = st
write_parts (p ∷ ps) st =
    write_parts ps (if is_thinking p then write_thinking p st else write_text p st)

abbrev pub stop_result : Pump → LineResult
stop_result st = record {
  parsed = true;
  stop = true;
  content_filter = false;
  error_message = [];
  parts = [];
  tool_detection_thinking_parts = [];
  next_type = st.current_type;
  response_message_id = st.pending_id;
}
