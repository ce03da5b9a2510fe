-- ===== src/Sse/Pump/Tests.antt =====
-- The pump over concrete lines. A line is its text, after a letter for what it is.
use generalcompute2api.Prelude.{◌≡◌, refl, List, [], ◌∷◌, true, false, map, ◌==◌, if◌then◌else◌}
use generalcompute2api.Prelude.Runs.{Run, ok, ◌>>=◌}
use generalcompute2api.Prelude.Text.{Str, codes}
use generalcompute2api.Sse.{ContentPart, LineResult}
use generalcompute2api.Sse.Tags.{is_thinking, part, text_kind, thinking}
use generalcompute2api.Util.{rune_count_from}
use generalcompute2api.Sse.Pump.{Pump, new_pump, production_accumulate, read_line, waited}
use generalcompute2api.Sse.Pump.Steps.{process_line, run_pump}

abbrev says : List ContentPart → LineResult
says ps = record {
  parsed = true;
  stop = false;
  content_filter = false;
  error_message = [];
  parts = ps;
  tool_detection_thinking_parts = [];
  next_type = text_kind;
  response_message_id = 0;
}

abbrev thinks : Str → LineResult
thinks s = record (says (part s thinking ∷ [])) {
  tool_detection_thinking_parts = part s thinking ∷ [];
}

abbrev parse_letter : Str → LineResult
parse_letter [] = says []
parse_letter (c ∷ s) =
    if c == b't'
    then says (part s text_kind ∷ [])
    else if c == b'h'
    then thinks s
    else record (says []) { stop = true }

-- The parts of each result, and the last of them.
abbrev sent_parts : Run Pump → Run (List (List ContentPart))
sent_parts run = do st ← run; ok (map (λ (r : LineResult). r.parts) st.out)

-- Short texts are handed on in one piece.
joined :
    sent_parts (
      run_pump production_accumulate true
        (λ raw kind. ok (parse_letter raw))
        false
        (read_line (codes "tHe") ∷ read_line (codes "tllo") ∷ waited ∷ read_line (codes "t!") ∷ [])
        (new_pump text_kind []))
    ≡ ok ((part (codes "Hello") text_kind ∷ []) ∷ (part (codes "!") text_kind ∷ []) ∷ [])
unfolding run_pump process_line rune_count_from
joined = refl

-- A thought that comes right after a text and before the end is handed on after the result that stops.
late_thought :
    sent_parts (
      run_pump production_accumulate true
        (λ raw kind. ok (parse_letter raw))
        false
        (read_line (codes "tHi") ∷ read_line (codes "hhm") ∷ read_line (codes "s") ∷ [])
        (new_pump text_kind []))
    ≡ ok ((part (codes "Hi") text_kind ∷ []) ∷ [] ∷ (part (codes "hm") thinking ∷ []) ∷ [])
unfolding run_pump process_line is_thinking rune_count_from
late_thought = refl
