-- ===== src/Sse/Lines.antt =====
-- internal/sse/line.go, with `ParseDeepSeekSSELine` of parser.go, content_filter_leak.go and
-- `observeResponseMessageID` of consumer.go: what one line of the stream says. strings.ToUpper,
-- strings.ToLower, json.Unmarshal into an object, the text that fmt prints for a value and the whole number
-- that a JSON number is cut to are arguments.
use generalcompute2api.Prelude.Int.{ℤ, pos}
use generalcompute2api.Prelude.{
  ℕ, zero, suc, Bool, true, false, List, [], ◌∷◌, Option, none, some, if◌then◌else◌, drop, ◌||◌,
  ◌==◌,
}
use generalcompute2api.Prelude.Runs.{Run, ok, slice_to, ◌>>=◌}
use generalcompute2api.Prelude.Strings.{contains, index, trim_right_where}
use generalcompute2api.Prelude.Text.{Str, codes, has_prefix, str_eq, trim_space}
use generalcompute2api.Sse.{ContentPart, LineResult}
use generalcompute2api.Sse.Json.{
  Fields, Json, number, no_fields, as_object, get_field, string_field,
}
use generalcompute2api.Sse.Filter.{has_content_filter_status}
use generalcompute2api.Sse.Chunk.{SkipPaths}
use generalcompute2api.Sse.Parse.{parse_sse_chunk_for_content}

pub data Line : Type 0 where
  unparsed : Line
  done : Line
  chunk : Fields → Line

abbrev pub line_of : Option Fields → Line
line_of none = unparsed
line_of (some m) = chunk m

unfoldable pub parse_deepseek_sse_line : (Str → Option Fields) → Str → Line
unfolding has_prefix str_eq trim_space
parse_deepseek_sse_line unmarshal raw =
    let line = trim_space raw in
    let data_str = trim_space (drop 5 line) in
    if has_prefix line (codes "data:")
    then (if str_eq data_str (codes "[DONE]") then done else line_of (unmarshal data_str))
    else unparsed

unfoldable pub should_drop_cleaned_leaked_chunk : Str → Bool
unfolding trim_space
should_drop_cleaned_leaked_chunk [] = true
should_drop_cleaned_leaked_chunk (c ∷ s) =
    if contains (c ∷ s) (codes "\n") then false else str_eq (trim_space (c ∷ s)) []

abbrev pub is_blank : ℕ → Bool
is_blank c = c == 32 || c == 9 || c == 13

-- A part with its text cut before the marker, unless nothing is left that is to be kept.
unfoldable pub before_cleaned : Str → Str → List ContentPart → List ContentPart
unfolding should_drop_cleaned_leaked_chunk
before_cleaned cleaned kind ps =
    if should_drop_cleaned_leaked_chunk cleaned
    then ps
    else record { text = cleaned; type = kind } ∷ ps

abbrev pub at_least_zero : ℤ → ℕ
at_least_zero (pos n) = n
at_least_zero _ = 0

-- `util.IntFrom`, where a number below 0 counts as none.
abbrev pub int_from : (Str → ℤ) → Option Json → ℕ
int_from int_of (some (number n)) = at_least_zero (int_of n)
int_from int_of _ = 0

abbrev pub later_id : ℕ → ℕ → ℕ
later_id zero earlier = earlier
later_id (suc n) earlier = suc n

-- `m, _ := v[key].(map[string]any)`, where a missing object has no fields.
unfoldable pub object_field : Str → Fields → Fields
unfolding get_field
object_field key m = elim (as_object (get_field key m)) [ none ↦ no_fields | some o ↦ o ]

unfoldable pub observe_response_message_id : (Str → ℤ) → Fields → ℕ
unfolding get_field object_field
observe_response_message_id int_of m =
    let id_of = λ (response : Fields). int_from int_of (get_field (codes "message_id") response) in
    later_id (id_of (object_field (codes "response") (object_field (codes "message") m))) (
      later_id (id_of (object_field (codes "response") (object_field (codes "v") m)))
        (int_from int_of (get_field (codes "response_message_id") m)))

abbrev pub stopped_line : Bool → Str → Str → LineResult
stopped_line content_filter message kind = record {
  parsed = true;
  stop = true;
  content_filter = content_filter;
  error_message = message;
  parts = [];
  tool_detection_thinking_parts = [];
  next_type = kind;
  response_message_id = 0;
}

abbrev pub unparsed_line : Str → LineResult
unparsed_line kind = record {
  parsed = false;
  stop = false;
  content_filter = false;
  error_message = [];
  parts = [];
  tool_detection_thinking_parts = [];
  next_type = kind;
  response_message_id = 0;
}

-- `strings.TrimRight(text[:idx], " \t\r")`.
unfoldable pub cut_before : Str → Option ℕ → Run (Option Str)
unfolding trim_right_where
cut_before text none = ok none
cut_before text (some idx) = do cut ← slice_to idx text; ok (some (trim_right_where is_blank cut))

unfoldable pub keep_part : ContentPart → Option Str → List ContentPart → List ContentPart
unfolding before_cleaned
keep_part p none ps = p ∷ ps
keep_part p (some cleaned) ps = before_cleaned cleaned p.type ps

module _ (to_upper to_lower : Str → Str) where
  -- The text up to the marker, if there is one.
  unfoldable pub strip_leaked_content_filter_suffix : Str → Run (Option Str)
  unfolding index cut_before
  strip_leaked_content_filter_suffix [] = ok none
  strip_leaked_content_filter_suffix (c ∷ s) =
      cut_before (c ∷ s) (index (to_upper (c ∷ s)) (codes "CONTENT_FILTER"))

  unfoldable pub filter_leaked_content_filter_parts : List ContentPart → Run (List ContentPart)
  unfolding strip_leaked_content_filter_suffix keep_part
  filter_leaked_content_filter_parts [] = ok []
  filter_leaked_content_filter_parts (p ∷ ps) = do
    cleaned ← strip_leaked_content_filter_suffix p.text
    rest ← filter_leaked_content_filter_parts ps
    ok (keep_part p cleaned rest)

  module _ (skips : SkipPaths) (unmarshal : Str → Option Fields) (print : Json → Str)
      (int_of : Str → ℤ) where
    -- A chunk that is no error and does not tell of the content filter.
    unfoldable pub parse_content_chunk : Bool → Str → Fields → Run LineResult
    unfolding filter_leaked_content_filter_parts parse_sse_chunk_for_content
        observe_response_message_id
    parse_content_chunk thinking_enabled kind m = do
      let content = parse_sse_chunk_for_content to_upper skips thinking_enabled kind m
      parts ← filter_leaked_content_filter_parts content.parts
      detection ← filter_leaked_content_filter_parts content.detection
      ok (record {
        parsed = true;
        stop = content.finished;
        content_filter = false;
        error_message = [];
        parts = parts;
        tool_detection_thinking_parts = detection;
        next_type = content.next_type;
        response_message_id = observe_response_message_id int_of m;
      })

    unfoldable pub parse_chunk : Bool → Str → Fields → Option Json → Run LineResult
    unfolding parse_content_chunk has_content_filter_status string_field str_eq
    parse_chunk thinking_enabled kind m (some e) = ok (stopped_line false (print e) kind)
    parse_chunk thinking_enabled kind m none =
        if str_eq (string_field (codes "code") m) (codes "content_filter")
          || has_content_filter_status to_lower m
        then ok (stopped_line true [] kind)
        else parse_content_chunk thinking_enabled kind m

    unfoldable pub parse_line : Bool → Str → Line → Run LineResult
    unfolding parse_chunk get_field
    parse_line thinking_enabled kind unparsed = ok (unparsed_line kind)
    parse_line thinking_enabled kind done = ok (stopped_line false [] kind)
    parse_line thinking_enabled kind (chunk m) =
        parse_chunk thinking_enabled kind m (get_field (codes "error") m)

    unfoldable pub parse_deepseek_content_line : Str → Bool → Str → Run LineResult
    unfolding parse_line parse_deepseek_sse_line
    parse_deepseek_content_line raw thinking_enabled current_type =
        parse_line thinking_enabled current_type (parse_deepseek_sse_line unmarshal raw)
