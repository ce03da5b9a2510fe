-- ===== src/Sse/Choices.antt =====
-- internal/sse/parser.go: what a chunk of the OpenAI API says.
use generalcompute2api.Prelude.{
  Bool, true, false, List, [], ◌∷◌, ◌++◌, Option, none, some, if◌then◌else◌,
}
use generalcompute2api.Prelude.Text.{Str, codes}
use generalcompute2api.Sse.{ContentPart}
use generalcompute2api.Sse.Json.{Fields, Items, as_object, get_field, item, object, string_field}
use generalcompute2api.Sse.Tags.{before_parts, text_kind, thinking}
use generalcompute2api.Sse.Chunk.{drop_thinking_parts}

-- What `ParseSSEChunkForContentDetailed` returns.
pub record Content : Type 0 where
  pub parts : List ContentPart
  pub detection : List ContentPart
  pub finished : Bool
  pub next_type : Str

abbrev pub no_content : Bool → Str → Content
no_content finished kind = record {
  parts = [];
  detection = [];
  finished = finished;
  next_type = kind;
}

unfoldable pub visible_parts : Bool → List ContentPart → List ContentPart
unfolding drop_thinking_parts
visible_parts thinking_enabled ps = if thinking_enabled then ps else drop_thinking_parts ps

-- The text of `key`, or where it has none, that of `other`.
unfoldable pub string_field_or : Str → Str → Fields → Str
unfolding string_field
string_field_or key other m = elim (string_field key m) [
  | c ∷ s ↦ c ∷ s
  | [] ↦ string_field other m
]

-- The parts of an OpenAI delta; the type that follows is thinking where it has some.
abbrev pub kind_after : List ContentPart → Str
kind_after [] = text_kind
kind_after (_ ∷ _) = thinking

unfoldable pub delta_content : Bool → List ContentPart → List ContentPart → Option Content
unfolding visible_parts
delta_content thinking_enabled thoughts [] = none
delta_content thinking_enabled thoughts (p ∷ ps) = some (record {
  parts = visible_parts thinking_enabled (p ∷ ps);
  detection = thoughts;
  finished = false;
  next_type = kind_after thoughts;
})

unfoldable pub parse_delta : Bool → Fields → Option Content
unfolding string_field_or delta_content
parse_delta thinking_enabled delta =
    let reasoning = string_field_or (codes "reasoning_content") (codes "reasoning") delta in
    let thoughts = before_parts reasoning thinking [] in
    delta_content thinking_enabled thoughts
      (thoughts ++ before_parts (string_field (codes "content") delta) text_kind [])

unfoldable pub parse_delta_field : Bool → Option Fields → Option Content
unfolding parse_delta
parse_delta_field thinking_enabled none = none
parse_delta_field thinking_enabled (some delta) = parse_delta thinking_enabled delta

abbrev pub unless_finished : Str → Str → Option Content → Option Content
unless_finished [] kind rest = rest
unless_finished (_ ∷ _) kind rest = some (no_content true kind)

-- The first of the choices.
unfoldable pub parse_choice : Bool → Str → Option Items → Option Content
unfolding parse_delta_field string_field get_field
parse_choice thinking_enabled kind (some (item (object choice) _)) =
    unless_finished (string_field (codes "finish_reason") choice) kind
      (parse_delta_field thinking_enabled (as_object (get_field (codes "delta") choice)))
parse_choice thinking_enabled kind _ = none
