-- ===== src/Accumulator.antt =====
-- internal/httpapi/openai/shared: what a stream has said so far (stream_accumulator.go, output_clean.go).
-- The two clean-up passes that are regular expressions are parameters.
pub mod Deltas
pub mod Lines
pub mod Tests
use generalcompute2api.Prelude.{
  ℕ, Bool, true, false, not, ◌&&◌, ◌||◌, List, [], ◌∷◌, ◌++◌, if◌then◌else◌,
}
use generalcompute2api.Prelude.Text.{Str, codes, str_eq}
use generalcompute2api.Sse.{
  ContentPart, LineResult, is_citation, trim_continuation_overlap_from_builder,
}

pub record StreamAccumulator : Type 0 where
  pub thinking_enabled : Bool
  pub search_enabled : Bool
  pub strip_reference_markers : Bool
  pub raw_thinking : Str
  pub thinking : Str
  pub tool_detection_thinking : Str
  pub raw_text : Str
  pub text : Str

-- The `Type` of a delta, "thinking" or "text".
pub data Kind : Type 0 where
  thinking_kind text_kind : Kind

pub record StreamPartDelta : Type 0 where
  pub type : Kind
  pub raw_text : Str
  pub visible_text : Str
  pub citation_only : Bool

pub record StreamAccumulatorResult : Type 0 where
  pub content_seen : Bool
  pub parts : List StreamPartDelta

abbrev pub is_empty : Str → Bool
is_empty [] = true
is_empty (c ∷ s) = false

abbrev pub delta_of : Kind → Str → Str → Bool → StreamPartDelta
delta_of kind raw visible citation = record {
  type = kind;
  raw_text = raw;
  visible_text = visible;
  citation_only = citation;
}

-- The loop over the tool detection parts.
unfoldable pub observe_tool_detection : StreamAccumulator → List ContentPart → StreamAccumulator
observe_tool_detection a [] = a
observe_tool_detection a (p ∷ ps) =
    observe_tool_detection
      (record a {
        tool_detection_thinking =
            a.tool_detection_thinking
            ++ trim_continuation_overlap_from_builder a.tool_detection_thinking p.text;
      })
      ps

-- What the client sees of a text: `textclean.StripReferenceMarkers` and `sanitizeLeakedOutput`.
pub record Cleaner : Type 0 where
  pub strip_reference_markers : Str → Str
  pub sanitize_leaked_output : Str → Str

unfoldable pub clean_visible_output : Cleaner → Str → Bool → Str
clean_visible_output c [] strip = []
clean_visible_output c (x ∷ s) strip =
    c.sanitize_leaked_output (if strip then c.strip_reference_markers (x ∷ s) else x ∷ s)

-- The visible part of a thinking chunk, once its raw part is kept.
abbrev pub show_thinking : StreamAccumulator → Str → Str → StreamAccumulator × StreamPartDelta
show_thinking a raw visible =
    (record a { thinking = a.thinking ++ visible }, delta_of thinking_kind raw visible false)

unfoldable pub apply_thinking_part :
    Cleaner → StreamAccumulator → Str → StreamAccumulator × StreamPartDelta
apply_thinking_part c a chunk =
    let raw = trim_continuation_overlap_from_builder a.raw_thinking chunk in
    let kept = record a { raw_thinking = a.raw_thinking ++ raw } in
    let cleaned = clean_visible_output c raw a.strip_reference_markers in
    if not a.thinking_enabled || is_empty raw
    then (kept, delta_of thinking_kind raw [] false)
    else show_thinking kept raw (trim_continuation_overlap_from_builder a.thinking cleaned)

unfoldable pub apply_text_part :
    Cleaner → StreamAccumulator → Str → StreamAccumulator × StreamPartDelta
apply_text_part c a chunk =
    let raw = trim_continuation_overlap_from_builder a.raw_text chunk in
    let kept = record a { raw_text = a.raw_text ++ raw } in
    let cleaned = clean_visible_output c raw a.strip_reference_markers in
    let visible = trim_continuation_overlap_from_builder a.text cleaned in
    if is_empty raw
    then (a, delta_of text_kind [] [] false)
    else if a.search_enabled && is_citation raw
    then (kept, delta_of text_kind raw [] true)
    else (record kept { text = a.text ++ visible }, delta_of text_kind raw visible false)

-- `apply…Part` by the type of the part.
unfoldable pub apply_part :
    Cleaner → StreamAccumulator → ContentPart → StreamAccumulator × StreamPartDelta
unfolding apply_thinking_part apply_text_part
apply_part c a p =
    if str_eq p.type (codes "thinking")
    then apply_thinking_part c a p.text
    else apply_text_part c a p.text

-- Whether the delta is passed on. A thinking delta is never a citation.
abbrev pub is_kept : StreamPartDelta → Bool
is_kept d = not (is_empty d.raw_text) || not (is_empty d.visible_text) || d.citation_only

abbrev pub add_delta : StreamPartDelta → StreamAccumulatorResult → StreamAccumulatorResult
add_delta d out = record {
  content_seen = not (is_empty d.raw_text) || out.content_seen;
  parts = if is_kept d then d ∷ out.parts else out.parts;
}

unfoldable pub apply_parts :
    Cleaner → StreamAccumulator → List ContentPart → StreamAccumulator × StreamAccumulatorResult
apply_parts c a [] = (a, record { content_seen = false; parts = [] })
apply_parts c a (p ∷ ps) =
    let (b, d) = apply_part c a p in let (e, out) = apply_parts c b ps in (e, add_delta d out)

unfoldable pub apply :
    Cleaner → StreamAccumulator → LineResult → StreamAccumulator × StreamAccumulatorResult
unfolding apply_parts observe_tool_detection
apply c a parsed =
    apply_parts c (observe_tool_detection a parsed.tool_detection_thinking_parts) parsed.parts

-- The lines of a stream, and all that was passed on to the client.
unfoldable pub apply_all :
    Cleaner → StreamAccumulator → List LineResult → StreamAccumulator × List StreamPartDelta
apply_all c a [] = (a, [])
apply_all c a (l ∷ ls) =
    let (b, out) = apply c a l in let (e, more) = apply_all c b ls in (e, out.parts ++ more)
