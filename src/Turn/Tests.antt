-- ===== src/Turn/Tests.antt =====
-- A turn that thought and said nothing.
use generalcompute2api.Prelude.Int.{pos}
use generalcompute2api.Prelude.Runs.{Ends}
use generalcompute2api.Sse.Chunk.{SkipPaths}
use generalcompute2api.Sse.Json.{Fields, field, no_fields, string}
use generalcompute2api.Sse.Read.{Grows}
use generalcompute2api.Turn.Attempt.{Thinks, collect_attempt, collect_attempt-Thinks}
use generalcompute2api.Prelude.{
  List, Option, ◌∷◌, suc, zero, some, none, ◌≡◌, refl, true, false, [],
}
use generalcompute2api.Prelude.Text.{Str, codes}
use generalcompute2api.Turn.Finish.{finalize_turn, should_retry_empty_output}
use generalcompute2api.Sse.Citations.{Links, no_links}
use generalcompute2api.Turn.Markers.{replace_citation_markers_with_links}
use generalcompute2api.Turn.{
  visible, BuildOptions, CollectResult, Services, StreamSnapshot, build_turn_from_collected,
}
use generalcompute2api.Turn.Outcomes

-- No text is a tool call.
abbrev plain : Services Str
plain = record {
  clean_visible_output = λ s. s;
  parse_standalone_tool_calls = λ s. [];
  normalize_tool_calls = λ cs. cs;
  count_prompt_tokens = λ s. 1;
  count_output_tokens = λ s. 1;
}

abbrev any_answer : BuildOptions
any_answer = record {
  prompt = codes "hi";
  ref_file_tokens = 0;
  search_enabled = true;
  tool_choice_required = false;
}

abbrev only_thought : CollectResult
only_thought = record {
  text = codes " ";
  thinking = codes "hm";
  tool_detection_thinking = [];
  content_filter = false;
  citation_links = no_links;
}

abbrev sent_markup : StreamSnapshot Str
sent_markup = record {
  raw_text = [];
  visible_text = [];
  raw_thinking = [];
  visible_thinking = [];
  detection_thinking = [];
  content_filter = false;
  citation_links = no_links;
  already_emitted_calls = false;
  additional_tool_calls = [];
  already_emitted_tool_raw = true;
}

collected_turn-Ends_example :
    Outcomes.Ends false false true
      (build_turn_from_collected plain any_answer only_thought)
      (finalize_turn (build_turn_from_collected plain any_answer only_thought) true)
collected_turn-Ends_example = Outcomes.collected_turn-Ends plain any_answer only_thought true

is_retried :
    should_retry_empty_output (build_turn_from_collected plain any_answer only_thought) 0 1 ≡ true
unfolding should_retry_empty_output build_turn_from_collected visible
is_retried = refl

-- The second source of a search.
abbrev second : Links
second (suc (suc zero)) = some (codes "http://b")
second _ = none

cited :
    replace_citation_markers_with_links (codes "a[Citation: 02] [citation:1]") second
    ≡ codes "a[2](http://b) [citation:1]"
unfolding replace_citation_markers_with_links
cited = refl

-- Where a reference counts from zero, all references do, and no citation.
counted_from_zero :
    replace_citation_markers_with_links (codes "[reference:0][REFERENCE:1][citation:2]") second
    ≡ codes "[reference:0][1](http://b)[2](http://b)"
unfolding replace_citation_markers_with_links
counted_from_zero = refl

no_digits :
    replace_citation_markers_with_links (codes "[citation: ][citation:2") second
    ≡ codes "[citation: ][citation:2"
unfolding replace_citation_markers_with_links
no_digits = refl

abbrev skips : SkipPaths
skips = record { exact = []; patterns = [] }

-- A thought, and a content.
abbrev thought : Fields
thought =
    field (codes "p") (string (codes "response/thinking_content"))
      (field (codes "v") (string (codes "hm")) no_fields)

abbrev chunk_of : Str → Option Fields
chunk_of s = some thought

abbrev answer_lines : List Str
answer_lines = codes "data: {}" ∷ codes "data: [DONE]" ∷ []

collect_attempt-Thinks_example : Ends (Grows (λ s. s)) (Thinks [] false) (
    collect_attempt
      (λ s. s)
      (λ s. s)
      skips
      chunk_of
      (λ e. [])
      (λ n. pos 0)
      plain
      any_answer
      false
      answer_lines)
collect_attempt-Thinks_example =
    collect_attempt-Thinks (λ s. s) (λ s. s) skips chunk_of (λ e. []) (λ n. pos 0) plain any_answer
      answer_lines
