-- ===== src/Sse/Tests.antt =====
-- Chunks, lines and streams at concrete values.
use generalcompute2api.Prelude.{
  List, ℕ, Option, none, ◌≡◌, refl, [], ◌∷◌, true, false, map, leb, ◌&&◌, ◌-◌, ◌+◌, if◌then◌else◌,
  some, ◌↔◌,
}
use generalcompute2api.Prelude.Int.{pos}
use generalcompute2api.Prelude.Strings.{index}
use generalcompute2api.Prelude.Runs.{Ends}
use generalcompute2api.Prelude.Text.{Str, codes, has_prefix, trim_space}
use generalcompute2api.Sse.{is_citation}
use generalcompute2api.Sse.Json.{
  Fields, Items, Json, array, field, item, no_fields, no_items, object, string, string_field,
}
use generalcompute2api.Sse.Tags.{part, split_thinking_parts, strip_think_tags, text_kind, thinking}
use generalcompute2api.Sse.Filter.{equal_fold, has_content_filter_status, names_content_filter}
use generalcompute2api.Sse.Filtered.{NamesFilter, Within, has_content_filter_status_iff}
use generalcompute2api.Sse.Chunk.{SkipPaths, append_fragments, update_type_from_nested_response}
use generalcompute2api.Sse.Choices.{no_content, parse_choice}
use generalcompute2api.Sse.Parse.{parse_sse_chunk_for_content}
use generalcompute2api.Sse.Kinds.{IsKind-text}
use generalcompute2api.Sse.Hidden.{Hides, parse_sse_chunk_for_content-Hides}
use generalcompute2api.Sse.Lines.{parse_deepseek_content_line}
use generalcompute2api.Sse.Read.{Grows, IsLine, parse_deepseek_content_line-Ends}
use generalcompute2api.Sse.Collect.{collect_stream}
use generalcompute2api.Sse.Pump.{new_pump, production_accumulate, read_line, waited}
use generalcompute2api.Sse.Pump.Steps.{run_pump}
use generalcompute2api.Sse.Pump.Handed.{said, sent_by}
use generalcompute2api.Sse.Pumped.{new_pump-said, parser}
use generalcompute2api.Sse.Citations.{build, capture_url_and_index, ingest_chunk, new_collector}
use generalcompute2api.Sse.Mentions.{stream_mentions}
use generalcompute2api.Sse.Linked.{IsLinked, collect_stream-IsLinked}

citation : is_citation (codes "  [citation:3]") ≡ true
unfolding is_citation
citation = refl

abbrev ascii_upper : Str → Str
ascii_upper s = map (λ c. if leb 97 c && leb c 122 then c - 32 else c) s

abbrev ascii_lower : Str → Str
ascii_lower s = map (λ c. if leb 65 c && leb c 90 then c + 32 else c) s

abbrev skips : SkipPaths
skips = record {
  exact = codes "response/search_status" ∷ [];
  patterns = codes "quasi_status" ∷ codes "elapsed_secs" ∷ [];
}

abbrev fragment : Str → Str → Json
fragment type content =
    object (field (codes "type") (string type) (field (codes "content") (string content) no_fields))

-- A patch that appends a thought and an answer.
abbrev patch : Fields
patch = field (codes "p") (string (codes "response/fragments")) (
    field (codes "o") (string (codes "APPEND")) (
      field (codes "v")
        (array (
          item (fragment (codes "THINK") (codes "hm"))
            (item (fragment (codes "response") (codes "Hi")) no_items)))
        no_fields))

patch_parts : parse_sse_chunk_for_content ascii_upper skips true text_kind patch ≡ record {
  parts = part (codes "hm") thinking ∷ part (codes "Hi") text_kind ∷ [];
  detection = part (codes "hm") thinking ∷ [];
  finished = false;
  next_type = text_kind;
}
unfolding parse_sse_chunk_for_content index append_fragments update_type_from_nested_response
patch_parts = refl

-- What closes a thought in the middle of a part ends the thinking.
closed_thought :
    split_thinking_parts false (part (codes "a</ Think >b") thinking ∷ [])
    ≡ (part (codes "a") thinking ∷ part (codes "b") text_kind ∷ [], true)
unfolding split_thinking_parts
closed_thought = refl

-- Taking the tags away can leave a tag.
tag_left : strip_think_tags (codes "<<think>think>") ≡ codes "<think>"
unfolding strip_think_tags
tag_left = refl

-- The text of a delta that comes with the reason for the end.
abbrev last_choice : Items
last_choice =
    item
      (object (
        field (codes "finish_reason") (string (codes "stop")) (
          field (codes "delta") (object (field (codes "content") (string (codes "!")) no_fields))
            no_fields)))
      no_items

last_text_lost : parse_choice true text_kind (some last_choice) ≡ some (no_content true text_kind)
unfolding parse_choice
last_text_lost = refl

parse_sse_chunk_for_content-Hides_example :
    Hides false (parse_sse_chunk_for_content ascii_upper skips false text_kind patch)
parse_sse_chunk_for_content-Hides_example =
    parse_sse_chunk_for_content-Hides ascii_upper skips false text_kind patch

parse_deepseek_content_line-Ends_example : Ends (Grows ascii_upper) IsLine (
    parse_deepseek_content_line ascii_upper ascii_lower skips
      (λ s. some patch)
      (λ e. [])
      (λ n. pos 0)
      (codes "data: {}")
      true
      text_kind)
parse_deepseek_content_line-Ends_example =
    parse_deepseek_content_line-Ends ascii_upper ascii_lower skips (λ s. some patch) (λ e. [])
      (λ n. pos 0) (codes "data: {}") true text_kind IsKind-text

abbrev filtered : Fields
filtered =
    field (codes "v")
      (array (
        item
          (object (
            field (codes "p") (string (codes "Status"))
              (field (codes "v") (string (codes " Content_Filter")) no_fields)))
          no_items))
      no_fields

filtered_test : has_content_filter_status ascii_lower filtered ≡ true
unfolding has_content_filter_status equal_fold trim_space string_field names_content_filter index
    has_prefix
filtered_test = refl

has_content_filter_status_iff_example :
    (has_content_filter_status ascii_lower filtered ≡ true)
    ↔ ((m : Fields) × Within m (object filtered) × NamesFilter ascii_lower m)
has_content_filter_status_iff_example = has_content_filter_status_iff ascii_lower filtered

new_pump-said_example :
    sent_by (
      run_pump production_accumulate true
        (parser ascii_upper ascii_lower skips (λ s. some patch) (λ e. []) (λ n. pos 0) true)
        false
        (read_line (codes "data: {}") ∷ waited ∷ read_line (codes "data: [DONE]") ∷ [])
        (new_pump text_kind []))
    ≡ said
        (parser ascii_upper ascii_lower skips (λ s. some patch) (λ e. []) (λ n. pos 0) true)
        (read_line (codes "data: {}") ∷ waited ∷ read_line (codes "data: [DONE]") ∷ [])
        text_kind
new_pump-said_example =
    new_pump-said ascii_upper ascii_lower skips (λ s. some patch) (λ e. []) (λ n. pos 0) true
      production_accumulate false
      (read_line (codes "data: {}") ∷ waited ∷ read_line (codes "data: [DONE]") ∷ []) text_kind refl

abbrev source : Str → Str → Json
source url index =
    object (field (codes "url") (string url) (field (codes "cite_index") (string index) no_fields))

-- Two sources that count from 0, and one without an index.
abbrev citing : Fields
citing =
    field (codes "v")
      (array (
        item (source (codes "https://a") (codes "0")) (
          item (source (codes " https://b") (codes "1"))
            (item (source (codes "HTTP://c") (codes "")) no_items))))
      no_fields

abbrev cited : ℕ → Option Str
unfolding build ingest_chunk
cited = build (ingest_chunk ascii_lower (λ n. pos 0) citing new_collector)

cited_test :
    (cited 0 ≡ none)
    × (cited 1 ≡ some (codes "https://a"))
    × (cited 2 ≡ some (codes "https://b"))
    × (cited 3 ≡ some (codes "HTTP://c"))
unfolding cited build ingest_chunk capture_url_and_index
cited_test = (refl, refl, refl, refl)

abbrev citing_lines : List Str
citing_lines = codes "data: {}" ∷ codes "data: [DONE]" ∷ []

collect_stream-IsLinked_example :
    Ends
      (Grows ascii_upper)
      (IsLinked (stream_mentions ascii_lower (λ n. pos 0) (λ s. some citing) citing_lines))
      (collect_stream ascii_upper ascii_lower skips
        (λ s. some citing)
        (λ e. [])
        (λ n. pos 0)
        false
        citing_lines)
collect_stream-IsLinked_example =
    collect_stream-IsLinked ascii_upper ascii_lower skips (λ s. some citing) (λ e. []) (λ n. pos 0)
      false refl citing_lines
