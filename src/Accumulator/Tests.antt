-- ===== src/Accumulator/Tests.antt =====
-- A stream whose second line replays the first, accumulated.
use generalcompute2api.Prelude.{◌≡◌, refl, [], ◌∷◌, ◌++◌, List, true, false}
use generalcompute2api.Prelude.Text.{Str, codes, str_eq}
use generalcompute2api.Util.{rune_count_from}
use generalcompute2api.Sse.{
  ContentPart, LineResult, is_citation, trim_continuation_overlap_from_builder,
}
use generalcompute2api.Accumulator.{
  clean_visible_output, apply_part, apply, Cleaner, StreamAccumulator, apply_all,
}
use generalcompute2api.Accumulator.Deltas.{GrowsBy}
use generalcompute2api.Accumulator.Lines.{apply_all-GrowsBy}

abbrev keep_all : Cleaner
keep_all = record { strip_reference_markers = λ s. s; sanitize_leaked_output = λ s. s }

abbrev nothing_said : StreamAccumulator
nothing_said = record {
  thinking_enabled = true;
  search_enabled = true;
  strip_reference_markers = true;
  raw_thinking = [];
  thinking = [];
  tool_detection_thinking = [];
  raw_text = [];
  text = [];
}

abbrev line_of : List ContentPart → LineResult
line_of ps = record {
  parsed = true;
  stop = false;
  content_filter = false;
  error_message = [];
  parts = ps;
  tool_detection_thinking_parts = [];
  next_type = codes "text";
  response_message_id = 0;
}

abbrev text_part : Str → ContentPart
text_part s = record { text = s; type = codes "text" }

abbrev said : Str
said = codes "The quick brown fox jumps over the dog"

abbrev the_lines : List LineResult
the_lines =
    line_of (record { text = codes "hm"; type = codes "thinking" } ∷ text_part said ∷ [])
    ∷ line_of (text_part (said ++ codes " and runs") ∷ text_part (codes "[citation:1]") ∷ [])
    ∷ []

kept_text :
    ((apply_all keep_all nothing_said the_lines).0.text ≡ said ++ codes " and runs")
    × ((apply_all keep_all nothing_said the_lines).0.thinking ≡ codes "hm")
unfolding apply_all apply apply_part str_eq trim_continuation_overlap_from_builder is_citation
    rune_count_from clean_visible_output
kept_text = (refl, refl)

apply_all-GrowsBy_example :
    GrowsBy nothing_said
      (apply_all keep_all nothing_said the_lines).0
      (apply_all keep_all nothing_said the_lines).1
apply_all-GrowsBy_example = apply_all-GrowsBy keep_all nothing_said the_lines
