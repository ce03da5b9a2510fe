-- ===== src/Sse/Collect.antt =====
-- internal/sse/consumer.go: `CollectStream` over the lines of a response.
use generalcompute2api.Prelude.Int.{ℤ}
use generalcompute2api.Prelude.{
  ℕ, Bool, true, false, not, ◌||◌, Option, List, [], ◌∷◌, ◌++◌, if◌then◌else◌,
}
use generalcompute2api.Prelude.Runs.{Run, ok, ◌>>=◌}
use generalcompute2api.Prelude.Text.{Str}
use generalcompute2api.Sse.{ContentPart, LineResult, trim_continuation_overlap}
use generalcompute2api.Sse.Json.{Fields, Json}
use generalcompute2api.Sse.Tags.{is_thinking, text_kind, thinking}
use generalcompute2api.Sse.Chunk.{SkipPaths}
use generalcompute2api.Sse.Citations.{Collector, build, ingest_chunk, new_collector}
use generalcompute2api.Sse.Lines.{
  Line, chunk, done, later_id, observe_response_message_id, parse_deepseek_content_line,
  parse_deepseek_sse_line,
}

-- The variables of the loop.
pub record Collected : Type 0 where
  pub text : Str
  pub thoughts : Str
  pub tool_detection_thinking : Str
  pub content_filter : Bool
  pub stopped : Bool
  pub response_message_id : ℕ
  pub current_type : Str
  pub citations : Collector

abbrev pub new_collected : Bool → Collected
new_collected thinking_enabled = record {
  text = [];
  thoughts = [];
  tool_detection_thinking = [];
  content_filter = false;
  stopped = false;
  response_message_id = 0;
  current_type = if thinking_enabled then thinking else text_kind;
  citations = new_collector;
}

unfoldable pub append_trimmed : Str → Str → Str
unfolding trim_continuation_overlap
append_trimmed text incoming = text ++ trim_continuation_overlap text incoming

unfoldable pub collect_parts : List ContentPart → Collected → Collected
unfolding is_thinking append_trimmed
collect_parts [] c = c
collect_parts (p ∷ ps) c = collect_parts ps (
    if is_thinking p
    then record c { thoughts = append_trimmed c.thoughts p.text }
    else record c { text = append_trimmed c.text p.text })

unfoldable pub collect_detection : List ContentPart → Str → Str
unfolding append_trimmed
collect_detection [] s = s
collect_detection (p ∷ ps) s = collect_detection ps (append_trimmed s p.text)

-- What a line says, for a stream that is not stopped.
unfoldable pub collect_result : LineResult → Collected → Collected
unfolding collect_parts collect_detection
collect_result r c =
    let typed = record c { current_type = r.next_type } in
    if not r.parsed
    then typed
    else if r.stop
    then record typed { stopped = true; content_filter = c.content_filter || r.content_filter }
    else collect_parts r.parts (record typed {
      tool_detection_thinking =
          collect_detection r.tool_detection_thinking_parts c.tool_detection_thinking;
    })

unfoldable pub observe_line : (Str → Str) → (Str → ℤ) → Line → Collected → Collected
unfolding observe_response_message_id ingest_chunk
observe_line to_lower int_of (chunk m) c = record c {
  citations = ingest_chunk to_lower int_of m c.citations;
  response_message_id = later_id (observe_response_message_id int_of m) c.response_message_id;
}
observe_line to_lower int_of _ c = c

abbrev pub is_done : Line → Bool
is_done done = true
is_done _ = false

module _ (to_upper to_lower : Str → Str) (skips : SkipPaths) (unmarshal : Str → Option Fields)
    (print : Json → Str) (int_of : Str → ℤ) (thinking_enabled : Bool) where
  -- The scan of the lines.
  unfoldable pub collect_lines : List Str → Collected → Run Collected
  unfolding collect_result observe_line parse_deepseek_content_line parse_deepseek_sse_line
  collect_lines [] c = ok c
  collect_lines (raw ∷ lines) c =
      let line = parse_deepseek_sse_line unmarshal raw in
      let seen = observe_line to_lower int_of line c in
      let stopped = collect_lines lines seen in
      if is_done line then ok c else if c.stopped then stopped else (do
        r ←
            parse_deepseek_content_line to_upper to_lower skips unmarshal print int_of raw
              thinking_enabled c.current_type
        collect_lines lines (collect_result r seen))

  unfoldable pub collect_stream : List Str → Run Collected
  unfolding collect_lines
  collect_stream lines = collect_lines lines (new_collected thinking_enabled)

-- `collector.build()` at the end.
unfoldable pub citation_links : Collected → ℕ → Option Str
unfolding build
citation_links c = build c.citations
