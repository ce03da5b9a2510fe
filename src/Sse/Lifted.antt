-- ===== src/Sse/Lifted.antt =====
-- internal/sse/line.go: what holds of each line.
use generalcompute2api.Prelude.Int.{ℤ}
use generalcompute2api.Prelude.{Bool, true, false, ◌||◌, [], Option, none, some}
use generalcompute2api.Prelude.Runs.{Ends, Ends-if, Ends-ok}
use generalcompute2api.Prelude.Text.{Str, codes, str_eq}
use generalcompute2api.Sse.{LineResult}
use generalcompute2api.Sse.Json.{Fields, Json, get_field, string_field}
use generalcompute2api.Sse.Filter.{has_content_filter_status}
use generalcompute2api.Sse.Chunk.{SkipPaths}
use generalcompute2api.Sse.Lines.{
  Line, chunk, done, parse_chunk, parse_content_chunk, parse_deepseek_content_line,
  parse_deepseek_sse_line, parse_line, stopped_line, unparsed, unparsed_line,
}

-- A property of lines that holds of those without content, and of those with content up to a panic if `X`.
module _ (to_upper to_lower : Str → Str) (skips : SkipPaths) (unmarshal : Str → Option Fields)
    (print : Json → Str) (int_of : Str → ℤ) (X : Type 0) (Q : LineResult → Type 0)
    (thinking_enabled : Bool) (kind : Str)
    (of_stopped : (filtered : Bool) (message : Str) → Q (stopped_line filtered message kind))
    (of_unparsed : Q (unparsed_line kind))
    (of_content : (m : Fields)
      → Ends X Q (
          parse_content_chunk to_upper to_lower skips unmarshal print int_of thinking_enabled kind
            m)) where
  parse_chunk-Ends :
      (m : Fields) (e : Option Json)
      → Ends X Q
          (parse_chunk to_upper to_lower skips unmarshal print int_of thinking_enabled kind m e)
  unfolding parse_chunk
  parse_chunk-Ends m (some e) =
      Ends-ok X Q (stopped_line false (print e) kind) (of_stopped false (print e))
  parse_chunk-Ends m none =
      Ends-if X Q
        (str_eq (string_field (codes "code") m) (codes "content_filter")
          || has_content_filter_status to_lower m)
        _ _ (λ b. Ends-ok X Q (stopped_line true [] kind) (of_stopped true [])) (λ b. of_content m)

  parse_line-Ends :
      (line : Line)
      → Ends X Q
          (parse_line to_upper to_lower skips unmarshal print int_of thinking_enabled kind line)
  unfolding parse_line
  parse_line-Ends unparsed = Ends-ok X Q (unparsed_line kind) of_unparsed
  parse_line-Ends done = Ends-ok X Q (stopped_line false [] kind) (of_stopped false [])
  parse_line-Ends (chunk m) = parse_chunk-Ends m (get_field (codes "error") m)

  pub each_line-Ends :
      (raw : Str)
      → Ends X Q (
          parse_deepseek_content_line to_upper to_lower skips unmarshal print int_of raw
            thinking_enabled kind)
  unfolding parse_deepseek_content_line
  each_line-Ends raw = parse_line-Ends (parse_deepseek_sse_line unmarshal raw)
