-- ===== src/Sse/Pumped.antt =====
-- internal/sse/stream.go: the pump over the lines of line.go.
use generalcompute2api.Prelude.Int.{ℤ}
use generalcompute2api.Prelude.{Bool, true, ◌≡◌, refl, ◌∙◌, List, [], Option}
use generalcompute2api.Prelude.Runs.{Run, ok, panics, out_of_fuel, Ends, Ends-bind, Ends-ok}
use generalcompute2api.Prelude.Text.{Str}
use generalcompute2api.Sse.{LineResult}
use generalcompute2api.Sse.Json.{Fields, Json}
use generalcompute2api.Sse.Chunk.{SkipPaths}
use generalcompute2api.Sse.Parse.{parse_sse_chunk_for_content}
use generalcompute2api.Sse.Hidden.{parse_sse_chunk_for_content-Hides}
use generalcompute2api.Sse.Lines.{parse_content_chunk, parse_deepseek_content_line}
use generalcompute2api.Sse.Lifted.{each_line-Ends}
use generalcompute2api.Sse.Read.{Grows}
use generalcompute2api.Sse.Silent.{filter_leaked_content_filter_parts-Ends}
use generalcompute2api.Sse.Pump.{AccumulateConfig, PumpEvent, new_pump}
use generalcompute2api.Sse.Pump.Steps.{run_pump}
use generalcompute2api.Sse.Pump.Marks.{IsTidy, all_of, emitted, tagged}
use generalcompute2api.Sse.Pump.Stopped.{IsQuiet}
use generalcompute2api.Sse.Pump.Handed.{Said, after, run_pump-said, said, sent_by}

new_pump-IsTidy : (kind : Str) → IsTidy (new_pump kind [])
unfolding IsTidy tagged
new_pump-IsTidy kind = (refl, refl, refl)

after-new_pump : (kind : Str) (m : Run Said) → after (new_pump kind []) m ≡ m
unfolding after all_of emitted
after-new_pump kind (ok s) = refl
after-new_pump kind panics = refl
after-new_pump kind out_of_fuel = refl

module _ (to_upper to_lower : Str → Str) (skips : SkipPaths) (unmarshal : Str → Option Fields)
    (print : Json → Str) (int_of : Str → ℤ) (thinking_enabled : Bool) where
  parse_content_chunk-IsQuiet :
      (kind : Str) (m : Fields)
      → Ends (Grows to_upper) IsQuiet (
          parse_content_chunk to_upper to_lower skips unmarshal print int_of thinking_enabled kind
            m)
  unfolding parse_content_chunk
  parse_content_chunk-IsQuiet kind m =
      let content = parse_sse_chunk_for_content to_upper skips thinking_enabled kind m in
      let hidden = parse_sse_chunk_for_content-Hides to_upper skips thinking_enabled kind m in
      Ends-bind (Grows to_upper) (λ rest. content.parts ≡ [] → rest ≡ []) IsQuiet _ _
        (filter_leaked_content_filter_parts-Ends to_upper to_lower content.parts)
        (λ parts l.
          Ends-bind (Grows to_upper) (λ rest. content.detection ≡ [] → rest ≡ []) IsQuiet _ _
            (filter_leaked_content_filter_parts-Ends to_upper to_lower content.detection)
            (λ detection d.
              Ends-ok _ IsQuiet _ (λ e. let empty = hidden.2 e in (l empty.0, d empty.1), λ e. cc)))

  abbrev pub parser : Str → Str → Run LineResult
  parser raw kind =
      parse_deepseek_content_line to_upper to_lower skips unmarshal print int_of raw
        thinking_enabled kind

  pub parser-IsQuiet : (raw kind : Str) → Ends (Grows to_upper) IsQuiet (parser raw kind)
  parser-IsQuiet raw kind =
      each_line-Ends to_upper to_lower skips unmarshal print int_of (Grows to_upper) IsQuiet
        thinking_enabled kind (λ filtered message. (λ e. (refl, refl), λ e. cc))
        (λ e. cc, λ e. (refl, refl)) (λ m. parse_content_chunk-IsQuiet kind m) raw

  -- Where parts are accumulated and the context is not done: whatever the lines are and whenever the waiting
  -- time ends, what the pump has handed on in the end is just what the lines say one after the other, each
  -- read with the type that the line before leaves, thoughts and text in the same order and each byte still
  -- what it was; likewise for the detection of tools. It panics just where the reading of the lines does.
  pub new_pump-said :
      (cfg : AccumulateConfig) (failed : Bool) (es : List PumpEvent) (initial_type : Str)
      → cfg.enabled ≡ true
      → sent_by (run_pump cfg thinking_enabled parser failed es (new_pump initial_type []))
        ≡ said parser es initial_type
  new_pump-said cfg failed es initial_type enabled =
      run_pump-said cfg enabled thinking_enabled parser (Grows to_upper) parser-IsQuiet failed es
        (new_pump initial_type []) (new_pump-IsTidy initial_type)
      ∙ after-new_pump initial_type (said parser es initial_type)
