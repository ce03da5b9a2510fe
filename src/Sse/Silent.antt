-- ===== src/Sse/Silent.antt =====
-- internal/sse/consumer.go: what a stream without thinking, and one that has stopped, is collected into.
use generalcompute2api.Prelude.Int.{ℤ}
use generalcompute2api.Prelude.{
  Bool, true, false, not, ◌≡◌, refl, ◌∙◌, ap, List, [], ◌∷◌, if◌then◌else◌, Option, none, some,
  both_branches,
}
use generalcompute2api.Prelude.Runs.{Ends, Ends-bind, Ends-if, Ends-map, Ends-ok}
use generalcompute2api.Prelude.Text.{Str}
use generalcompute2api.Sse.{ContentPart, LineResult}
use generalcompute2api.Sse.Json.{Fields, Json}
use generalcompute2api.Sse.Tags.{is_thinking}
use generalcompute2api.Sse.Chunk.{SkipPaths}
use generalcompute2api.Sse.Parse.{parse_sse_chunk_for_content}
use generalcompute2api.Sse.Hidden.{AllThinking, parse_sse_chunk_for_content-Hides}
use generalcompute2api.Sse.Lifted.{each_line-Ends}
use generalcompute2api.Sse.Lines.{
  Line, before_cleaned, chunk, done, filter_leaked_content_filter_parts, keep_part,
  parse_content_chunk, parse_deepseek_content_line, parse_deepseek_sse_line,
  should_drop_cleaned_leaked_chunk, unparsed,
}
use generalcompute2api.Sse.Read.{Grows, strip_leaked_content_filter_suffix-Ends}
use generalcompute2api.Sse.Collect.{
  Collected, append_trimmed, collect_lines, collect_parts, collect_result, collect_stream, is_done,
  new_collected, observe_line,
}

keep_part-AllThinking :
    (p : ContentPart) (cleaned : Option Str) (ps : List ContentPart)
    → is_thinking p ≡ false
    → AllThinking false ps
    → AllThinking false (keep_part p cleaned ps)
unfolding keep_part before_cleaned is_thinking
keep_part-AllThinking p none ps k h = (k, h)
keep_part-AllThinking p (some cleaned) ps k h =
    both_branches (AllThinking false) (should_drop_cleaned_leaked_chunk cleaned) h (k, h)

-- No part of the line is thinking.
abbrev SaysNoThought : LineResult → Type 0
SaysNoThought r = AllThinking false r.parts

-- Nothing was thought.
abbrev pub HasNoThought : Collected → Type 0
HasNoThought c = c.thoughts ≡ []

collect_parts-thoughts :
    (ps : List ContentPart) (c : Collected)
    → AllThinking false ps
    → (collect_parts ps c).thoughts ≡ c.thoughts
unfolding collect_parts
collect_parts-thoughts [] c h = refl
collect_parts-thoughts (p ∷ ps) c h =
    collect_parts-thoughts ps _ h.1
    ∙ ap
        (λ b.
          (if b
            then record c { thoughts = append_trimmed c.thoughts p.text }
            else record c { text = append_trimmed c.text p.text }).thoughts)
        h.0

collect_result-HasNoThought :
    (r : LineResult) (c : Collected)
    → SaysNoThought r
    → HasNoThought c
    → HasNoThought (collect_result r c)
unfolding collect_result
collect_result-HasNoThought r c s h =
    both_branches HasNoThought (not r.parsed) h
      (both_branches HasNoThought r.stop h (collect_parts-thoughts r.parts _ s ∙ h))

observe_line-HasNoThought :
    (to_lower : Str → Str) (int_of : Str → ℤ) (line : Line) (c : Collected)
    → HasNoThought c
    → HasNoThought (observe_line to_lower int_of line c)
unfolding observe_line
observe_line-HasNoThought to_lower int_of (chunk m) c h = h
observe_line-HasNoThought to_lower int_of _ c h = h

-- Two collections with the same texts and the same mark of the content filter.
abbrev pub SaysTheSame : Collected → Collected → Type 0
SaysTheSame c d =
    (d.text ≡ c.text)
    × (d.thoughts ≡ c.thoughts)
    × (d.tool_detection_thinking ≡ c.tool_detection_thinking)
    × (d.content_filter ≡ c.content_filter)

observe_line-kept :
    (to_lower : Str → Str) (int_of : Str → ℤ) (line : Line) (c : Collected)
    → SaysTheSame c (observe_line to_lower int_of line c)
      × ((observe_line to_lower int_of line c).stopped ≡ c.stopped)
unfolding observe_line
observe_line-kept to_lower int_of (chunk m) c = ((refl, refl, refl, refl), refl)
observe_line-kept to_lower int_of unparsed c = ((refl, refl, refl, refl), refl)
observe_line-kept to_lower int_of done c = ((refl, refl, refl, refl), refl)

module _ (to_upper to_lower : Str → Str) where
  filter_leaked_content_filter_parts-AllThinking :
      (ps : List ContentPart)
      → AllThinking false ps
      → Ends
          (Grows to_upper)
          (AllThinking false)
          (filter_leaked_content_filter_parts to_upper to_lower ps)
  unfolding filter_leaked_content_filter_parts
  filter_leaked_content_filter_parts-AllThinking [] h = Ends-ok _ (AllThinking false) [] tt
  filter_leaked_content_filter_parts-AllThinking (p ∷ ps) h =
      Ends-bind (Grows to_upper) (λ _. Unit {0}) (AllThinking false) _ _
        (strip_leaked_content_filter_suffix-Ends to_upper to_lower p.text)
        (λ cleaned u.
          Ends-bind (Grows to_upper) (AllThinking false) (AllThinking false) _ _
            (filter_leaked_content_filter_parts-AllThinking ps h.1)
            (λ rest l.
              Ends-ok _ (AllThinking false) _ (keep_part-AllThinking p cleaned rest h.0 l)))

  -- Where there are no parts, none is left.
  pub filter_leaked_content_filter_parts-Ends :
      (ps : List ContentPart)
      → Ends
          (Grows to_upper)
          (λ rest. ps ≡ [] → rest ≡ [])
          (filter_leaked_content_filter_parts to_upper to_lower ps)
  unfolding filter_leaked_content_filter_parts
  filter_leaked_content_filter_parts-Ends [] =
      Ends-ok _ (λ rest. [] ≡ [] → rest ≡ []) [] (λ e. refl)
  filter_leaked_content_filter_parts-Ends (p ∷ ps) =
      Ends-bind (Grows to_upper) (λ _. Unit {0}) (λ rest. p ∷ ps ≡ [] → rest ≡ []) _ _
        (strip_leaked_content_filter_suffix-Ends to_upper to_lower p.text)
        (λ cleaned u.
          Ends-bind (Grows to_upper) (λ rest. ps ≡ [] → rest ≡ []) (λ rest. p ∷ ps ≡ [] → rest ≡ [])
            _ _ (filter_leaked_content_filter_parts-Ends ps)
            (λ rest l. Ends-ok _ (λ rest. p ∷ ps ≡ [] → rest ≡ []) _ (λ e. cc)))

  module _ (skips : SkipPaths) (unmarshal : Str → Option Fields) (print : Json → Str)
      (int_of : Str → ℤ) where
    parse_content_chunk-SaysNoThought :
        (kind : Str) (m : Fields)
        → Ends
            (Grows to_upper)
            SaysNoThought
            (parse_content_chunk to_upper to_lower skips unmarshal print int_of false kind m)
    unfolding parse_content_chunk
    parse_content_chunk-SaysNoThought kind m =
        let content = parse_sse_chunk_for_content to_upper skips false kind m in
        let hidden = parse_sse_chunk_for_content-Hides to_upper skips false kind m in
        Ends-bind (Grows to_upper) (AllThinking false) SaysNoThought _ _
          (filter_leaked_content_filter_parts-AllThinking content.parts hidden.0)
          (λ parts l.
            Ends-bind (Grows to_upper) (λ rest. content.detection ≡ [] → rest ≡ []) SaysNoThought _
              _ (filter_leaked_content_filter_parts-Ends content.detection)
              (λ detection d. Ends-ok _ SaysNoThought _ l))

    parse_deepseek_content_line-SaysNoThought :
        (raw kind : Str)
        → Ends (Grows to_upper) SaysNoThought (
            parse_deepseek_content_line to_upper to_lower skips unmarshal print int_of raw false
              kind)
    parse_deepseek_content_line-SaysNoThought raw kind =
        each_line-Ends to_upper to_lower skips unmarshal print int_of (Grows to_upper) SaysNoThought
          false kind (λ filtered message. tt) tt (λ m. parse_content_chunk-SaysNoThought kind m) raw

    collect_lines-HasNoThought :
        (lines : List Str) (c : Collected)
        → HasNoThought c
        → Ends
            (Grows to_upper)
            HasNoThought
            (collect_lines to_upper to_lower skips unmarshal print int_of false lines c)
    unfolding collect_lines
    collect_lines-HasNoThought [] c h = Ends-ok _ HasNoThought c h
    collect_lines-HasNoThought (raw ∷ lines) c h =
        let line = parse_deepseek_sse_line unmarshal raw in
        let seen = observe_line to_lower int_of line c in
        let silent = observe_line-HasNoThought to_lower int_of line c h in
        Ends-if (Grows to_upper) HasNoThought (is_done line) _ _ (λ b. Ends-ok _ HasNoThought c h)
          (λ b.
            Ends-if (Grows to_upper) HasNoThought c.stopped _ _
              (λ s. collect_lines-HasNoThought lines seen silent)
              (λ s.
                Ends-bind (Grows to_upper) SaysNoThought HasNoThought _ _
                  (parse_deepseek_content_line-SaysNoThought raw c.current_type)
                  (λ r n.
                    collect_lines-HasNoThought lines (collect_result r seen)
                      (collect_result-HasNoThought r seen n silent))))

    -- Collecting a stream without thinking ends, and panics only if the upper case form of some text is
    -- longer than the text. It collects no thought, whatever the lines are.
    pub collect_stream-HasNoThought :
        (lines : List Str)
        → Ends
            (Grows to_upper)
            HasNoThought
            (collect_stream to_upper to_lower skips unmarshal print int_of false lines)
    unfolding collect_stream
    collect_stream-HasNoThought lines = collect_lines-HasNoThought lines (new_collected false) refl

    -- Lines that come when a stream has stopped change neither the texts nor the mark of the content filter,
    -- and do not panic.
    pub stopped_stream-SaysTheSame :
        (thinking_enabled : Bool) (lines : List Str) (c : Collected)
        → c.stopped ≡ true
        → Ends ⊥
            (SaysTheSame c)
            (collect_lines to_upper to_lower skips unmarshal print int_of thinking_enabled lines c)
    unfolding collect_lines
    stopped_stream-SaysTheSame thinking_enabled [] c h =
        Ends-ok _ (SaysTheSame c) c (refl, refl, refl, refl)
    stopped_stream-SaysTheSame thinking_enabled (raw ∷ lines) c h =
        let line = parse_deepseek_sse_line unmarshal raw in
        let seen = observe_line to_lower int_of line c in
        let kept = observe_line-kept to_lower int_of line c in
        Ends-if ⊥ (SaysTheSame c) (is_done line) _ _
          (λ b. Ends-ok _ (SaysTheSame c) c (refl, refl, refl, refl))
          (λ b.
            Ends-if ⊥ (SaysTheSame c) c.stopped _ _
              (λ s.
                Ends-map ⊥ (SaysTheSame seen) (SaysTheSame c) _
                  (stopped_stream-SaysTheSame thinking_enabled lines seen (kept.1 ∙ h))
                  (λ d same.
                    (same.0 ∙ kept.0.0, same.1 ∙ kept.0.1, same.2 ∙ kept.0.2, same.3 ∙ kept.0.3)))
              (λ s. absurd (cc)))
