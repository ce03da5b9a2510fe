-- ===== src/Sse/Linked.antt =====
-- internal/sse/citation_links.go: what a whole stream cites.
use generalcompute2api.Prelude.{
  true, false, append-nil, append_assoc, ℕ, Bool, not, ◌≡◌, refl, sym, ap, ◌∙◌, subst, List, [],
  ◌∷◌, ◌++◌, Option, both_branches, if_true, if_false,
}
use generalcompute2api.Prelude.Int.{ℤ}
use generalcompute2api.Prelude.Runs.{Ends, Ends-bind, Ends-if, Ends-map, Ends-ok}
use generalcompute2api.Prelude.Text.{Str}
use generalcompute2api.Sse.{ContentPart, LineResult}
use generalcompute2api.Sse.Json.{Fields, Json, object}
use generalcompute2api.Sse.Tags.{is_thinking}
use generalcompute2api.Sse.Chunk.{SkipPaths}
use generalcompute2api.Sse.Lines.{Line, chunk, parse_deepseek_sse_line}
use generalcompute2api.Sse.Read.{Grows}
use generalcompute2api.Sse.Citations.{ingest_chunk}
use generalcompute2api.Sse.Mentions.{Mention, cited_link, line_mentions, stream_mentions}
use generalcompute2api.Sse.Held.{Holds, new_collector-Holds}
use generalcompute2api.Sse.Mentioned.{walk_value-Holds}
use generalcompute2api.Sse.Settled.{link_at-cited}
use generalcompute2api.Sse.Cited.{build-link_at}
use generalcompute2api.Sse.Collect.{
  Collected, citation_links, collect_lines, collect_parts, collect_result, collect_stream, is_done,
  new_collected, observe_line,
}
use generalcompute2api.Sse.Pump.Stopped.{IsQuiet}
use generalcompute2api.Sse.Pumped.{parser-IsQuiet}

module _ (to_lower : Str → Str) (int_of : Str → ℤ) (low : to_lower [] ≡ []) where
  observe_line-Holds :
      (line : Line) (ms : List Mention) (c : Collected)
      → Holds ms c.citations
      → Holds
          (ms ++ line_mentions to_lower int_of line)
          (observe_line to_lower int_of line c).citations
  unfolding observe_line ingest_chunk
  observe_line-Holds (chunk m) ms c h =
      walk_value-Holds to_lower int_of low (object m) ms c.citations h
  observe_line-Holds _ ms c h = subst (λ ns. Holds ns c.citations) (sym (append-nil ms)) h

collect_parts-citations :
    (ps : List ContentPart) (c : Collected) → (collect_parts ps c).citations ≡ c.citations
unfolding collect_parts
collect_parts-citations [] c = refl
collect_parts-citations (p ∷ ps) c =
    collect_parts-citations ps _
    ∙ both_branches (λ (d : Collected). d.citations ≡ c.citations) (is_thinking p) refl refl

collect_result-citations :
    (r : LineResult) (c : Collected) → (collect_result r c).citations ≡ c.citations
unfolding collect_result
collect_result-citations r c =
    both_branches (λ (d : Collected). d.citations ≡ c.citations) (not r.parsed) refl
      (both_branches (λ (d : Collected). d.citations ≡ c.citations) r.stop refl
        (collect_parts-citations r.parts _))

-- The links of what is collected are those of the mentions.
abbrev pub IsLinked : List Mention → Collected → Type 0
IsLinked ms c = (j : ℕ) → citation_links c j ≡ cited_link ms j

module _ (to_upper to_lower : Str → Str) (skips : SkipPaths) (unmarshal : Str → Option Fields)
    (print : Json → Str) (int_of : Str → ℤ) (thinking_enabled : Bool) (low : to_lower [] ≡ []) where
  -- What the lines cite follows what was cited before.
  abbrev Follows : List Mention → List Str → Collected → Type 0
  Follows ms lines d = Holds (ms ++ stream_mentions to_lower int_of unmarshal lines) d.citations

  done-Follows :
      (ms : List Mention) (raw : Str) (lines : List Str) (c : Collected)
      → is_done (parse_deepseek_sse_line unmarshal raw) ≡ true
      → Holds ms c.citations
      → Follows ms (raw ∷ lines) c
  unfolding stream_mentions
  done-Follows ms raw lines c b h =
      subst (λ ns. Holds ns c.citations)
        (sym (ap (λ ns. ms ++ ns) (if_true _ _ _ b) ∙ append-nil ms)) h

  more-Follows :
      (ms : List Mention) (raw : Str) (lines : List Str) (d : Collected)
      → is_done (parse_deepseek_sse_line unmarshal raw) ≡ false
      → Follows
          (ms ++ line_mentions to_lower int_of (parse_deepseek_sse_line unmarshal raw))
          lines
          d
      → Follows ms (raw ∷ lines) d
  unfolding stream_mentions
  more-Follows ms raw lines d b h =
      subst (λ ns. Holds ns d.citations)
        (append_assoc ms _ _ ∙ sym (ap (λ ns. ms ++ ns) (if_false _ _ _ b))) h

  collect_lines-Follows :
      (lines : List Str) (ms : List Mention) (c : Collected)
      → Holds ms c.citations
      → Ends
          (Grows to_upper)
          (Follows ms lines)
          (collect_lines to_upper to_lower skips unmarshal print int_of thinking_enabled lines c)
  unfolding collect_lines stream_mentions
  collect_lines-Follows [] ms c h =
      Ends-ok _ (Follows ms []) c (subst (λ ns. Holds ns c.citations) (sym (append-nil ms)) h)
  collect_lines-Follows (raw ∷ lines) ms c h =
      let line = parse_deepseek_sse_line unmarshal raw in
      let seen = observe_line to_lower int_of line c in
      let more = ms ++ line_mentions to_lower int_of line in
      let held = observe_line-Holds to_lower int_of low line ms c h in
      Ends-if (Grows to_upper) (Follows ms (raw ∷ lines)) (is_done line) _ _
        (λ b. Ends-ok _ (Follows ms (raw ∷ lines)) c (done-Follows ms raw lines c b h))
        (λ b.
          Ends-if (Grows to_upper) (Follows ms (raw ∷ lines)) c.stopped _ _
            (λ s.
              Ends-map (Grows to_upper) (Follows more lines) (Follows ms (raw ∷ lines)) _
                (collect_lines-Follows lines more seen held)
                (λ d f. more-Follows ms raw lines d b f))
            (λ s.
              Ends-bind (Grows to_upper) IsQuiet (Follows ms (raw ∷ lines)) _ _
                (parser-IsQuiet to_upper to_lower skips unmarshal print int_of thinking_enabled raw
                  c.current_type)
                (λ r n.
                  Ends-map (Grows to_upper) (Follows more lines) (Follows ms (raw ∷ lines)) _
                    (collect_lines-Follows lines more (collect_result r seen)
                      (subst (Holds more) (sym (collect_result-citations r seen)) held))
                    (λ d f. more-Follows ms raw lines d b f))))

  -- Lower case keeps the empty text. Whatever the lines of a stream are, its links follow from what the lines
  -- cite up to the end of the stream, which is the URL of each object within them that has one of the web,
  -- with its index, in their order. An index from 1 on has the URL that was first cited with it. Where any
  -- was cited with the index 0, it has the URL that was first cited with the index before. If it has
  -- both, it has the second where that is also the URL at its place in the order, and the first
  -- otherwise; and if it has neither, the URL at its place. The index 0 has no link. The call panics only if the
  -- upper case form of some text is longer than the text.
  pub collect_stream-IsLinked :
      (lines : List Str)
      → Ends
          (Grows to_upper)
          (IsLinked (stream_mentions to_lower int_of unmarshal lines))
          (collect_stream to_upper to_lower skips unmarshal print int_of thinking_enabled lines)
  unfolding collect_stream citation_links
  collect_stream-IsLinked lines =
      let ms = stream_mentions to_lower int_of unmarshal lines in
      Ends-map (Grows to_upper) (Follows [] lines) (IsLinked ms) _
        (collect_lines-Follows lines [] (new_collected thinking_enabled) new_collector-Holds)
        (λ d h j. build-link_at d.citations j h.unique ∙ link_at-cited ms d.citations j h)
