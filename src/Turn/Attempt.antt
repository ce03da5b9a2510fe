-- ===== src/Turn/Attempt.antt =====
-- internal/completionruntime/nonstream.go: the turn that `collectAttempt` makes of a response that came with
-- status 200, from the lines of its stream.
use generalcompute2api.Prelude.{
  Bool, false, List, [], ◌≡◌, ◌∙◌, ap, sym, subst, Option, none, some, refl,
}
use generalcompute2api.Prelude.Int.{ℤ}
use generalcompute2api.Prelude.Runs.{Ends, Ends-bind, Ends-ok, Run, ok, ◌>>=◌}
use generalcompute2api.Prelude.Text.{Str}
use generalcompute2api.Sse.Chunk.{SkipPaths}
use generalcompute2api.Sse.Collect.{Collected, citation_links, collect_stream}
use generalcompute2api.Sse.Json.{Fields, Json}
use generalcompute2api.Sse.Read.{Grows}
use generalcompute2api.Sse.Silent.{HasNoThought, collect_stream-HasNoThought}
use generalcompute2api.Turn.{
  BuildOptions, CollectResult, OutputError, Services, Turn, build_turn_from_collected,
  collected_turn, validate_turn, with_error,
}
use generalcompute2api.Turn.Finish.{finalize_turn}
use generalcompute2api.Turn.Outcomes

-- What `CollectStream` returns.
unfoldable pub collect_result_of : Collected → CollectResult
unfolding citation_links
collect_result_of c = record {
  text = c.text;
  thinking = c.thoughts;
  tool_detection_thinking = c.tool_detection_thinking;
  content_filter = c.content_filter;
  citation_links = citation_links c;
}

-- The turn keeps this thinking, and it fails and ends as it has to, whether calls were sent before or not.
pub record Thinks {C : Type 0} (thinking : Str) (required : Bool) (t : Turn C) : Type 0 where
  pub thinks : t.thinking ≡ thinking
  pub outcome :
      (emitted : Bool) → Outcomes.Ends required t.content_filter emitted t (finalize_turn t emitted)

module _ {C : Type 0} where
  with_error-thinking :
      (t : Turn C) (e : Option OutputError) → (with_error t e).thinking ≡ t.thinking
  with_error-thinking t none = refl
  with_error-thinking t (some e) = refl

  built-thinking :
      (v : Services C) (opts : BuildOptions) (r : CollectResult)
      → (build_turn_from_collected v opts r).thinking ≡ v.clean_visible_output r.thinking
  unfolding build_turn_from_collected
  built-thinking v opts r =
      with_error-thinking (collected_turn v opts r)
        (validate_turn (collected_turn v opts r) opts.tool_choice_required)

  built-Thinks :
      (v : Services C) (opts : BuildOptions) (r : CollectResult)
      → r.thinking ≡ []
      → Thinks
          (v.clean_visible_output [])
          opts.tool_choice_required
          (build_turn_from_collected v opts r)
  built-Thinks v opts r h = record {
    thinks = built-thinking v opts r ∙ ap v.clean_visible_output h;
    outcome = λ emitted.
        subst
          (λ f.
            Outcomes.Ends opts.tool_choice_required f emitted (build_turn_from_collected v opts r)
              (finalize_turn (build_turn_from_collected v opts r) emitted))
          (sym (Outcomes.built-content_filter v opts r))
          (Outcomes.collected_turn-Ends v opts r emitted);
  }

  module _ (to_upper to_lower : Str → Str) (skips : SkipPaths) (unmarshal : Str → Option Fields)
      (print : Json → Str) (int_of : Str → ℤ) (v : Services C) (opts : BuildOptions) where
    unfoldable pub collect_attempt : Bool → List Str → Run (Turn C)
    unfolding collect_stream collect_result_of build_turn_from_collected
    collect_attempt thinking lines = do
      c ← collect_stream to_upper to_lower skips unmarshal print int_of thinking lines
      ok (build_turn_from_collected v opts (collect_result_of c))

    -- An attempt without thinking ends, and panics only if the upper case form of some text is longer than the
    -- text. Whatever the lines are, the turn thinks only what the clean-up makes of no text. It has called if
    -- it has a tool call or one was sent before; if it has not called, it fails just where it has to or has
    -- no visible text. It ends with "tool_calls" if it has called, with "content_filter" if the content
    -- was filtered and it does not fail, and else with "stop".
    pub collect_attempt-Thinks :
        (lines : List Str)
        → Ends
            (Grows to_upper)
            (Thinks (v.clean_visible_output []) opts.tool_choice_required)
            (collect_attempt false lines)
    unfolding collect_attempt collect_result_of
    collect_attempt-Thinks lines =
        Ends-bind (Grows to_upper) HasNoThought
          (Thinks (v.clean_visible_output []) opts.tool_choice_required) _ _
          (collect_stream-HasNoThought to_upper to_lower skips unmarshal print int_of lines)
          (λ c h.
            Ends-ok _ (Thinks (v.clean_visible_output []) opts.tool_choice_required) _
              (built-Thinks v opts (collect_result_of c) h))
