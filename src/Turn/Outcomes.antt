-- ===== src/Turn/Outcomes.antt =====
-- When a turn fails, and how it ends.
use generalcompute2api.Prelude.{
  sym, ◌∙◌, ◌<◌, ℕ, arith, Option, ◌≡◌, refl, Bool, true, false, not, ◌&&◌, ◌||◌, none, some,
  if◌then◌else◌,
}
use generalcompute2api.Prelude.Text.{codes}
use generalcompute2api.Turn.Finish.{FinalOutcome, finalize_turn, is_some, should_retry_empty_output}
use generalcompute2api.Turn.{
  snapshot_turn, collected_turn, CollectResult, StreamSnapshot, BuildOptions, Services,
  build_turn_from_stream_snapshot, build_turn_from_collected, with_snapshot_error, with_error,
  stop_reason_of, stop_reason_of, OutputError, Turn, has_any, has_text,
  upstream_empty_output_detail, validate_turn,
}

-- How a turn ends, where the content was filtered or not and tool calls may have been sent before. It has
-- called if it has a tool call or one was sent. It fails if it has not called and has to, or has not called and
-- has no visible text. It ends with "tool_calls" if it has called, with "content_filter" if the content was
-- filtered and it does not fail, and otherwise with "stop".
pub record Ends {C : Type 0} (required filtered emitted : Bool) (t : Turn C) (o : FinalOutcome)
    : Type 0 where
  pub called : o.has_tool_calls ≡ (has_any t.tool_calls || emitted)
  pub shown : o.has_visible_text ≡ has_text t.text
  pub fails :
      o.should_fail ≡ (not (has_any t.tool_calls || emitted) && (required || not (has_text t.text)))
  pub reason : o.finish_reason ≡ (
      if has_any t.tool_calls || emitted
      then codes "tool_calls"
      else if filtered && not o.should_fail
      then codes "content_filter"
      else codes "stop")

module _ {C : Type 0} where
  -- Whether a turn is an error.
  validate_turn_lem :
      (t : Turn C) (required : Bool)
      → is_some (validate_turn t required)
        ≡ (not (has_any t.tool_calls) && (required || not (has_text t.text)))
  unfolding validate_turn
  validate_turn_lem t required = go required (has_any t.tool_calls) (has_text t.text)
    where
      go :
          (r c x : Bool)
          → is_some (
              if r && not c
              then some (record {
                status = 422;
                message = codes "tool_choice requires at least one valid tool call.";
                code = codes "tool_choice_violation";
              })
              else if c || x
              then none
              else some (upstream_empty_output_detail t.content_filter t.thinking))
            ≡ (not c && (r || not x))
      go true true x = refl
      go true false x = refl
      go false true x = refl
      go false false true = refl
      go false false false = refl

  collected-Ends :
      (t : Turn C) (required emitted : Bool) (e : Option OutputError)
      → t.error ≡ none
      → t.stop_reason ≡ stop_reason_of t.content_filter (has_any t.tool_calls)
      → is_some e ≡ (not (has_any t.tool_calls) && (required || not (has_text t.text)))
      → Ends required t.content_filter emitted
          (with_error t e)
          (finalize_turn (with_error t e) emitted)
  unfolding finalize_turn
  collected-Ends t required emitted none k s h = record {
    called = refl;
    shown = refl;
    fails = ground (arith, k, h);
    reason = ground (arith, k, s, h);
  }
  collected-Ends t required emitted (some e) k s h = record {
    called = refl;
    shown = refl;
    fails = ground (arith, h);
    reason = ground (arith, h);
  }

  -- A turn that is built from what was collected, where tool calls may have been sent before. It has called if
  -- it has a tool call or one was sent. If it has not called, it fails just where it has to or has no
  -- visible text. It ends with "tool_calls" if it has called, with "content_filter" if the content
  -- was filtered and it does not fail, and else with "stop".
  pub collected_turn-Ends :
      (v : Services C) (opts : BuildOptions) (r : CollectResult) (emitted : Bool)
      → Ends opts.tool_choice_required r.content_filter emitted
          (build_turn_from_collected v opts r)
          (finalize_turn (build_turn_from_collected v opts r) emitted)
  unfolding build_turn_from_collected
  collected_turn-Ends v opts r emitted =
      collected-Ends (collected_turn v opts r) opts.tool_choice_required emitted
        (validate_turn (collected_turn v opts r) opts.tool_choice_required) refl refl
        (validate_turn_lem (collected_turn v opts r) opts.tool_choice_required)

  unsent-fails :
      (t : Turn C) (required : Bool) (e : Option OutputError)
      → t.error ≡ none
      → is_some e ≡ (not (has_any t.tool_calls) && (required || not (has_text t.text)))
      → (finalize_turn (with_snapshot_error t e) false).should_fail ≡ (
          not (has_any (with_snapshot_error t e).tool_calls)
          && (required || not (has_text (with_snapshot_error t e).text)))
  unfolding finalize_turn
  unsent-fails t required none k h = ground (arith, k, h)
  unsent-fails t required (some e) k h = ground (arith, h)

  -- A turn of a stream that has sent tool calls, or the markup of one, or neither.
  abbrev sent_turn : Turn C → Bool → Bool → Bool → Turn C
  sent_turn t required calls raw =
      if calls || raw then t else with_snapshot_error t (validate_turn t required)

  sent_turn-fails :
      (t : Turn C) (required calls raw : Bool)
      → t.error ≡ none
      → (finalize_turn (sent_turn t required calls raw) calls).should_fail ≡ (
          not calls
          && not raw
          && not (has_any (sent_turn t required calls raw).tool_calls)
          && (required || not (has_text (sent_turn t required calls raw).text)))
  unfolding finalize_turn
  sent_turn-fails t required true raw k = ground arith
  sent_turn-fails t required false true k = ground (arith, k)
  sent_turn-fails t required false false k =
      unsent-fails t required (validate_turn t required) k (validate_turn_lem t required)

  -- A turn that is built from a stream fails just where no tool call was emitted before, nor the markup of
  -- one, it has no tool call, and it has to have one or has no visible text.
  pub snapshot_turn_fails :
      (v : Services C) (opts : BuildOptions) (s : StreamSnapshot C)
      → (finalize_turn
          (build_turn_from_stream_snapshot v opts s)
          s.already_emitted_calls).should_fail
        ≡ (not s.already_emitted_calls
            && not s.already_emitted_tool_raw
            && not (has_any (build_turn_from_stream_snapshot v opts s).tool_calls)
            && (opts.tool_choice_required
                || not (has_text (build_turn_from_stream_snapshot v opts s).text)))
  unfolding build_turn_from_stream_snapshot
  snapshot_turn_fails v opts s =
      sent_turn-fails (snapshot_turn v opts s) opts.tool_choice_required s.already_emitted_calls
        s.already_emitted_tool_raw refl

  retried :
      (t : Turn C) (attempts max_attempts : ℕ)
      → should_retry_empty_output t attempts max_attempts ≡ true
      → (attempts < max_attempts)
        × (t.content_filter ≡ false)
        × (has_any t.tool_calls ≡ false)
        × (has_text t.text ≡ false)
  unfolding should_retry_empty_output
  retried t attempts max_attempts h = ground (arith, h)

  without_output :
      (t : Turn C) (required : Bool)
      → has_any t.tool_calls ≡ false
      → has_text t.text ≡ false
      → (not (has_any t.tool_calls || false) && (required || not (has_text t.text))) ≡ true
  without_output t required h k = ground (arith, h, k)

  with_error-content_filter :
      (t : Turn C) (e : Option OutputError) → (with_error t e).content_filter ≡ t.content_filter
  with_error-content_filter t none = refl
  with_error-content_filter t (some e) = refl

  pub built-content_filter :
      (v : Services C) (opts : BuildOptions) (r : CollectResult)
      → (build_turn_from_collected v opts r).content_filter ≡ r.content_filter
  unfolding build_turn_from_collected
  built-content_filter v opts r =
      with_error-content_filter (collected_turn v opts r)
        (validate_turn (collected_turn v opts r) opts.tool_choice_required)

  -- Only a turn that fails and was not filtered is tried again, and only while attempts are left.
  pub retried_turn_fails :
      (v : Services C) (opts : BuildOptions) (r : CollectResult) (attempts max_attempts : ℕ)
      → should_retry_empty_output (build_turn_from_collected v opts r) attempts max_attempts ≡ true
      → ((finalize_turn (build_turn_from_collected v opts r) false).should_fail ≡ true)
        × (r.content_filter ≡ false)
        × (attempts < max_attempts)
  retried_turn_fails v opts r attempts max_attempts h =
      let q = retried (build_turn_from_collected v opts r) attempts max_attempts h in
      (
        (collected_turn-Ends v opts r false).fails
            ∙ without_output (build_turn_from_collected v opts r) opts.tool_choice_required q.2 q.3,
        sym (built-content_filter v opts r) ∙ q.1,
        q.0,
      )
