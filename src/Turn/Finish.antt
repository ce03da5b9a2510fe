-- ===== src/Turn/Finish.antt =====
-- internal/assistantturn/turn.go: how a turn ends, and whether it is tried again.
use generalcompute2api.Prelude.{
  ℕ, Bool, true, false, not, ◌&&◌, ◌||◌, Option, none, some, if◌then◌else◌, ltb,
}
use generalcompute2api.Prelude.Text.{Str, codes, trim_space}
use generalcompute2api.Turn.{
  OutputError, StopReason, Turn, Usage, content_filter, error, has_any, has_text, stop, tool_calls,
}

pub record FinalOutcome : Type 0 where
  pub finish_reason : Str
  pub error : Option OutputError
  pub usage : Usage
  pub has_tool_calls : Bool
  pub has_visible_text : Bool
  pub has_visible_output : Bool
  pub should_fail : Bool

abbrev pub finish_reason : StopReason → Str
finish_reason tool_calls = codes "tool_calls"
finish_reason content_filter = codes "content_filter"
finish_reason stop = codes "stop"
finish_reason error = codes "stop"

abbrev pub is_some : Option OutputError → Bool
is_some none = false
is_some (some e) = true

module _ {C : Type 0} where
  unfoldable pub should_retry_empty_output : Turn C → ℕ → ℕ → Bool
  unfolding trim_space
  should_retry_empty_output t attempts max_attempts =
      ltb attempts max_attempts
      && not t.content_filter
      && not (has_any t.tool_calls)
      && not (has_text t.text)

  -- The second argument is `AlreadyEmittedToolCalls`.
  unfoldable pub finalize_turn : Turn C → Bool → FinalOutcome
  unfolding trim_space
  finalize_turn t emitted =
      let called = has_any t.tool_calls || emitted in
      let err = if called then none else t.error in
      record {
        finish_reason = if called then codes "tool_calls" else finish_reason t.stop_reason;
        error = err;
        usage = t.usage;
        has_tool_calls = called;
        has_visible_text = has_text t.text;
        has_visible_output = has_text t.text || has_text t.thinking || called;
        should_fail = is_some err;
      }
