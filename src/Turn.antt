-- ===== src/Turn.antt =====
-- internal/assistantturn/turn.go, and internal/httpapi/openai/shared/assistant_toolcalls.go: what the
-- assistant said, made of what was collected. The parser of tool calls, the clean-up and the tokenizer are
-- parameters; fields of a turn that are only passed on are left out.
pub mod Markers
pub mod Finish
pub mod Unlinked
pub mod Outcomes
pub mod Attempt
pub mod Tests
use generalcompute2api.Prelude.{
  ℕ, ◌+◌, Bool, true, false, not, ◌&&◌, ◌||◌, List, [], ◌∷◌, Option, none, some, if◌then◌else◌, ltb,
}
use generalcompute2api.Prelude.Text.{Str, codes, trim_space}
use generalcompute2api.Sse.Citations.{Links}
use generalcompute2api.Turn.Markers.{replace_citation_markers_with_links}

pub data StopReason : Type 0 where
  stop tool_calls content_filter error : StopReason

pub record Usage : Type 0 where
  pub input_tokens : ℕ
  pub output_tokens : ℕ
  pub reasoning_tokens : ℕ
  pub total_tokens : ℕ

pub record OutputError : Type 0 where
  pub status : ℕ
  pub message : Str
  pub code : Str

pub record Turn (C : Type 0) : Type 0 where
  pub text : Str
  pub thinking : Str
  pub tool_calls : List C
  pub content_filter : Bool
  pub stop_reason : StopReason
  pub usage : Usage
  pub error : Option OutputError

-- The code that the turns call, for the options of one request.
pub record Services (C : Type 0) : Type 0 where
  pub clean_visible_output : Str → Str
  pub parse_standalone_tool_calls : Str → List C
  pub normalize_tool_calls : List C → List C
  pub count_prompt_tokens : Str → ℕ
  pub count_output_tokens : Str → ℕ

pub record BuildOptions : Type 0 where
  pub prompt : Str
  pub ref_file_tokens : ℕ
  pub search_enabled : Bool
  -- `ToolChoice.IsRequired()`.
  pub tool_choice_required : Bool

-- What `sse.CollectStream` collected.
pub record CollectResult : Type 0 where
  pub text : Str
  pub thinking : Str
  pub tool_detection_thinking : Str
  pub content_filter : Bool
  pub citation_links : Links

pub record StreamSnapshot (C : Type 0) : Type 0 where
  pub raw_text : Str
  pub visible_text : Str
  pub raw_thinking : Str
  pub visible_thinking : Str
  pub detection_thinking : Str
  pub content_filter : Bool
  pub citation_links : Links
  pub already_emitted_calls : Bool
  pub additional_tool_calls : List C
  pub already_emitted_tool_raw : Bool

abbrev pub has_text : Str → Bool
has_text s = elim (trim_space s) [ [] ↦ false | c ∷ t ↦ true ]

abbrev pub has_any : {C : Type 0} → List C → Bool
has_any [] = false
has_any (c ∷ cs) = true

abbrev pub first_calls : {C : Type 0} → List C → List C → List C
first_calls [] ds = ds
first_calls (c ∷ cs) ds = c ∷ cs

unfoldable pub upstream_empty_output_detail : Bool → Str → OutputError
unfolding trim_space
upstream_empty_output_detail filtered thinking =
    if filtered
    then record {
      status = 400;
      message = codes "Upstream content filtered the response and returned no output.";
      code = codes "content_filter";
    }
    else if has_text thinking
    then record {
      status = 429;
      message =
          codes "Upstream account hit a rate limit and returned reasoning without visible output.";
      code = codes "upstream_empty_output";
    }
    else record {
      status = 429;
      message = codes "Upstream account hit a rate limit and returned empty output.";
      code = codes "upstream_empty_output";
    }

abbrev pub stop_reason_of : Bool → Bool → StopReason
stop_reason_of filtered called =
    if called then tool_calls else if filtered then content_filter else stop

module _ {C : Type 0} where
  unfoldable pub detect_assistant_tool_calls : Services C → Str → Str → Str → Str → List C
  unfolding trim_space
  detect_assistant_tool_calls v raw visible exposed detection =
      let from_text = v.parse_standalone_tool_calls raw in
      let hidden = if has_text detection then detection else exposed in
      if has_any from_text || has_text visible
      then from_text
      else first_calls (v.parse_standalone_tool_calls hidden) from_text

  unfoldable pub build_usage : Services C → BuildOptions → Str → Str → Usage
  build_usage v opts thinking text =
      let input = v.count_prompt_tokens opts.prompt + opts.ref_file_tokens in
      let reasoning = v.count_output_tokens thinking in
      let output = reasoning + v.count_output_tokens text in
      record {
        input_tokens = input;
        output_tokens = output;
        reasoning_tokens = reasoning;
        total_tokens = input + output;
      }

  unfoldable pub validate_turn : Turn C → Bool → Option OutputError
  unfolding upstream_empty_output_detail trim_space
  validate_turn t required =
      if required && not (has_any t.tool_calls)
      then some (record {
        status = 422;
        message = codes "tool_choice requires at least one valid tool call.";
        code = codes "tool_choice_violation";
      })
      else if has_any t.tool_calls || has_text t.text
      then none
      else some (upstream_empty_output_detail t.content_filter t.thinking)

  abbrev pub with_error : Turn C → Option OutputError → Turn C
  with_error t none = t
  with_error t (some e) = record t { error = some e; stop_reason = error }

  unfoldable pub visible : Services C → BuildOptions → Links → Str → Str
  unfolding replace_citation_markers_with_links
  visible v opts links text =
      let cleaned = v.clean_visible_output text in
      if opts.search_enabled then replace_citation_markers_with_links cleaned links else cleaned

  abbrev pub collected_turn : Services C → BuildOptions → CollectResult → Turn C
  collected_turn v opts r =
      let text = visible v opts r.citation_links r.text in
      let thinking = v.clean_visible_output r.thinking in
      let calls =
        v.normalize_tool_calls
          (detect_assistant_tool_calls v r.text text r.thinking r.tool_detection_thinking) in
      record {
        text = text;
        thinking = thinking;
        tool_calls = calls;
        content_filter = r.content_filter;
        stop_reason = stop_reason_of r.content_filter (has_any calls);
        usage = build_usage v opts thinking text;
        error = none;
      }

  unfoldable pub build_turn_from_collected : Services C → BuildOptions → CollectResult → Turn C
  unfolding detect_assistant_tool_calls build_usage validate_turn
  build_turn_from_collected v opts r =
      let t = collected_turn v opts r in with_error t (validate_turn t opts.tool_choice_required)

  abbrev pub snapshot_turn : Services C → BuildOptions → StreamSnapshot C → Turn C
  snapshot_turn v opts s =
      let text = visible v opts s.citation_links s.visible_text in
      let thinking = v.clean_visible_output s.visible_thinking in
      let calls = v.normalize_tool_calls (
        first_calls
          (detect_assistant_tool_calls v s.raw_text text s.raw_thinking s.detection_thinking)
          s.additional_tool_calls) in
      record {
        text = text;
        thinking = thinking;
        tool_calls = calls;
        content_filter = s.content_filter;
        stop_reason =
            stop_reason_of s.content_filter
              (has_any calls || s.already_emitted_calls || s.already_emitted_tool_raw);
        usage = build_usage v opts thinking text;
        error = none;
      }

  -- The error is kept with calls too, but then it is no reason to stop.
  abbrev pub with_snapshot_error : Turn C → Option OutputError → Turn C
  with_snapshot_error t none = t
  with_snapshot_error t (some e) = record t {
    error = some e;
    stop_reason = if has_any t.tool_calls then t.stop_reason else error;
  }

  unfoldable pub build_turn_from_stream_snapshot :
      Services C → BuildOptions → StreamSnapshot C → Turn C
  unfolding detect_assistant_tool_calls build_usage validate_turn
  build_turn_from_stream_snapshot v opts s =
      let t = snapshot_turn v opts s in
      if s.already_emitted_calls || s.already_emitted_tool_raw
      then t
      else with_snapshot_error t (validate_turn t opts.tool_choice_required)
