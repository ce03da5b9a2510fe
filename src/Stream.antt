-- ===== src/Stream.antt =====
-- internal/stream/engine.go: the loop that consumes a parsed stream under a ticker and a context. The
-- lines, the ticks and the states of the context are the input; the hooks' calls are the output. A
-- duration or a bound that is not positive is 0.
pub mod Trace
pub mod Timeouts
pub mod Tests
use generalcompute2api.Prelude.{
  ℕ, zero, suc, ◌+◌, ◌-◌, Bool, true, false, not, ◌&&◌, List, [], ◌∷◌, Option, none, some,
  if◌then◌else◌, ltb, leb,
}
use generalcompute2api.Prelude.Text.{Str}
use generalcompute2api.Sse.{LineResult}

pub data StopReason : Type 0 where
  no_reason context_cancelled no_content_timeout idle_timeout : StopReason
  upstream_completed handler_requested : StopReason

pub record ParsedDecision : Type 0 where
  pub stop : Bool
  pub stop_reason : StopReason
  pub content_seen : Bool

pub record ConsumeConfig : Type 0 where
  pub keep_alive_interval : ℕ
  pub idle_timeout : ℕ
  pub max_keep_alive_no_input : ℕ

-- What the `select` receives. `eof` carries the text of the scanner's error, if there is one.
pub data Input : Type 0 where
  context_done : Input
  tick : Input
  line : LineResult → Input
  eof : Option Str → Input

-- A round of the loop: whether the context is done when the round begins, what is received, whether the
-- context is done by then, and the time.
pub record Round : Type 0 where
  pub done_before : Bool
  pub input : Input
  pub done_after : Bool
  pub now : ℕ

-- The hooks' calls in order. `on_context_done` stands where the hook is called, or would be if set.
pub data Call : Type 0 where
  on_parsed : LineResult → Call
  on_keep_alive : Call
  on_finalize : StopReason → Option Str → Call
  on_context_done : Call

pub record LoopState (H : Type 0) : Type 0 where
  pub has_content : Bool
  pub last_content : ℕ
  pub keepalive_count : ℕ
  -- The state of the `OnParsed` hook.
  pub handler : H

-- A round goes on with a new state, or the loop returns; either way with the calls made.
pub data Outcome (H : Type 0) : Type 0 where
  goes_on : LoopState H → List Call → Outcome H
  returns : LoopState H → List Call → Outcome H

-- `OnParsed`, if set, over a state of its own.
abbrev pub Handler : Type 0 → Type 0
Handler H = Option (H → LineResult → H × ParsedDecision)

abbrev pub reason_or_requested : StopReason → StopReason
reason_or_requested no_reason = handler_requested
reason_or_requested r = r

abbrev pub saw : {H : Type 0} → LoopState H → H → Bool → ℕ → LoopState H
saw s h true now = record s {
  has_content = true;
  last_content = now;
  keepalive_count = 0;
  handler = h;
}
saw s h false now = record s { handler = h }

module _ {H : Type 0} (cfg : ConsumeConfig) where
  abbrev pub after_counting : LoopState H → ℕ → Outcome H
  after_counting s now =
      if s.has_content && (ltb 0 cfg.idle_timeout && ltb cfg.idle_timeout (now - s.last_content))
      then returns s (on_finalize idle_timeout none ∷ [])
      else goes_on s (on_keep_alive ∷ [])

  unfoldable pub on_tick : LoopState H → ℕ → Outcome H
  on_tick s now =
      let counted = record s { keepalive_count = s.keepalive_count + 1 } in
      if s.has_content
      then after_counting s now
      else if ltb 0 cfg.max_keep_alive_no_input
          && leb cfg.max_keep_alive_no_input counted.keepalive_count
      then returns counted (on_finalize no_content_timeout none ∷ [])
      else after_counting counted now

  abbrev pub decide : LineResult → LoopState H → H × ParsedDecision → ℕ → Outcome H
  decide l s (h, d) now =
      let next = saw s h d.content_seen now in
      if d.stop
      then returns next (on_parsed l ∷ on_finalize (reason_or_requested d.stop_reason) none ∷ [])
      else goes_on next (on_parsed l ∷ [])

  unfoldable pub on_line : Handler H → LoopState H → LineResult → ℕ → Outcome H
  on_line none s l now = goes_on s []
  on_line (some f) s l now = decide l s (f s.handler l) now

  -- The cases of the `select`, once the context is found not to be done. A tick is received only where
  -- there is a ticker.
  abbrev pub receive : Handler H → LoopState H → Input → ℕ → Outcome H
  receive f s context_done now = returns s []
  receive f s tick now = if ltb 0 cfg.keep_alive_interval then on_tick s now else goes_on s []
  receive f s (line l) now = on_line f s l now
  receive f s (eof err) now = returns s (on_finalize upstream_completed err ∷ [])

  unfoldable pub round : Handler H → LoopState H → Round → Outcome H
  unfolding on_tick on_line
  round f s r =
      if r.done_before
      then returns s (on_context_done ∷ [])
      else if r.done_after
      then returns s (on_context_done ∷ [])
      else receive f s r.input r.now

-- The state of the hook, the calls, and whether the loop returned, over the rounds given.
pub record Run (H : Type 0) : Type 0 where
  pub state : LoopState H
  pub calls : List Call
  pub returned : Bool

abbrev pub append_calls : List Call → List Call → List Call
append_calls [] ys = ys
append_calls (x ∷ xs) ys = x ∷ append_calls xs ys

-- What follows a round.
abbrev pub then_run : {H : Type 0} → Outcome H → (LoopState H → Run H) → Run H
then_run (goes_on t cs) next = record {
  state = (next t).state;
  calls = append_calls cs (next t).calls;
  returned = (next t).returned;
}
then_run (returns t cs) next = record { state = t; calls = cs; returned = true }

unfoldable pub consume : {H : Type 0} → ConsumeConfig → Handler H → LoopState H → List Round → Run H
consume cfg f s [] = record { state = s; calls = []; returned = false }
consume cfg f s (r ∷ rs) = then_run (round cfg f s r) (λ t. consume cfg f t rs)

-- The state before the first round, at the time the loop starts.
abbrev pub initial : {H : Type 0} → H → ℕ → LoopState H
initial h now = record { has_content = false; last_content = now; keepalive_count = 0; handler = h }
