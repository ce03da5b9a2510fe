-- ===== src/Sieve.antt =====
-- internal/toolstream: the sieve that takes tool calls out of a streamed text. tool_sieve_state.go and
-- the two entry points of tool_sieve_core.go stand here, over the detector of tool calls; the detector
-- itself is in Sieve.Detect. Left out are the fields that are set and never read (the raw text of the
-- deferred calls and the state of incremental deltas) and the deltas of an event, which are never set.
pub mod Sanitized
pub mod Trims
pub mod Searches
pub mod Settled
pub mod Process
pub mod Fences
pub mod Bare
pub mod Xml
pub mod Detect
pub mod Subsequences
pub mod Kept
pub mod Flushed
pub mod Cuts
pub mod Captures
pub mod Consumed
pub mod Lawful
pub mod Tests
use generalcompute2api.Prelude.{ℕ, Bool, true, false, List, [], ◌∷◌, ◌++◌, Option, none, some}
use generalcompute2api.Prelude.Runs.{Run}
use generalcompute2api.Prelude.Text.{Str}
use generalcompute2api.Fence.{CodeFence, no_fence}

pub record State (C : Type 0) : Type 0 where
  pub pending : Str
  pub capture : Str
  pub capturing : Bool
  pub code_fence : CodeFence
  pub pending_tool_calls : List C

abbrev pub initial : {C : Type 0} → State C
initial = record {
  pending = [];
  capture = [];
  capturing = false;
  code_fence = no_fence;
  pending_tool_calls = [];
}

pub record Event (C : Type 0) : Type 0 where
  pub content : Str
  pub tool_calls : List C

abbrev pub content_event : {C : Type 0} → Str → Event C
content_event s = record { content = s; tool_calls = [] }

abbrev pub calls_event : {C : Type 0} → List C → Event C
calls_event calls = record { content = []; tool_calls = calls }

-- What is taken out of a captured text: the text before the calls, the calls, and the text after them.
pub record Capture (C : Type 0) : Type 0 where
  pub before : Str
  pub calls : List C
  pub after : Str

-- How tool calls are recognised. `consume` is none where more of the text has to come.
pub record Detector (C : Type 0) : Type 0 where
  pub find_start : CodeFence → Str → Run (Option ℕ)
  pub split_safe : CodeFence → Str → Run (Str × Str)
  pub consume : Str → Run (Option (Capture C))
  pub consume_xml : Str → Run (Option (Capture C))
  pub sanitize : Str → Run Str
  pub is_malformed : Str → Bool
