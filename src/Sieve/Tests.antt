-- ===== src/Sieve/Tests.antt =====
-- The sieve at concrete texts, with a parser that finds a call in each block of a few bytes.
use generalcompute2api.Prelude.{
  ◌++◌, ℕ, ◌≡◌, refl, true, false, List, [], ◌∷◌, Option, none, some, if◌then◌else◌, leb, length,
}
use generalcompute2api.Sieve.Subsequences.{IsSubsequence}
use generalcompute2api.Sieve.Lawful.{flush_gives_back, process_chunk-IsSubsequence}
use generalcompute2api.Prelude.Runs.{Ends, Run, ok, ◌>>=◌}
use generalcompute2api.Prelude.Text.{Str, codes, str_eq}
use generalcompute2api.Util.Lower.{lower_kelvin, to_lower}
use generalcompute2api.Fence.{simulate_code_fence_state}
use generalcompute2api.Sieve.{Detector, Event, State, initial}
use generalcompute2api.Sieve.Detect.{consume_tool_capture, find_tool_segment_start, sieve_detector}
use generalcompute2api.Sieve.Settled.{IsSettled, calls_of, text_of}
use generalcompute2api.Sieve.Process.{held, flush, process_chunk}
use generalcompute2api.Sieve.Xml.{ToolCallParseResult}

-- The length of each block is its call.
abbrev by_length : Str → ToolCallParseResult ℕ
by_length b = record {
  calls = if leb 20 (length b) then length b ∷ [] else [];
  saw_tool_call_syntax = true;
}

abbrev detector : Detector ℕ
detector = sieve_detector lower_kelvin str_eq by_length []

abbrev two_blocks : Str
two_blocks = codes "<tool_call></tool_call><tool_call>x</tool_call>"

abbrev calls_and_text : Run (State ℕ × List (Event ℕ)) → Option (List ℕ × Str)
calls_and_text (ok (st, events)) = some (calls_of events, text_of events)
calls_and_text _ = none

-- Of two blocks in one chunk only the calls of the second are emitted.
two_blocks_test :
    calls_and_text (process_chunk detector initial two_blocks >>= λ (st, _). flush detector st)
    ≡ some (24 ∷ [], [])
unfolding process_chunk flush to_lower find_tool_segment_start simulate_code_fence_state
    consume_tool_capture
two_blocks_test = refl

-- A text that is held back and the rest of it.
abbrev holding : State ℕ
holding = record initial { pending = codes "see <tool_"; pending_tool_calls = 7 ∷ [] }

process_chunk-IsSubsequence_example :
    Ends Unit
      (λ (after, events).
        IsSubsequence (text_of events ++ held after) (codes "see <tool_call>")
        × IsSettled after
        × (calls_of events ≡ 7 ∷ []))
      (process_chunk (sieve_detector lower_kelvin str_eq by_length []) holding (codes "call>"))
process_chunk-IsSubsequence_example =
    process_chunk-IsSubsequence lower_kelvin str_eq by_length [] holding (codes "call>") (λ _. refl)

flush_gives_back_example :
    Ends Unit
      (λ (after, events).
        IsSubsequence (text_of events) (codes "see <tool_")
        × (held after ≡ [])
        × (after.pending_tool_calls ≡ [])
        × (after.capturing ≡ false))
      (flush (sieve_detector lower_kelvin str_eq by_length []) holding)
flush_gives_back_example = flush_gives_back lower_kelvin str_eq by_length [] holding (λ _. refl)
