-- ===== src/Sieve/Lawful.antt =====
-- The sieve's detector keeps to what the sieve relies on.
use generalcompute2api.Prelude.{ℕ, suc, ◌≡◌, ◌⊎◌, inr, Bool, false, List, [], ◌++◌, length, arith}
use generalcompute2api.Prelude.Runs.{Ends}
use generalcompute2api.Prelude.Text.{Str}
use generalcompute2api.Util.Lower.{to_lower}
use generalcompute2api.Sieve.{State}
use generalcompute2api.Sieve.Captures.{IsQuiet}
use generalcompute2api.Sieve.Consumed.{consume_xml-Leaves}
use generalcompute2api.Sieve.Detect.{sanitize_loose_cdata, sieve_detector}
use generalcompute2api.Sieve.Flushed.{EndsLawfully, flush-Empties, subsequence_order}
use generalcompute2api.Sieve.Kept.{process_chunk-Leaves}
use generalcompute2api.Sieve.Settled.{IsSettled, calls_of, text_of}
use generalcompute2api.Sieve.Process.{flush, held, process_chunk}
use generalcompute2api.Sieve.Subsequences.{IsSubsequence}
use generalcompute2api.Sieve.Xml.{ToolCallParseResult}
use generalcompute2api.Sieve.Sanitized.{sanitize_loop-Ends, sieve_detector-IsLawful}

module _ {C : Type 0} (lower_rune : ℕ → ℕ) (equal_fold : Str → Str → Bool)
    (parse : Str → ToolCallParseResult C) (names : List Str) where
  sanitize-Ends : (s : Str) → Ends Unit (λ t. IsSubsequence t s) (sanitize_loose_cdata lower_rune s)
  unfolding sanitize_loose_cdata
  sanitize-Ends s =
      sanitize_loop-Ends lower_rune (suc (length s)) s (to_lower lower_rune s) 0 (omega arith)

  loses_some : (b : Str) → IsQuiet (parse b) ⊎ ((x y : Str) → IsSubsequence x y → IsSubsequence x y)
  loses_some b = inr (λ x y h. h)

  sieve_detector-EndsLawfully : EndsLawfully (sieve_detector lower_rune equal_fold parse names)
  sieve_detector-EndsLawfully = record {
    consume_xml_ends =
        consume_xml-Leaves lower_rune equal_fold parse IsSubsequence subsequence_order loses_some;
    sanitize_ends = sanitize-Ends;
  }

  -- Whatever the parser finds in the blocks, taking a chunk does not run for ever, though a slice may be
  -- out of range. The text that is emitted, and after it the text that is still held, is a part of the
  -- text that was held before and the chunk, in the same order: nothing is added, doubled or moved. The calls that are
  -- emitted are those that an earlier chunk deferred.
  pub process_chunk-IsSubsequence :
      (st : State C) (chunk : Str)
      → IsSettled st
      → Ends Unit
          (λ (after, events).
            IsSubsequence (text_of events ++ held after) (held st ++ chunk)
            × IsSettled after
            × (calls_of events ≡ st.pending_tool_calls))
          (process_chunk (sieve_detector lower_rune equal_fold parse names) st chunk)
  process_chunk-IsSubsequence st chunk w =
      process_chunk-Leaves IsSubsequence subsequence_order
        (sieve_detector lower_rune equal_fold parse names)
        (sieve_detector-IsLawful lower_rune equal_fold parse IsSubsequence subsequence_order
          loses_some names)
        st chunk w

  -- At the end of the stream the sieve gives back a part of the text that it holds, in the same order,
  -- and keeps no text and no calls. It does not run for ever, though a slice may be out of range.
  pub flush_gives_back :
      (st : State C)
      → IsSettled st
      → Ends Unit
          (λ (after, events).
            IsSubsequence (text_of events) (held st)
            × (held after ≡ [])
            × (after.pending_tool_calls ≡ [])
            × (after.capturing ≡ false))
          (flush (sieve_detector lower_rune equal_fold parse names) st)
  flush_gives_back st w =
      flush-Empties (sieve_detector lower_rune equal_fold parse names)
        (sieve_detector-IsLawful lower_rune equal_fold parse IsSubsequence subsequence_order
          loses_some names)
        sieve_detector-EndsLawfully st w
