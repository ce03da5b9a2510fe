-- ===== src/Fence.antt =====
-- internal/toolstream/tool_sieve_state.go: the Markdown code fences that the tool sieve keeps track of.
-- The stack is a list with its top first. The sieve's field codeFenceNotLineStart is kept as `line_start`,
-- its negation, as in the simulation.
pub mod Chunks
pub mod Blocks
pub mod Stack
pub mod Tests
use generalcompute2api.Prelude.{
  ℕ, zero, suc, Bool, true, false, not, ◌&&◌, ◌||◌, List, [], ◌∷◌, if◌then◌else◌, leb, ltb, ◌==◌,
}
use generalcompute2api.Prelude.Int.{ℤ, pos, negsuc}
use generalcompute2api.Prelude.Text.{Str, trim_space}

pub record CodeFence : Type 0 where
  pub stack : List ℤ
  pub pending_ticks : ℕ
  pub pending_tildes : ℕ
  pub line_start : Bool

-- The state before any text.
abbrev pub no_fence : CodeFence
no_fence = record { stack = []; pending_ticks = 0; pending_tildes = 0; line_start = true }

abbrev pub same_type : ℤ → ℤ → Bool
same_type (pos (suc a)) (pos (suc b)) = true
same_type (negsuc a) (negsuc b) = true
same_type _ _ = false

abbrev pub magnitude : ℤ → ℕ
magnitude (pos n) = n
magnitude (negsuc n) = suc n

-- `-n`.
abbrev pub negated : ℕ → ℤ
negated zero = pos 0
negated (suc n) = negsuc n

unfoldable pub apply_fence_marker : ℤ → List ℤ → List ℤ
apply_fence_marker (pos zero) stack = stack
apply_fence_marker marker [] = marker ∷ []
apply_fence_marker marker (top ∷ rest) =
    if same_type top marker && leb (magnitude top) (magnitude marker)
    then rest
    else marker ∷ top ∷ rest

-- One half of `flushPending`: `count` characters of a fence are over, whose marker is `marker`.
abbrev pub flush_marker : ℕ → ℤ → CodeFence → CodeFence
flush_marker count marker f =
    if ltb 0 count
    then record f {
      stack = if f.line_start && leb 3 count then apply_fence_marker marker f.stack else f.stack;
      line_start = false;
    }
    else f

abbrev pub flush_ticks : CodeFence → CodeFence
flush_ticks f =
    let g = flush_marker f.pending_ticks (pos f.pending_ticks) f in record g { pending_ticks = 0 }

abbrev pub flush_tildes : CodeFence → CodeFence
flush_tildes f =
    let g = flush_marker f.pending_tildes (negated f.pending_tildes) f in
    record g { pending_tildes = 0 }

unfoldable pub flush_pending : CodeFence → CodeFence
flush_pending f = flush_tildes (flush_ticks f)

-- The `switch` on a character that is no part of a fence.
abbrev pub after_other : ℕ → CodeFence → CodeFence
after_other ch f =
    if ch == b'\n' || ch == b'\r'
    then record f { line_start = true }
    else if (ch == b' ' || ch == b'\t') && f.line_start
    then f
    else record f { line_start = false }

-- One character of the loop.
unfoldable pub simulate_byte : ℕ → CodeFence → CodeFence
simulate_byte ch f =
    if ch == b'`'
    then (let g = if ltb 0 f.pending_tildes then flush_pending f else f in
        record g { pending_ticks = suc g.pending_ticks })
    else if ch == b'~'
    then (let g = if ltb 0 f.pending_ticks then flush_pending f else f in
        record g { pending_tildes = suc g.pending_tildes })
    else after_other ch (flush_pending f)

unfoldable pub simulate_code_fence_state : CodeFence → Str → CodeFence
simulate_code_fence_state f [] = f
simulate_code_fence_state f (ch ∷ text) = simulate_code_fence_state (simulate_byte ch f) text

abbrev pub non_empty {ℓ} : {A : Type ℓ} → List A → Bool
non_empty [] = false
non_empty (x ∷ xs) = true

abbrev pub has_meaningful_text : Str → Bool
has_meaningful_text text = non_empty (trim_space text)

abbrev pub inside_code_fence_with_state : CodeFence → Str → Bool
inside_code_fence_with_state f text = non_empty (simulate_code_fence_state f text).stack

abbrev pub inside_code_fence : Str → Bool
inside_code_fence text = inside_code_fence_with_state no_fence text

-- `noteText` and `updateCodeFenceState`, which asks the same question again.
unfoldable pub note_text : Str → CodeFence → CodeFence
note_text text f = if has_meaningful_text text then simulate_code_fence_state f text else f
