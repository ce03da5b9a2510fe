-- ===== src/Fence/Blocks.antt =====
-- Code fences: a fenced block opens and closes.
use generalcompute2api.Prelude.{
  ℕ, zero, suc, ◌≤◌, ◌≡◌, refl, ◌∙◌, ap, List, [], ◌∷◌, ◌++◌, true, false, arith, replicate, All,
  ◌==◌, ◌||◌, ◌+◌,
}
use generalcompute2api.Prelude.Int.{ℤ, pos}
use generalcompute2api.Prelude.Text.{Str}
use generalcompute2api.Fence.{
  CodeFence, simulate_code_fence_state, simulate_byte, flush_pending, apply_fence_marker,
  after_other,
}
use generalcompute2api.Fence.Chunks.{simulate_append}

abbrev pub tick : ℕ
tick = b'`'

abbrev pub newline : ℕ
newline = b'\n'

-- A character of no fence.
abbrev pub IsPlain : ℕ → Type 0
IsPlain ch = ((ch == b'`') || (ch == b'~')) ≡ false

-- Between two lines, with these fences open.
abbrev pub between_lines : List ℤ → CodeFence
between_lines s = record { stack = s; pending_ticks = 0; pending_tildes = 0; line_start = true }

plain_byte :
    (ch : ℕ) (f : CodeFence) → IsPlain ch → simulate_byte ch f ≡ after_other ch (flush_pending f)
unfolding simulate_byte
plain_byte ch f h = ground arith

flush_after_other :
    (ch : ℕ) (f : CodeFence)
    → (flush_pending (after_other ch (flush_pending f))).stack ≡ (flush_pending f).stack
unfolding flush_pending
flush_after_other ch f = ground arith

flush_no_pending : (f : CodeFence) → simulate_byte newline f ≡ between_lines (flush_pending f).stack
unfolding flush_pending simulate_byte
flush_no_pending f = ground arith

-- A line that has no character of a fence.
plain_line :
    (text : Str) (f : CodeFence)
    → All IsPlain text
    → simulate_code_fence_state f (text ++ newline ∷ []) ≡ between_lines (flush_pending f).stack
unfolding simulate_code_fence_state
plain_line [] f h = flush_no_pending f
plain_line (ch ∷ text) f h =
    plain_line text (simulate_byte ch f) h.1
    ∙ ap (λ g. between_lines (flush_pending g).stack) (plain_byte ch f h.0)
    ∙ ap between_lines (flush_after_other ch f)

-- At the start of a line after `k` ticks.
abbrev ticked : List ℤ → ℕ → CodeFence
ticked s k = record { stack = s; pending_ticks = k; pending_tildes = 0; line_start = true }

after_ticks :
    (n k : ℕ) (s : List ℤ)
    → simulate_code_fence_state (ticked s k) (replicate n tick) ≡ ticked s (n + k)
unfolding simulate_code_fence_state simulate_byte
after_ticks zero k s = ap (ticked s) (omega arith)
after_ticks (suc n) k s = after_ticks n (suc k) s ∙ ap (ticked s) (omega arith)

flush_ticks_at_line :
    (n : ℕ) (s : List ℤ) → 3 ≤ n → (flush_pending (ticked s n)).stack ≡ apply_fence_marker (pos n) s
unfolding flush_pending
flush_ticks_at_line n s h = ground arith

-- Several ticks at the start of a line, and the rest of that line and others after it.
pub tick_fence :
    (n : ℕ) (text : Str) (s : List ℤ)
    → 3 ≤ n
    → All IsPlain text
    → simulate_code_fence_state (between_lines s) (replicate n tick ++ (text ++ newline ∷ []))
      ≡ between_lines (apply_fence_marker (pos n) s)
tick_fence n text s h k =
    simulate_append (replicate n tick) (text ++ newline ∷ []) (between_lines s)
    ∙ ap (λ g. simulate_code_fence_state g (text ++ newline ∷ [])) (after_ticks n 0 s)
    ∙ plain_line text _ k
    ∙ ap between_lines
        (ap (λ m. (flush_pending (ticked s m)).stack) (omega arith) ∙ flush_ticks_at_line n s h)

abbrev pub opening : ℕ → Str → Str
opening n body = replicate n tick ++ (body ++ newline ∷ [])

abbrev pub closing : ℕ → Str
closing m = replicate m tick ++ (newline ∷ [])

opens : (n : ℕ) → 3 ≤ n → apply_fence_marker (pos n) [] ≡ pos n ∷ []
unfolding apply_fence_marker
opens zero h = ground arith
opens (suc n) h = refl

closes : (n m : ℕ) → 3 ≤ n → n ≤ m → apply_fence_marker (pos m) (pos n ∷ []) ≡ []
unfolding apply_fence_marker
closes zero m h k = ground arith
closes (suc n) zero h k = ground arith
closes (suc n) (suc m) h k = ground arith

-- A fence of at least three backticks at the start of a line opens a block that lasts over any text
-- without backticks and tildes, and a fence of at least as many backticks closes it.
pub fenced_block :
    (n m : ℕ) (body : Str)
    → 3 ≤ n
    → n ≤ m
    → All IsPlain body
    → (simulate_code_fence_state (between_lines []) (opening n body) ≡ between_lines (pos n ∷ []))
      × (simulate_code_fence_state (between_lines []) (opening n body ++ closing m)
          ≡ between_lines [])
fenced_block n m body h k p =
    let open_first = tick_fence n body [] h p ∙ ap between_lines (opens n h) in
    (
      open_first,
      simulate_append (opening n body) (closing m) (between_lines [])
          ∙ ap (λ g. simulate_code_fence_state g (closing m)) open_first
          ∙ tick_fence m [] (pos n ∷ []) (omega (arith, h, k)) tt
          ∙ ap between_lines (closes n m h k),
    )
