-- ===== src/Fence/Tests.antt =====
-- Code fences at concrete texts.
use generalcompute2api.Prelude.{◌≡◌, refl, [], ◌∷◌, ◌++◌, arith}
use generalcompute2api.Prelude.Int.{pos, negsuc}
use generalcompute2api.Prelude.Text.{codes, trim_space}
use generalcompute2api.Fence.{
  apply_fence_marker, flush_pending, simulate_byte, no_fence, note_text, simulate_code_fence_state,
}
use generalcompute2api.Fence.Blocks.{between_lines, closing, fenced_block, opening}
use generalcompute2api.Fence.Chunks.{concat, note_all, note_all-concat}
use generalcompute2api.Fence.Stack.{IsNested, simulate_code_fence_state-IsNested}

note_all-concat_example :
    note_all (codes "a\n``" ∷ codes "`go\nb" ∷ []) no_fence
    ≡ simulate_code_fence_state no_fence (concat (codes "a\n``" ∷ codes "`go\nb" ∷ []))
unfolding trim_space
note_all-concat_example =
    note_all-concat (codes "a\n``" ∷ codes "`go\nb" ∷ []) no_fence (refl, (refl, tt))

simulate_code_fence_state-IsNested_example :
    IsNested (simulate_code_fence_state no_fence (codes "~~~~\n```\n~~~\nx")).stack
simulate_code_fence_state-IsNested_example =
    simulate_code_fence_state-IsNested (codes "~~~~\n```\n~~~\nx") no_fence tt

nested_test :
    (simulate_code_fence_state no_fence (codes "~~~~\n```\n~~~\nx")).stack
    ≡ negsuc 2 ∷ pos 3 ∷ negsuc 3 ∷ []
unfolding simulate_code_fence_state simulate_byte flush_pending apply_fence_marker
nested_test = refl

fenced_block_example :
    (simulate_code_fence_state (between_lines []) (opening 3 (codes "sh\nls"))
      ≡ between_lines (pos 3 ∷ []))
    × (simulate_code_fence_state (between_lines []) (opening 3 (codes "sh\nls") ++ closing 4)
        ≡ between_lines [])
fenced_block_example =
    fenced_block 3 4 (codes "sh\nls") (omega arith) (omega arith)
      (refl, (refl, (refl, (refl, (refl, tt)))))

-- A line break that is a chunk of its own is not noted, so the fence after it is not seen; in one chunk
-- the same text opens it.
lone_newline_test :
    ((note_all (codes "a" ∷ codes "\n" ∷ codes "```\nb" ∷ []) no_fence).stack ≡ [])
    × ((note_text (codes "a\n```\nb") no_fence).stack ≡ pos 3 ∷ [])
unfolding note_text simulate_code_fence_state simulate_byte flush_pending apply_fence_marker
    trim_space
lone_newline_test = (refl, refl)
