-- ===== src/Fence/Chunks.antt =====
-- Code fences: how the text is cut into chunks does not matter.
use generalcompute2api.Prelude.{
  ◌≡◌, refl, sym, if◌then◌else◌, All, ◌∙◌, ap, List, [], ◌∷◌, ◌++◌, true,
}
use generalcompute2api.Prelude.Text.{Str}
use generalcompute2api.Fence.{
  CodeFence, simulate_byte, simulate_code_fence_state, note_text, has_meaningful_text,
}

pub simulate_append :
    (a b : Str) (f : CodeFence)
    → simulate_code_fence_state f (a ++ b)
      ≡ simulate_code_fence_state (simulate_code_fence_state f a) b
unfolding simulate_code_fence_state
simulate_append [] b f = refl
simulate_append (ch ∷ a) b f = simulate_append a b (simulate_byte ch f)

abbrev pub note_all : List Str → CodeFence → CodeFence
note_all [] f = f
note_all (chunk ∷ chunks) f = note_all chunks (note_text chunk f)

abbrev pub concat : List Str → Str
concat [] = []
concat (chunk ∷ chunks) = chunk ++ concat chunks

-- Chunks that are noted one by one leave the state that their concatenation leaves, as long as none of
-- them is white space alone.
pub note_all-concat :
    (chunks : List Str) (f : CodeFence)
    → All (λ c. has_meaningful_text c ≡ true) chunks
    → note_all chunks f ≡ simulate_code_fence_state f (concat chunks)
unfolding note_text simulate_code_fence_state
note_all-concat [] f h = refl
note_all-concat (c ∷ chunks) f h =
    ap (λ b. note_all chunks (if b then simulate_code_fence_state f c else f)) h.0
    ∙ note_all-concat chunks _ h.1
    ∙ sym (simulate_append c (concat chunks) f)
