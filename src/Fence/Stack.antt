-- ===== src/Fence/Stack.antt =====
-- Code fences: the stack of open fences.
use generalcompute2api.Prelude.{ℕ, zero, suc, ◌≤◌, ◌<◌, ◌≡◌, refl, List, [], ◌∷◌, true, arith}
use generalcompute2api.Prelude.Int.{ℤ, pos, negsuc}
use generalcompute2api.Prelude.Text.{Str}
use generalcompute2api.Fence.{
  CodeFence, simulate_code_fence_state, simulate_byte, flush_pending, flush_marker, flush_ticks,
  negated, apply_fence_marker, magnitude, same_type,
}

-- What stands directly on `below`: a fence of another type, or a shorter one.
abbrev pub StandsOn : ℤ → List ℤ → Type 0
StandsOn m [] = Unit {0}
StandsOn m (below ∷ s) = same_type below m ≡ true → magnitude m < magnitude below

-- Each open fence has at least three characters, and one that stands on a fence of its own type is shorter.
abbrev pub IsNested : List ℤ → Type 0
IsNested [] = Unit {0}
IsNested (m ∷ s) = (3 ≤ magnitude m) × StandsOn m s × IsNested s

apply_fence_marker-IsNested :
    (m : ℤ) (s : List ℤ) → 3 ≤ magnitude m → IsNested s → IsNested (apply_fence_marker m s)
unfolding apply_fence_marker
apply_fence_marker-IsNested (pos zero) s b h = h
apply_fence_marker-IsNested (pos (suc n)) [] b h = (b, tt, tt)
apply_fence_marker-IsNested (negsuc n) [] b h = (b, tt, tt)
apply_fence_marker-IsNested (pos (suc n)) (t ∷ s) b h = ground arith
apply_fence_marker-IsNested (negsuc n) (t ∷ s) b h = ground arith

flush_marker-IsNested :
    (n : ℕ) (m : ℤ) (f : CodeFence)
    → magnitude m ≡ n
    → IsNested f.stack
    → IsNested (flush_marker n m f).stack
flush_marker-IsNested n m f e h = ground (arith, apply_fence_marker-IsNested m f.stack)

magnitude-negated : (n : ℕ) → magnitude (negated n) ≡ n
magnitude-negated zero = refl
magnitude-negated (suc n) = refl

flush_pending-IsNested : (f : CodeFence) → IsNested f.stack → IsNested (flush_pending f).stack
unfolding flush_pending
flush_pending-IsNested f h =
    flush_marker-IsNested (flush_ticks f).pending_tildes (negated (flush_ticks f).pending_tildes)
      (flush_ticks f) (magnitude-negated _)
      (flush_marker-IsNested f.pending_ticks (pos f.pending_ticks) f refl h)

simulate_byte-IsNested :
    (ch : ℕ) (f : CodeFence) → IsNested f.stack → IsNested (simulate_byte ch f).stack
unfolding simulate_byte
simulate_byte-IsNested ch f h = ground (arith, flush_pending-IsNested f h)

-- Whatever text is read, the open fences are at least three characters long and a fence that stands on
-- another of its own type is shorter than it, if that was so before.
pub simulate_code_fence_state-IsNested :
    (text : Str) (f : CodeFence)
    → IsNested f.stack
    → IsNested (simulate_code_fence_state f text).stack
unfolding simulate_code_fence_state
simulate_code_fence_state-IsNested [] f h = h
simulate_code_fence_state-IsNested (ch ∷ text) f h =
    simulate_code_fence_state-IsNested text _ (simulate_byte-IsNested ch f h)
