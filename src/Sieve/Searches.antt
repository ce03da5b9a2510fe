-- ===== src/Sieve/Searches.antt =====
-- internal/toolstream: the searches for the start of a block.
use generalcompute2api.Prelude.{
  ltb_false→le, ℕ, zero, suc, ◌+◌, ◌-◌, ◌<◌, subst, true, false, not, ◌&&◌, ◌||◌, none, some, leb,
  ltb, ◌==◌, length, take, drop, arith, both_branches, leb_false→lt, ltb_false→le,
}
use Prim.Native.Nat.{min}
use generalcompute2api.Prelude.Runs.{
  Ends, Ends-any, Ends-bind, Ends-elim, Ends-if, Ends-ok, Ends-option, Ends-panics, Ends-slice_from,
  Ends-slice_to,
}
use generalcompute2api.Prelude.Strings.{index}
use generalcompute2api.Prelude.Text.{Str, codes, has_prefix}
use generalcompute2api.Util.Lower.{to_lower}
use generalcompute2api.Fence.{CodeFence, inside_code_fence_with_state}
use generalcompute2api.Markup.Bounds.{Advances, consume_once-Ends, reach}
use generalcompute2api.Markup.Names.{has_tool_markup_name_prefix, tool_markup_names}
use generalcompute2api.Markup.Scan.{partial_prefix_loop}
use generalcompute2api.Sieve.Bare.{
  find_minimax_tool_call_start, find_partial_minimax_tool_call_start, minimax_loop, minimax_marker,
  partial_minimax_loop,
}
use generalcompute2api.Sieve.Fences.{
  find_shell_code_fence_start, is_shell_code_fence_open_line, line_length, next_line,
  shell_fence_loop, starts_line,
}

-- Any value.
abbrev pub Any {ℓ} : {A : Type ℓ} → A → Type 0
Any a = Unit {0}

pub partial_prefix_loop-Ends :
    (fuel : ℕ) (lower text : Str) (i : ℕ)
    → suc (length text) - i < fuel
    → Ends Unit Any (partial_prefix_loop fuel lower text i)
unfolding partial_prefix_loop
partial_prefix_loop-Ends zero lower text i h = absurd (omega (arith, h))
partial_prefix_loop-Ends (suc fuel) lower text i h =
    Ends-if _ _ (ltb (length text) i) _ _ (λ e. Ends-ok _ Any false tt)
      (λ e.
        Ends-if _ _ (i == length text) _ _ (λ _. Ends-ok _ Any true tt)
          (λ _. Ends-bind _ _ _ _ _ (Ends-slice_from i lower) (λ tail _.
            Ends-if _ _
              (has_tool_markup_name_prefix tool_markup_names tail
                || has_prefix (codes "dsml") tail
                || has_prefix (codes "zjml") tail
                || has_prefix (codes "qnml") tail)
              _ _ (λ _. Ends-ok _ Any true tt)
              (λ _.
                Ends-bind _ _ _ _ _
                  (Ends-any _ _ _ (
                    consume_once-Ends lower text i (omega (arith, ltb_false→le (length text) i e))))
                  (λ o a.
                    Ends-option _ _ o _ _ (λ _. Ends-ok _ Any false tt)
                      (λ next s. partial_prefix_loop-Ends fuel lower text next (
                        omega (
                          arith,
                          h,
                          ltb_false→le (length text) i e,
                          (subst (Advances i (reach lower text)) s a).0,
                        ))))))))

minimax_loop-Ends :
    (lower_rune : ℕ → ℕ) (fuel : ℕ) (f : CodeFence) (s lower : Str) (offset : ℕ)
    → length lower - offset < fuel
    → Ends Unit Any (minimax_loop lower_rune fuel f s lower offset)
unfolding minimax_loop
minimax_loop-Ends r zero f s lower offset h = absurd (omega (arith, h))
minimax_loop-Ends r (suc fuel) f s lower offset h =
    Ends-if _ _ (leb (length lower) offset) _ _ (λ e. Ends-ok _ Any none tt)
      (λ e.
        Ends-option _ _ (index (drop offset lower) minimax_marker) _ _ (λ _. Ends-ok _ Any none tt)
          (λ i _. Ends-bind _ _ _ _ _ (Ends-slice_to (i + offset) s) (λ before _.
            Ends-elim _ _
              (starts_line s (i + offset) && not (inside_code_fence_with_state f before)) _ _
              (λ _. Ends-ok _ Any (some (i + offset)) tt)
              (λ _.
                minimax_loop-Ends r fuel f s lower (i + offset + 16)
                  (omega (arith, h, leb_false→lt (length lower) offset e))))))

partial_minimax_loop-Ends :
    (lower_rune : ℕ → ℕ) (s lower : Str) (n : ℕ)
    → Ends Unit Any (partial_minimax_loop lower_rune s lower n)
unfolding partial_minimax_loop
partial_minimax_loop-Ends r s lower zero = Ends-ok _ Any none tt
partial_minimax_loop-Ends r s lower (suc n) =
    let less = partial_minimax_loop-Ends r s lower n in
    Ends-if _ _ (ltb (suc n) 4) _ _ (λ _. Ends-ok _ Any none tt)
      (λ _.
        Ends-if _ _ (not (has_prefix minimax_marker (drop (length lower - suc n) lower))) _ _
          (λ _. less)
          (λ _.
            Ends-if _ _ (ltb (length s) (suc n)) _ _ (λ _. Ends-panics Any)
              (λ _.
                Ends-if _ _ (starts_line s (length s - suc n)) _ _
                  (λ _. Ends-ok _ Any (some (length s - suc n)) tt) (λ _. less))))

next_line-gt : (s : Str) (line_end : ℕ) → line_end < next_line s line_end
unfolding next_line
next_line-gt s line_end =
    both_branches (λ n. line_end < n) (has_prefix (drop line_end s) (codes "\r\n")) (omega arith)
      (omega arith)

shell_fence_loop-Ends :
    (lower_rune : ℕ → ℕ) (fuel : ℕ) (f : CodeFence) (s : Str) (line_start : ℕ)
    → length s - line_start < fuel
    → Ends Unit Any (shell_fence_loop lower_rune fuel f s line_start)
unfolding shell_fence_loop
shell_fence_loop-Ends r zero f s line_start h = absurd (omega (arith, h))
shell_fence_loop-Ends r (suc fuel) f s line_start h =
    let rest = drop line_start s in
    let line_end = line_start + line_length rest in
    Ends-if _ _ (leb (length s) line_start) _ _ (λ _. Ends-ok _ Any none tt)
      (λ e.
        Ends-if _ _
          (is_shell_code_fence_open_line r (take (line_length rest) rest)
            && not (inside_code_fence_with_state f (take line_start s)))
          _ _ (λ _. Ends-ok _ Any (some line_start) tt)
          (λ _.
            Ends-elim _ _ (leb (length s) line_end) _ _ (λ _. Ends-ok _ Any none tt)
              (λ _.
                shell_fence_loop-Ends r fuel f s (next_line s line_end) (
                  omega
                    (arith, h, leb_false→lt (length s) line_start e, next_line-gt s line_end)))))

pub find_shell-Ends :
    (lower_rune : ℕ → ℕ) (f : CodeFence) (s : Str)
    → Ends Unit Any (find_shell_code_fence_start lower_rune f s)
unfolding find_shell_code_fence_start
find_shell-Ends r f s = shell_fence_loop-Ends r (suc (length s)) f s 0 (omega arith)

pub find_minimax-Ends :
    (lower_rune : ℕ → ℕ) (f : CodeFence) (s : Str)
    → Ends Unit Any (find_minimax_tool_call_start lower_rune f s)
unfolding find_minimax_tool_call_start
find_minimax-Ends r f s =
    minimax_loop-Ends r (suc (length (to_lower r s))) f s (to_lower r s) 0 (omega arith)

pub find_partial_minimax-Ends :
    (lower_rune : ℕ → ℕ) (s : Str)
    → Ends Unit Any (find_partial_minimax_tool_call_start lower_rune s)
unfolding find_partial_minimax_tool_call_start
find_partial_minimax-Ends r s =
    partial_minimax_loop-Ends r s (to_lower r s)
      (min (length (to_lower r s)) (length minimax_marker - 1))
