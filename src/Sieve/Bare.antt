-- ===== src/Sieve/Bare.antt =====
-- internal/toolstream/tool_sieve_core.go: the markers of MiniMax calls, and the tags that are named after
-- a tool. The aliases of a name come from internal/toolcall/tool_name_alias.go.
use generalcompute2api.Prelude.{
  ℕ, zero, suc, ◌+◌, ◌-◌, Bool, true, false, not, ◌&&◌, ◌||◌, List, [], ◌∷◌, ◌++◌, Option, none,
  some, if◌then◌else◌, leb, ltb, ◌==◌, length, take, drop,
}
use Prim.Native.Nat.{min}
use generalcompute2api.Prelude.Runs.{Run, ok, panics, out_of_fuel, ◌>>=◌, slice_to}
use generalcompute2api.Prelude.Strings.{contains, count, head_is, index, run_length}
use generalcompute2api.Prelude.Text.{Str, codes, has_prefix, str_eq, trim_space}
use generalcompute2api.Util.Lower.{to_lower}
use generalcompute2api.Fence.{CodeFence, inside_code_fence_with_state, non_empty}
use generalcompute2api.Markup.Names.{is_boundary}
use generalcompute2api.ToolNames.{from_qwen_tool_name, to_qwen_tool_name}
use generalcompute2api.Sieve.Fences.{after_last, include_duplicate_leading_less_than, starts_line}

abbrev pub minimax_marker : Str
minimax_marker = codes "minimaxtool_call"

module _ (lower_rune : ℕ → ℕ) where
  -- The loop of `findMinimaxToolCallStart`.
  unfoldable pub minimax_loop : ℕ → CodeFence → Str → Str → ℕ → Run (Option ℕ)
  unfolding index starts_line
  minimax_loop zero f s lower offset = out_of_fuel
  minimax_loop (suc fuel) f s lower offset =
      if leb (length lower) offset
      then ok none
      else elim (index (drop offset lower) minimax_marker) [
        | none ↦ ok none
        | some i ↦
            let idx = i + offset in
            slice_to idx s >>= λ before.
            elim (starts_line s idx && not (inside_code_fence_with_state f before)) [
              | true ↦ ok (some idx)
              | false ↦ minimax_loop fuel f s lower (idx + length minimax_marker)
            ]
      ]

  unfoldable pub find_minimax_tool_call_start : CodeFence → Str → Run (Option ℕ)
  unfolding minimax_loop
  find_minimax_tool_call_start f s =
      let lower = to_lower lower_rune s in minimax_loop (suc (length lower)) f s lower 0

  -- The loop of `findPartialMinimaxToolCallStart` at `n` and below.
  unfoldable pub partial_minimax_loop : Str → Str → ℕ → Run (Option ℕ)
  unfolding has_prefix starts_line
  partial_minimax_loop s lower zero = ok none
  partial_minimax_loop s lower (suc n) =
      let less = partial_minimax_loop s lower n in
      let start = length s - suc n in
      if ltb (suc n) 4
      then ok none
      else if not (has_prefix minimax_marker (drop (length lower - suc n) lower))
      then less
      else if ltb (length s) (suc n)
      then panics
      else if starts_line s start
      then ok (some start)
      else less

  unfoldable pub find_partial_minimax_tool_call_start : Str → Run (Option ℕ)
  unfolding partial_minimax_loop
  find_partial_minimax_tool_call_start s =
      let lower = to_lower lower_rune s in
      partial_minimax_loop s lower (min (length lower) (length minimax_marker - 1))

abbrev pub any_tool : Str
any_tool = codes "__any_tool__"

abbrev skipped_name : Str → Bool
unfolding str_eq
skipped_name name = str_eq name [] || str_eq name any_tool

-- The length of a tag's name.
unfoldable pub tag_name_length : Str → ℕ
unfolding run_length
tag_name_length s = run_length (λ c. not (is_boundary c)) s

module _ (lower_rune : ℕ → ℕ) (equal_fold : Str → Str → Bool) where
  unfoldable pub matches_any_tool_name : Str → List Str → Bool
  unfolding skipped_name to_lower trim_space str_eq from_qwen_tool_name to_qwen_tool_name
  matches_any_tool_name tag_name [] = false
  matches_any_tool_name tag_name (name ∷ names) =
      let rest = matches_any_tool_name tag_name names in
      if not (non_empty tag_name)
      then false
      else if skipped_name name
      then rest
      else equal_fold tag_name name
        || equal_fold tag_name (to_qwen_tool_name lower_rune name)
        || equal_fold tag_name (from_qwen_tool_name lower_rune name)
        || str_eq (codes "u_" ++ to_lower lower_rune name)
            (to_lower lower_rune (trim_space tag_name))
        || rest

  -- A complete tag at the start of a text that is named after a tool.
  unfoldable pub bare_tag_at : Str → List Str → Bool
  unfolding tag_name_length matches_any_tool_name
  bare_tag_at [] names = false
  bare_tag_at (c ∷ s) names =
      let n = tag_name_length s in
      c == b'<'
      && non_empty s
      && not (head_is (λ x. x == b'/' || x == b'?') s)
      && leb 1 n
      && matches_any_tool_name (take n s) names
      && contains (drop n s) (codes ">")

  -- The loop of `findBareToolNameTagStart` from position `i`, where `before` is the text before it.
  unfoldable pub bare_tag_loop : CodeFence → Str → Str → List Str → Option ℕ
  unfolding bare_tag_at
  bare_tag_loop f before [] names = none
  bare_tag_loop f before (c ∷ s) names =
      let later = bare_tag_loop f (before ++ c ∷ []) s names in
      if bare_tag_at (c ∷ s) names && not (inside_code_fence_with_state f before)
      then some (length before)
      else later

  unfoldable pub find_bare_tool_name_tag_start : CodeFence → Str → List Str → Option ℕ
  unfolding bare_tag_loop
  find_bare_tool_name_tag_start f s [] = none
  find_bare_tool_name_tag_start f s (name ∷ names) = bare_tag_loop f [] s (name ∷ names)

module _ (lower_rune : ℕ → ℕ) where
  -- The name of a tag that is cut off begins like the name of a tool, or the other way round.
  unfoldable pub begins_tool_name : Str → List Str → Bool
  unfolding skipped_name has_prefix to_lower
  begins_tool_name partial [] = false
  begins_tool_name partial (name ∷ names) =
      let rest = begins_tool_name partial names in
      let a = to_lower lower_rune name in
      let b = to_lower lower_rune partial in
      if skipped_name name then rest else has_prefix a b || has_prefix b a || rest

  unfoldable pub find_partial_bare_tool_name_tag_start : Str → List Str → Option ℕ
  unfolding after_last include_duplicate_leading_less_than begins_tool_name tag_name_length
  find_partial_bare_tool_name_tag_start s names = elim (after_last (λ c. c == b'<') s) [
    | zero ↦ none
    | suc last_lt ↦
        let start = include_duplicate_leading_less_than s last_lt in
        let tail = drop start s in
        let name = drop 1 tail in
        let n = tag_name_length name in
        if not (non_empty names)
          || contains tail (codes ">")
          || leb (length tail) 1
          || head_is (λ c. c == b'/') name
          || leb n 0
          || not (begins_tool_name (take n name) names)
        then none
        else some start
  ]

  -- The tags that `findBareToolNameBoundary` collects of one name.
  abbrev tags_of : Str → List Str
  unfolding skipped_name from_qwen_tool_name to_qwen_tool_name
  tags_of name =
      if skipped_name name
      then []
      else name
        ∷ (to_qwen_tool_name lower_rune name
            ∷ (let canonical = from_qwen_tool_name lower_rune name in
                if non_empty canonical then canonical ∷ [] else []))

  -- More opening tags than closing tags of a name.
  unfoldable pub is_open_tag : Str → Str → Bool
  unfolding count to_lower
  is_open_tag lower tag =
      let name = to_lower lower_rune tag in
      ltb (count lower (codes "</" ++ (name ++ codes ">")))
        (count lower (codes "<" ++ (name ++ codes ">")))

  unfoldable pub any_open_tag : Str → List Str → Bool
  unfolding is_open_tag
  any_open_tag lower [] = false
  any_open_tag lower (tag ∷ tags) = is_open_tag lower tag || any_open_tag lower tags

  -- `open` of `findBareToolNameBoundary`, which no caller asks for more.
  unfoldable pub has_open_bare_tag : Str → List Str → Bool
  unfolding any_open_tag tags_of
  has_open_bare_tag lower [] = false
  has_open_bare_tag lower (name ∷ names) =
      any_open_tag lower (tags_of name) || has_open_bare_tag lower names
