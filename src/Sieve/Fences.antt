-- ===== src/Sieve/Fences.antt =====
-- internal/toolstream: the parts of tool_sieve_core.go and tool_sieve_jsonscan.go that read Markdown
-- fences and line starts. `text[:i]` is a panic where `i` is out of range.
use generalcompute2api.Prelude.{
  ℕ, zero, suc, ◌+◌, ◌-◌, ◌%◌, Bool, true, false, not, ◌&&◌, ◌||◌, List, [], ◌∷◌, ◌++◌, Option,
  none, some, if◌then◌else◌, leb, ltb, ◌==◌, length, take, drop, replicate, reverse,
}
use generalcompute2api.Prelude.Runs.{Run, ok, out_of_fuel}
use generalcompute2api.Prelude.Strings.{
  count, index_where, last_index, run_length, split_after_newline, trim_left_where,
  trim_right_where,
}
use generalcompute2api.Prelude.Text.{
  Str, codes, has_prefix, is_ascii_space, is_latin_space, is_wide_space, str_eq, trim_space,
}
use generalcompute2api.Util.Lower.{to_lower}
use generalcompute2api.Fence.{CodeFence, inside_code_fence_with_state, non_empty}
use generalcompute2api.Markup.Ignored.{is_blank}

abbrev pub is_newline : ℕ → Bool
is_newline c = c == b'\r' || c == b'\n'

abbrev pub is_space : ℕ → Bool
is_space c = is_newline c || is_blank c

-- `strings.LastIndexAny(s, "\r\n") + 1`, `strings.LastIndex(s, "<") + 1`: the position after the last
-- byte that passes the test, 0 where there is none.
unfoldable pub after_last : (ℕ → Bool) → Str → ℕ
unfolding run_length
after_last p s = length s - run_length (λ c. not (p c)) (reverse s)

-- `for idx > 0 && s[idx-1] == '<' { idx-- }`.
unfoldable pub include_duplicate_leading_less_than : Str → ℕ → ℕ
unfolding run_length
include_duplicate_leading_less_than s idx = idx - run_length (λ c. c == b'<') (reverse (take idx s))

-- Whether the position stands at the start of a line but for white space.
unfoldable pub starts_line : Str → ℕ → Bool
unfolding after_last trim_space
starts_line s idx =
    let line_start = after_last is_newline (take idx s) in
    not (non_empty (trim_space (drop line_start (take idx s))))

abbrev pub even : ℕ → Bool
even n = n % 2 == 0

abbrev pub shell_languages : List Str
shell_languages =
    codes "powershell"
    ∷ codes "pwsh"
    ∷ codes "ps1"
    ∷ codes "shell"
    ∷ codes "bash"
    ∷ codes "sh"
    ∷ codes "zsh"
    ∷ codes "cmd"
    ∷ codes "bat"
    ∷ codes "terminal"
    ∷ []

unfoldable pub member : Str → List Str → Bool
unfolding str_eq
member s [] = false
member s (t ∷ ts) = str_eq s t || member s ts

-- `strings.Fields(s)[0]` of a text that begins with no white space.
unfoldable pub first_field : Str → Str
first_field [] = []
first_field (a ∷ []) = if is_ascii_space a then [] else a ∷ []
first_field (a ∷ b ∷ []) =
    let rest = first_field (b ∷ []) in
    if is_ascii_space a || is_latin_space a b then [] else a ∷ rest
first_field (a ∷ b ∷ c ∷ s) =
    let rest = first_field (b ∷ c ∷ s) in
    if is_ascii_space a || is_latin_space a b || is_wide_space a b c then [] else a ∷ rest

-- The length of the line at the start of a text.
unfoldable pub line_length : Str → ℕ
unfolding index_where
line_length rest = elim (index_where is_newline rest) [ none ↦ length rest | some i ↦ i ]

-- The start of the line after the one that ends at `line_end`.
unfoldable pub next_line : Str → ℕ → ℕ
unfolding has_prefix
next_line s line_end =
    if has_prefix (drop line_end s) (codes "\r\n") then line_end + 2 else line_end + 1

abbrev is_brace : ℕ → Bool
is_brace c = c == b'{' || c == b'}'

module _ (lower_rune : ℕ → ℕ) where
  unfoldable pub is_shell_fence_language : Str → Bool
  unfolding member trim_space trim_left_where trim_right_where to_lower
  is_shell_fence_language lang =
      member
        (to_lower lower_rune
          (trim_right_where is_brace (trim_left_where is_brace (trim_space lang))))
        shell_languages

  unfoldable pub is_shell_code_fence_open_line : Str → Bool
  unfolding is_shell_fence_language run_length trim_left_where trim_space first_field
  is_shell_code_fence_open_line line = elim (trim_left_where is_blank line) [
    | [] ↦ false
    | ch ∷ tail ↦
        let count = run_length (λ c. c == ch) (ch ∷ tail) in
        let rest = trim_space (drop count (ch ∷ tail)) in
        (ch == b'`' || ch == b'~')
        && leb 4 (length (ch ∷ tail))
        && leb 3 count
        && non_empty rest
        && is_shell_fence_language (first_field rest)
  ]

  -- The loop of `findShellCodeFenceStart`.
  unfoldable pub shell_fence_loop : ℕ → CodeFence → Str → ℕ → Run (Option ℕ)
  unfolding is_shell_code_fence_open_line line_length next_line
  shell_fence_loop zero f s line_start = out_of_fuel
  shell_fence_loop (suc fuel) f s line_start =
      let rest = drop line_start s in
      let line_end = line_start + line_length rest in
      if leb (length s) line_start
      then ok none
      else if is_shell_code_fence_open_line (take (line_length rest) rest)
          && not (inside_code_fence_with_state f (take line_start s))
      then ok (some line_start)
      else elim (leb (length s) line_end) [
        | true ↦ ok none
        | false ↦ shell_fence_loop fuel f s (next_line s line_end)
      ]

  unfoldable pub find_shell_code_fence_start : CodeFence → Str → Run (Option ℕ)
  unfolding shell_fence_loop
  find_shell_code_fence_start f s = shell_fence_loop (suc (length s)) f s 0

  -- A proper beginning of one of the prefixes.
  unfoldable pub begins_shell_fence : Str → List Str → Bool
  unfolding has_prefix
  begins_shell_fence lower [] = false
  begins_shell_fence lower (language ∷ languages) =
      let ticks = codes "```" ++ language in
      let tildes = codes "~~~" ++ language in
      (ltb (length lower) (length ticks) && has_prefix ticks lower)
      || (ltb (length lower) (length tildes) && has_prefix tildes lower)
      || begins_shell_fence lower languages

  unfoldable pub find_partial_shell_code_fence_start : Str → Option ℕ
  unfolding after_last begins_shell_fence to_lower trim_left_where trim_space
  find_partial_shell_code_fence_start s =
      let line_start = after_last is_newline s in
      let line = drop line_start s in
      let trimmed = trim_left_where is_blank line in
      let leading = length line - length trimmed in
      if not (non_empty trimmed)
        || non_empty (trim_space (take leading line))
        || not (begins_shell_fence (to_lower lower_rune trimmed) shell_languages)
      then none
      else some (line_start + leading)

-- The characters like the first at the start of a line, where the first is ASCII, as a fence is.
unfoldable pub leading_fence_marker : Str → Str
unfolding run_length
leading_fence_marker [] = []
leading_fence_marker (ch ∷ line) = replicate (run_length (λ c. c == ch) (ch ∷ line)) ch

unfoldable pub is_matching_fence_close : Str → Str → Bool
unfolding run_length trim_space
is_matching_fence_close line [] = false
is_matching_fence_close [] (ch ∷ marker) = false
is_matching_fence_close (c ∷ line) (ch ∷ marker) =
    let count = run_length (λ x. x == ch) (c ∷ line) in
    c == ch
    && leb (suc (length marker)) count
    && not (non_empty (trim_space (drop count (c ∷ line))))

module _ (lower_rune : ℕ → ℕ) where
  -- One line of `hasOpenShellCodeFence`: the marker of the fence that is open, empty where none is.
  unfoldable pub shell_fence_line : Str → Str → Str
  unfolding is_shell_code_fence_open_line leading_fence_marker is_matching_fence_close
      trim_left_where trim_right_where
  shell_fence_line open_marker line =
      let trimmed = trim_left_where is_blank (trim_right_where is_newline line) in
      if not (non_empty open_marker)
      then (if is_shell_code_fence_open_line lower_rune trimmed
          then leading_fence_marker trimmed
          else [])
      else if is_matching_fence_close trimmed open_marker
      then []
      else open_marker

  unfoldable pub shell_fence_lines : Str → List Str → Str
  unfolding shell_fence_line
  shell_fence_lines open_marker [] = open_marker
  shell_fence_lines open_marker (line ∷ lines) =
      shell_fence_lines (shell_fence_line open_marker line) lines

  unfoldable pub has_open_shell_code_fence : Str → Bool
  unfolding shell_fence_lines split_after_newline
  has_open_shell_code_fence text = non_empty (shell_fence_lines [] (split_after_newline text))

module _ (equal_fold : Str → Str → Bool) where
  -- The texts around a call without a JSON fence that wraps it.
  unfoldable pub trim_wrapping_json_fence : Str → Str → Str × Str
  unfolding trim_left_where trim_right_where trim_space has_prefix last_index count
  trim_wrapping_json_fence before after =
      let trimmed = trim_right_where is_space before in
      let trimmed_after = trim_left_where is_space after in
      let fence = codes "```" in
      elim (last_index trimmed fence) [
        | none ↦ (before, after)
        | some i ↦
            let header = trim_space (drop (i + 3) trimmed) in
            if even (count (take (i + 3) trimmed) fence)
              || (non_empty header && not (equal_fold header (codes "json")))
              || not (has_prefix trimmed_after fence)
            then (before, after)
            else (take i trimmed, drop ((length after - length trimmed_after) + 3) after)
      ]
