-- ===== src/Markup/Names.antt =====
-- internal/toolcall/toolcalls_scan.go: the names of the tags, and what may stand around them.
use generalcompute2api.Prelude.{
  ℕ, zero, suc, ◌+◌, Bool, true, false, not, ◌&&◌, ◌||◌, List, [], ◌∷◌, Option, none, some,
  if◌then◌else◌, ◌==◌, length, drop,
}
use generalcompute2api.Prelude.Runs.{Run, ok, out_of_fuel, ◌>>=◌, slice_from}
use generalcompute2api.Prelude.Strings.{byte_is}
use generalcompute2api.Prelude.Text.{Str, codes, has_prefix}

pub record ToolMarkupNameAlias : Type 0 where
  pub raw : Str
  pub canonical : Str
  pub dsml_only : Bool

abbrev alias : Str → Str → Bool → ToolMarkupNameAlias
alias r c d = record { raw = r; canonical = c; dsml_only = d }

-- "工具", "调用", "项", "形参" in UTF-8.
abbrev tool : Str
tool = 0xe5 ∷ 0xb7 ∷ 0xa5 ∷ 0xe5 ∷ 0x85 ∷ 0xb7 ∷ []

abbrev call_and : Str → Str
call_and s = 0xe8 ∷ 0xb0 ∷ 0x83 ∷ 0xe7 ∷ 0x94 ∷ 0xa8 ∷ s

abbrev item : Str
item = 0xe9 ∷ 0xa1 ∷ 0xb9 ∷ []

abbrev formal_parameter : Str
formal_parameter = 0xe5 ∷ 0xbd ∷ 0xa2 ∷ 0xe5 ∷ 0x8f ∷ 0x82 ∷ []

abbrev tool_and : Str → Str
tool_and s = 0xe5 ∷ 0xb7 ∷ 0xa5 ∷ 0xe5 ∷ 0x85 ∷ 0xb7 ∷ s

abbrev pub tool_calls : Str
tool_calls = codes "tool_calls"

abbrev pub invoke : Str
invoke = codes "invoke"

abbrev pub parameter : Str
parameter = codes "parameter"

abbrev pub tool_markup_names : List ToolMarkupNameAlias
tool_markup_names =
    alias (codes "tool-calls") tool_calls true
    ∷ alias (tool_and (b'-' ∷ call_and [])) tool_calls true
    ∷ alias tool_calls tool_calls false
    ∷ alias (codes "tool_call") tool_calls false
    ∷ alias (tool_and (call_and [])) tool_calls true
    ∷ alias invoke invoke false
    ∷ alias (call_and item) invoke true
    ∷ alias parameter parameter false
    ∷ alias formal_parameter parameter true
    ∷ []

-- "｜" in UTF-8.
abbrev wide_pipe : Str
wide_pipe = 0xef ∷ 0xbd ∷ 0x9c ∷ []

-- The position after a pipe at `idx`, if there is one.
unfoldable pub consume_tool_markup_pipe : Str → ℕ → Option ℕ
unfolding has_prefix
consume_tool_markup_pipe text idx =
    if byte_is (λ c. c == b'|') idx text
    then some (idx + 1)
    else if has_prefix (drop idx text) wide_pipe
    then some (idx + 3)
    else none

abbrev pub is_markup_space : ℕ → Bool
is_markup_space c = c == b' ' || c == b'\t' || c == b'\r' || c == b'\n'

-- The position after a marker of four bytes at `idx`, and after a dash that follows it.
abbrev pub after_marker : Str → ℕ → ℕ
after_marker text idx =
    if byte_is (λ c. c == b'-' || c == b'_') (idx + 4) text then idx + 4 + 1 else idx + 4

unfoldable pub has_marker : Str → Bool
unfolding has_prefix
has_marker tail =
    has_prefix tail (codes "dsml")
    || has_prefix tail (codes "zjml")
    || has_prefix tail (codes "qnml")

-- The position after one part of a prefix, or none where there is none.
unfoldable pub consume_tool_markup_name_prefix_once : Str → Str → ℕ → Run (Option ℕ)
unfolding consume_tool_markup_pipe has_marker
consume_tool_markup_name_prefix_once lower text idx = elim (consume_tool_markup_pipe text idx) [
  | some next ↦ ok (some next)
  | none ↦
      if byte_is is_markup_space idx text
      then ok (some (idx + 1))
      else (slice_from idx lower >>= λ tail.
          ok (if has_marker tail then some (after_marker text idx) else none))
]

-- The loop of `consumeToolMarkupNamePrefix`, and whether it went past anything.
unfoldable pub name_prefix_loop : ℕ → Str → Str → ℕ → Bool → Run (ℕ × Bool)
unfolding consume_tool_markup_name_prefix_once
name_prefix_loop zero lower text idx dsml_like = out_of_fuel
name_prefix_loop (suc fuel) lower text idx dsml_like =
    consume_tool_markup_name_prefix_once lower text idx >>= λ o. elim o [
      | none ↦ ok (idx, dsml_like)
      | some next ↦ name_prefix_loop fuel lower text next true
    ]

unfoldable pub consume_tool_markup_name_prefix : Str → Str → ℕ → Run (ℕ × Bool)
unfolding name_prefix_loop
consume_tool_markup_name_prefix lower text idx =
    name_prefix_loop (suc (length lower + length text)) lower text idx false

unfoldable pub has_tool_markup_name_prefix : List ToolMarkupNameAlias → Str → Bool
unfolding has_prefix
has_tool_markup_name_prefix [] lower_tail = false
has_tool_markup_name_prefix (name ∷ names) lower_tail =
    has_prefix lower_tail name.raw
    || has_prefix name.raw lower_tail
    || has_tool_markup_name_prefix names lower_tail

-- The first name that the tail begins with, and its length; the length is 0 where there is none.
unfoldable pub match_names : List ToolMarkupNameAlias → Str → Bool → Str × ℕ
unfolding has_prefix
match_names [] tail dsml_like = ([], 0)
match_names (name ∷ names) tail dsml_like =
    let rest = match_names names tail dsml_like in
    if name.dsml_only && not dsml_like
    then rest
    else if has_prefix tail name.raw
    then (name.canonical, length name.raw)
    else rest

unfoldable pub match_tool_markup_name : Str → ℕ → Bool → Run (Str × ℕ)
unfolding match_names
match_tool_markup_name lower start dsml_like =
    slice_from start lower >>= λ tail. ok (match_names tool_markup_names tail dsml_like)

-- The number of bytes of the pipes at the start of a text: the loop over the trailing pipes.
unfoldable pub pipes_length : Str → ℕ
pipes_length [] = 0
pipes_length (a ∷ []) = if a == b'|' then 1 else 0
pipes_length (a ∷ b ∷ []) = let rest = pipes_length (b ∷ []) in if a == b'|' then suc rest else 0
pipes_length (a ∷ b ∷ c ∷ s) =
    let rest = pipes_length (b ∷ c ∷ s) in
    let wide = pipes_length s in
    if a == b'|' then suc rest else if a == 0xef && b == 0xbd && c == 0x9c then 3 + wide else 0

abbrev pub is_boundary : ℕ → Bool
is_boundary c = is_markup_space c || c == b'>' || c == b'/'

abbrev pub has_tool_markup_boundary : Str → ℕ → Bool
has_tool_markup_boundary text idx = elim (drop idx text) [ [] ↦ true | c ∷ _ ↦ is_boundary c ]
