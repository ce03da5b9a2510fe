-- ===== src/ToolNames.antt =====
-- internal/toolcall/tool_name_alias.go: the names that the tools have upstream.
pub mod RoundTrip
pub mod Canonical
pub mod Offered
pub mod Tests
use generalcompute2api.Prelude.{
  ℕ, Bool, true, false, List, [], ◌∷◌, ◌++◌, Option, none, some, if◌then◌else◌, ltb, length, drop,
  map, ◌&&◌,
}
use generalcompute2api.Prelude.Maps.{has_key, lookup}
use generalcompute2api.Prelude.Text.{Str, codes, has_prefix, trim_space}
use generalcompute2api.Util.Lower.{to_lower}

abbrev pub qwen_tool_name_aliases : List (Str × Str)
qwen_tool_name_aliases =
    (codes "Read", codes "fs_open_file")
    ∷ (codes "Write", codes "fs_put_file")
    ∷ (codes "Edit", codes "fs_patch_file")
    ∷ (codes "Bash", codes "shell_run")
    ∷ (codes "Grep", codes "text_search")
    ∷ (codes "Glob", codes "path_find")
    ∷ (codes "NotebookEdit", codes "notebook_patch")
    ∷ (codes "WebFetch", codes "http_get_url")
    ∷ (codes "WebSearch", codes "web_query")
    ∷ []

module _ (lower_rune : ℕ → ℕ) where
  -- `qwenReverseToolNameAliases`.
  unfoldable pub qwen_reverse_tool_name_aliases : List (Str × Str)
  unfolding to_lower
  qwen_reverse_tool_name_aliases =
      map (λ (e : Str × Str). (to_lower lower_rune e.1, e.0)) qwen_tool_name_aliases

  unfoldable pub reverse_alias : Str → Option Str
  unfolding lookup qwen_reverse_tool_name_aliases
  reverse_alias name = lookup (to_lower lower_rune name) qwen_reverse_tool_name_aliases

abbrev pub unknown_prefix : Str
unknown_prefix = codes "u_"

module _ (lower_rune : ℕ → ℕ) where
  -- `ToQwenToolName` of a name that is trimmed and not empty.
  unfoldable pub to_qwen_trimmed : Str → Str
  unfolding lookup reverse_alias has_prefix
  to_qwen_trimmed name = elim (lookup name qwen_tool_name_aliases) [
    | some alias ↦ alias
    | none ↦ elim (reverse_alias lower_rune name) [
      | some _ ↦ name
      | none ↦ if has_prefix name unknown_prefix then name else unknown_prefix ++ name
    ]
  ]

  unfoldable pub to_qwen_tool_name : Str → Str
  unfolding to_qwen_trimmed trim_space
  to_qwen_tool_name name = elim (trim_space name) [ [] ↦ [] | c ∷ s ↦ to_qwen_trimmed (c ∷ s) ]

  -- `FromQwenToolName` of a name that is trimmed and not empty.
  unfoldable pub from_qwen_trimmed : Str → Str
  unfolding reverse_alias has_prefix
  from_qwen_trimmed name = elim (reverse_alias lower_rune name) [
    | some raw ↦ raw
    | none ↦ if has_prefix name unknown_prefix && ltb 2 (length name) then drop 2 name else name
  ]

  unfoldable pub from_qwen_tool_name : Str → Str
  unfolding from_qwen_trimmed trim_space
  from_qwen_tool_name name = elim (trim_space name) [ [] ↦ [] | c ∷ s ↦ from_qwen_trimmed (c ∷ s) ]
