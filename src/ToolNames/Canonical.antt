-- ===== src/ToolNames/Canonical.antt =====
-- internal/toolcall/tool_name_alias.go: the name that a call is given among the tools that are offered.
use generalcompute2api.Prelude.{
  ℕ, Bool, ◌&&◌, ◌||◌, List, [], ◌∷◌, Option, none, some, if◌then◌else◌, leb, select,
}
use generalcompute2api.Prelude.Text.{Str, codes, str_eq, trim_space}
use generalcompute2api.Util.Lower.{to_lower}
use generalcompute2api.ToolNames.{from_qwen_tool_name, to_qwen_tool_name}

-- A call, with its input as JSON.
pub record ParsedToolCall (J : Type 0) : Type 0 where
  pub name : Str
  pub input : J

-- What the pattern `[^a-z0-9]+` leaves.
abbrev is_key_byte : ℕ → Bool
is_key_byte c = (leb b'a' c && leb c b'z') || (leb b'0' c && leb c b'9')

abbrev pub any_tool : Str
any_tool = codes "__any_tool__"

module _ (lower_rune : ℕ → ℕ) where
  unfoldable pub tool_name_key : Str → Str
  unfolding to_lower trim_space
  tool_name_key name = select is_key_byte (to_lower lower_rune (trim_space name))

  -- A candidate that is trimmed and not empty, with the answer that it gives.
  unfoldable pub candidate_answer : Str → Str → Option Str
  unfolding tool_name_key to_qwen_tool_name str_eq
  candidate_answer name candidate =
      if str_eq candidate any_tool || str_eq (tool_name_key candidate) (tool_name_key name)
      then some name
      else if str_eq (tool_name_key (to_qwen_tool_name lower_rune candidate)) (tool_name_key name)
      then some candidate
      else none

  abbrev pub answer_or : Option Str → Str → Str
  answer_or none rest = rest
  answer_or (some answer) rest = answer

  unfoldable pub answer_of : Str → Str → Option Str
  unfolding candidate_answer
  answer_of name [] = none
  answer_of name (c ∷ s) = candidate_answer name (c ∷ s)

  -- The loop over the candidates.
  unfoldable pub first_answer : Str → List Str → Str
  unfolding answer_of trim_space
  first_answer name [] = []
  first_answer name (candidate ∷ names) =
      answer_or (answer_of name (trim_space candidate)) (first_answer name names)

  unfoldable pub among_tools : Str → List Str → Str
  unfolding first_answer
  among_tools name [] = name
  among_tools name (n ∷ names) = first_answer name (n ∷ names)

  unfoldable pub canonical_tool_name : Str → List Str → Str
  unfolding from_qwen_tool_name among_tools trim_space
  canonical_tool_name name available =
      let raw = from_qwen_tool_name lower_rune name in
      elim (trim_space raw) [ [] ↦ [] | _ ∷ _ ↦ among_tools raw available ]

  abbrev pub keep_named :
      {J : Type 0} → ParsedToolCall J → List (ParsedToolCall J) → List (ParsedToolCall J)
  keep_named call calls = elim call.name [ [] ↦ calls | _ ∷ _ ↦ call ∷ calls ]

  unfoldable pub canonicalize_parsed_tool_calls :
      {J : Type 0} → List (ParsedToolCall J) → List Str → List (ParsedToolCall J)
  unfolding canonical_tool_name
  canonicalize_parsed_tool_calls [] available = []
  canonicalize_parsed_tool_calls (call ∷ calls) available =
      keep_named (record call { name = canonical_tool_name call.name available })
        (canonicalize_parsed_tool_calls calls available)
