-- ===== src/ToolNames/Tests.antt =====
-- Tool names at concrete names.
use generalcompute2api.Prelude.{List, [], ◌∷◌, inl, inr, ◌≡◌, refl, arith}
use generalcompute2api.Prelude.Text.{Str, codes, has_prefix, str_eq, trim_space}
use generalcompute2api.Util.Lower.{lower_kelvin}
use generalcompute2api.ToolNames.{
  from_qwen_tool_name, from_qwen_trimmed, reverse_alias, to_qwen_tool_name, to_qwen_trimmed,
}
use generalcompute2api.ToolNames.Canonical.{canonical_tool_name}
use generalcompute2api.ToolNames.Offered.{Finds, canonical_tool_name-Finds}
use generalcompute2api.ToolNames.RoundTrip.{from_qwen-to_qwen}

from_qwen-to_qwen_example :
    from_qwen_trimmed lower_kelvin (to_qwen_trimmed lower_kelvin (codes "Read")) ≡ codes "Read"
unfolding reverse_alias has_prefix str_eq
from_qwen-to_qwen_example = from_qwen-to_qwen lower_kelvin (codes "Read") (omega arith) (refl, refl)

-- A tool whose own name begins with the prefix does not come back.
prefixed_test :
    from_qwen_tool_name lower_kelvin (to_qwen_tool_name lower_kelvin (codes " u_x")) ≡ codes "x"
unfolding from_qwen_tool_name to_qwen_tool_name trim_space str_eq
prefixed_test = refl

abbrev offered : List Str
offered = codes " Bash " ∷ codes "web-fetch" ∷ []

-- Other spellings of a tool's name, and one that is not offered.
canonical_test :
    (canonical_tool_name lower_kelvin (codes "shell_run") offered ≡ codes "Bash")
    × (canonical_tool_name lower_kelvin (codes "u_webfetch") offered ≡ codes "webfetch")
    × (canonical_tool_name lower_kelvin (codes "Grep") offered ≡ [])
unfolding canonical_tool_name from_qwen_tool_name trim_space str_eq
canonical_test = (refl, refl, refl)

canonical_tool_name-Finds_example :
    Finds lower_kelvin
      (codes "web-fetch")
      offered
      (canonical_tool_name lower_kelvin (codes "u_web-fetch") offered)
unfolding from_qwen_tool_name trim_space str_eq
canonical_tool_name-Finds_example =
    canonical_tool_name-Finds lower_kelvin (codes "u_web-fetch") (codes "web-fetch") offered refl
      refl (inr (inl refl))
