-- ===== src/Sse/Json.antt =====
-- A decoded JSON value, as encoding/json stores it in an `any`. A number is kept as its text. The keys of
-- an object are in any order, each once.
use mathlib.Core.Bool.{Bool}
use mathlib.Core.Option.{Option, none, some}
use generalcompute2api.Prelude.{[], if◌then◌else◌}
use generalcompute2api.Prelude.Text.{Str, str_eq}

mutual
  pub data Json : Type 0 where
    null : Json
    boolean : Bool → Json
    number : Str → Json
    string : Str → Json
    array : Items → Json
    object : Fields → Json

  pub data Items : Type 0 where
    no_items : Items
    item : Json → Items → Items

  pub data Fields : Type 0 where
    no_fields : Fields
    field : Str → Json → Fields → Fields

-- `v, ok := m[key]`.
unfoldable pub get_field : Str → Fields → Option Json
unfolding str_eq
get_field key no_fields = none
get_field key (field k v m) = let rest = get_field key m in if str_eq k key then some v else rest

-- `s, _ := m[key].(string)`, and the same with the `ok`.
abbrev pub as_string : Option Json → Option Str
as_string (some (string s)) = some s
as_string _ = none

abbrev pub or_empty : Option Str → Str
or_empty none = []
or_empty (some s) = s

unfoldable pub string_field : Str → Fields → Str
unfolding get_field
string_field key m = or_empty (as_string (get_field key m))

-- `m, ok := m[key].(map[string]any)`.
abbrev pub as_object : Option Json → Option Fields
as_object (some (object m)) = some m
as_object _ = none

-- `a, ok := m[key].([]any)`.
abbrev pub as_array : Option Json → Option Items
as_array (some (array xs)) = some xs
as_array _ = none
