-- ===== src/Sse/Chunk.antt =====
-- internal/sse/parser.go: the content of one chunk of the stream. The paths that are skipped come from the
-- constants of internal/deepseek/protocol, which a file may replace; strings.ToUpper and strings.EqualFold
-- are arguments.
use generalcompute2api.Prelude.{
  ℕ, Bool, true, false, not, ◌&&◌, ◌||◌, List, [], ◌∷◌, Option, none, some, if◌then◌else◌, leb,
  length, drop, take, select, ◌-◌,
}
use generalcompute2api.Prelude.Strings.{contains, has_suffix}
use generalcompute2api.Prelude.Text.{Str, codes, has_prefix, str_eq}
use generalcompute2api.Sse.{ContentPart}
use generalcompute2api.Sse.Json.{
  Fields, Items, Json, array, as_array, get_field, item, no_items, object, string, string_field,
}
use generalcompute2api.Sse.Tags.{before_parts, is_thinking, part, text_kind, thinking}

abbrev is_digit : ℕ → Bool
is_digit r = leb 48 r && leb r 57

abbrev all_digits : Str → Bool
all_digits [] = true
all_digits (r ∷ s) = is_digit r && all_digits s

abbrev trim_dash : Str → Str
trim_dash [] = []
trim_dash (c ∷ s) = if str_eq (c ∷ []) (codes "-") then s else c ∷ s

abbrev is_number_text : Str → Bool
is_number_text [] = false
is_number_text (c ∷ s) = all_digits (c ∷ s)

unfoldable pub is_fragment_status_path : Str → Bool
unfolding has_prefix has_suffix str_eq
is_fragment_status_path path =
    let rest = drop 19 path in
    let mid = if has_suffix rest (codes "/status") then take (length rest - 7) rest else rest in
    not (str_eq path [] || str_eq path (codes "response/status"))
    && has_prefix path (codes "response/fragments/")
    && has_suffix path (codes "/status")
    && is_number_text (trim_dash mid)

unfoldable pub is_status_path : Str → Bool
unfolding str_eq
is_status_path path = str_eq path (codes "response/status") || str_eq path (codes "status")

-- The paths that are skipped: exact paths and parts of paths.
pub record SkipPaths : Type 0 where
  pub exact : List Str
  pub patterns : List Str

unfoldable pub any_equal : Str → List Str → Bool
unfolding str_eq
any_equal s [] = false
any_equal s (t ∷ ts) = str_eq t s || any_equal s ts

unfoldable pub any_contained : Str → List Str → Bool
any_contained s [] = false
any_contained s (t ∷ ts) = contains s t || any_contained s ts

unfoldable pub should_skip_path : SkipPaths → Str → Bool
unfolding is_fragment_status_path any_equal any_contained
should_skip_path skips path =
    is_fragment_status_path path || any_equal path skips.exact || any_contained path skips.patterns

-- The kind that a fragment's type names.
unfoldable pub kind_of_type : Str → Option Str
unfolding str_eq
kind_of_type t =
    if str_eq t (codes "THINK") || str_eq t (codes "THINKING")
    then some thinking
    else if str_eq t (codes "RESPONSE")
    then some text_kind
    else none

abbrev pub or_kind : Str → Option Str → Str
or_kind kind none = kind
or_kind kind (some k) = k

unfoldable pub update_type_from_explicit_path : Str → Bool → Str → Str
unfolding str_eq
update_type_from_explicit_path path thinking_enabled new_type =
    if str_eq path (codes "response/content")
    then text_kind
    else if str_eq path (codes "response/thinking_content")
        && (not thinking_enabled || not (str_eq new_type text_kind))
    then thinking
    else new_type

unfoldable pub resolve_part_type : Str → Bool → Str → Str
unfolding str_eq
resolve_part_type path thinking_enabled new_type =
    if str_eq path (codes "response/thinking_content")
    then (if not thinking_enabled
        then thinking
        else if str_eq new_type text_kind
        then text_kind
        else thinking)
    else if str_eq path (codes "response/content")
    then text_kind
    else if contains path (codes "response/fragments") && contains path (codes "/content")
    then new_type
    else if str_eq path []
    then (if not (str_eq new_type []) then new_type else text_kind)
    else text_kind

unfoldable pub select_thinking_parts : List ContentPart → List ContentPart
unfolding is_thinking
select_thinking_parts parts = select is_thinking parts

unfoldable pub drop_thinking_parts : List ContentPart → List ContentPart
unfolding is_thinking
drop_thinking_parts parts = select (λ p. not (is_thinking p)) parts

-- The type so far and the parts that are found.
abbrev pub Found : Type 0
Found = Str × List ContentPart

abbrev pub found_part : Str → Str → Found → Found
found_part content kind (t, ps) = (t, before_parts content kind ps)

unfoldable pub kind_of_path : Str → Str → Str
unfolding str_eq
kind_of_path path default_kind =
    if contains path (codes "thinking")
    then thinking
    else if contains path (codes "content")
        || str_eq path (codes "response")
        || str_eq path (codes "fragments")
    then text_kind
    else default_kind

abbrev pub content_or : Str → Str → List ContentPart → List ContentPart
content_or [] kind ps = ps
content_or (c ∷ s) kind ps = part (c ∷ s) kind ∷ []

module _ (to_upper : Str → Str) where
  -- The type of a fragment and its content.
  unfoldable pub parse_fragment_type_content : Fields → Str × Str
  unfolding string_field
  parse_fragment_type_content m =
      (to_upper (string_field (codes "type") m), string_field (codes "content") m)

  -- The loops over fragments of `collectDirectFragments` and `appendWrappedFragments`: `kind` is that of a
  -- fragment whose type names none.
  unfoldable pub append_fragments : Str → Items → Str → Found
  unfolding parse_fragment_type_content kind_of_type
  append_fragments kind no_items new_type = (new_type, [])
  append_fragments kind (item (object m) items) new_type =
      let fragment = parse_fragment_type_content m in
      let named = kind_of_type fragment.0 in
      found_part fragment.1 (or_kind kind named)
        (append_fragments kind items (or_kind new_type named))
  append_fragments kind (item _ items) new_type = append_fragments kind items new_type

  unfoldable pub update_type_from_fragments : Items → Str → Str
  unfolding parse_fragment_type_content kind_of_type
  update_type_from_fragments no_items new_type = new_type
  update_type_from_fragments (item (object m) items) new_type =
      update_type_from_fragments items
        (or_kind new_type (kind_of_type (parse_fragment_type_content m).0))
  update_type_from_fragments (item _ items) new_type = update_type_from_fragments items new_type

  unfoldable pub update_type_from_array : Option Items → Str → Str
  unfolding update_type_from_fragments
  update_type_from_array none new_type = new_type
  update_type_from_array (some frags) new_type = update_type_from_fragments frags new_type

  abbrev is_string : Str → Option Json → Bool
  unfolding str_eq
  is_string s (some (string t)) = str_eq t s
  is_string s _ = false

  -- The loop of `updateTypeFromNestedResponse`.
  unfoldable pub update_type_from_appends : Items → Str → Str
  unfolding update_type_from_array is_string get_field
  update_type_from_appends no_items new_type = new_type
  update_type_from_appends (item (object m) items) new_type = update_type_from_appends items (
      if is_string (codes "fragments") (get_field (codes "p") m)
        && is_string (codes "APPEND") (get_field (codes "o") m)
      then update_type_from_array (as_array (get_field (codes "v") m)) new_type
      else new_type)
  update_type_from_appends (item _ items) new_type = update_type_from_appends items new_type

  unfoldable pub update_type_from_nested_response : Str → Json → Str → Str
  unfolding update_type_from_appends str_eq
  update_type_from_nested_response path (array items) new_type =
      if str_eq path (codes "response") then update_type_from_appends items new_type else new_type
  update_type_from_nested_response path _ new_type = new_type

  -- The loop over the elements of an array of `extractContentRecursive`.
  unfoldable pub extract_inner : Str → Items → List ContentPart
  unfolding parse_fragment_type_content kind_of_type
  extract_inner kind no_items = []
  extract_inner kind (item (object m) items) =
      let fragment = parse_fragment_type_content m in
      before_parts fragment.1 (or_kind kind (kind_of_type fragment.0)) (extract_inner kind items)
  extract_inner kind (item (string s) items) = before_parts s kind (extract_inner kind items)
  extract_inner kind (item _ items) = extract_inner kind items

  unfoldable pub extract_parts : Str → Json → List ContentPart
  unfolding extract_inner str_eq
  extract_parts kind (string s) = if str_eq s (codes "FINISHED") then [] else before_parts s kind []
  extract_parts kind (array items) = extract_inner kind items
  extract_parts kind _ = []

  -- The content of an item with value `v`, whose path is neither a status nor skipped.
  unfoldable pub extract_value : Str → Fields → Str → Json → List ContentPart
  unfolding parse_fragment_type_content kind_of_type extract_parts kind_of_path
  extract_value default_kind m path v =
      let fragment = parse_fragment_type_content m in
      content_or fragment.1 (or_kind default_kind (kind_of_type fragment.0))
        (extract_parts (kind_of_path path default_kind) v)
