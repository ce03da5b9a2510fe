-- ===== src/Sse/Parse.antt =====
-- internal/sse/parser.go: `ParseSSEChunkForContentDetailed`, the content of one chunk. Besides DeepSeek's
-- patches it reads the chunks of the OpenAI API. strings.ToUpper is an argument.
use generalcompute2api.Prelude.{
  Bool, true, false, ◌&&◌, ◌||◌, List, [], ◌∷◌, ◌++◌, Option, none, some, if◌then◌else◌,
}
use generalcompute2api.Prelude.Text.{Str, codes, str_eq, trim_space}
use generalcompute2api.Sse.{ContentPart}
use generalcompute2api.Sse.Json.{
  Fields, Items, Json, array, as_array, as_object, get_field, item, no_items, object, string,
  string_field,
}
use generalcompute2api.Sse.Tags.{before_parts, part, split_thinking_parts, text_kind}
use generalcompute2api.Sse.Filter.{equal_fold}
use generalcompute2api.Sse.Chunk.{
  Found, SkipPaths, append_fragments, extract_value, is_status_path, resolve_part_type,
  select_thinking_parts, should_skip_path, update_type_from_explicit_path,
  update_type_from_nested_response,
}
use generalcompute2api.Sse.Choices.{
  Content, no_content, visible_parts, string_field_or, parse_choice,
}

unfoldable pub tells_finished : Json → Bool
unfolding equal_fold trim_space
tells_finished (string s) = equal_fold (trim_space s) (codes "finished")
tells_finished _ = false

abbrev pub before_rest : List ContentPart → Option (List ContentPart) → Option (List ContentPart)
before_rest ps none = none
before_rest ps (some rest) = some (ps ++ rest)

abbrev pub found_parts : Str → Option (List ContentPart) → Option Found
found_parts new_type none = none
found_parts new_type (some ps) = some (new_type, ps)

-- The part with a text, and without one what the fragments give.
abbrev pub text_or_fragments : Str → Str → Str → Found → Found
text_or_fragments [] kind new_type found = found
text_or_fragments (c ∷ s) kind new_type found = (new_type, part (c ∷ s) kind ∷ [])

abbrev pub content_or_else : Option Content → Content → Content
content_or_else none c = c
content_or_else (some d) c = d

unfoldable pub object_content_by_path : Str → Fields → Str
unfolding string_field_or str_eq
object_content_by_path path m =
    if str_eq path (codes "response/content")
      || str_eq path (codes "response/thinking_content")
      || str_eq path []
    then string_field_or (codes "text") (codes "content") m
    else []

abbrev pub unwrapped : Fields → Option Fields → Fields
unwrapped m none = m
unwrapped m (some wrapped) = wrapped

-- After the parts are collected: those of the fragments, then those of the value.
unfoldable pub split_content : Bool → Str → List ContentPart → Content
unfolding split_thinking_parts visible_parts select_thinking_parts
split_content thinking_enabled new_type found =
    let (ps, transitioned) = split_thinking_parts false found in
    record {
      parts = visible_parts thinking_enabled ps;
      detection = select_thinking_parts ps;
      finished = false;
      next_type = if transitioned then text_kind else new_type;
    }

unfoldable pub after_value : Bool → Str → List ContentPart → Option Found → Content
unfolding split_content
after_value thinking_enabled kind direct none = no_content true kind
after_value thinking_enabled kind direct (some (new_type, ps)) =
    split_content thinking_enabled new_type (direct ++ ps)

abbrev pub is_text : Json → Bool
is_text (string _) = true
is_text _ = false

module _ (to_upper : Str → Str) (skips : SkipPaths) where
  -- One element of an array, in front of what the elements after it give.
  unfoldable pub extract_item :
      Str → Fields → Option Json → Option (List ContentPart) → Option (List ContentPart)
  unfolding tells_finished should_skip_path is_status_path extract_value string_field
  extract_item kind m none rest = rest
  extract_item kind m (some v) rest =
      let path = string_field (codes "p") m in
      if is_status_path path
      then (if tells_finished v then none else rest)
      else if should_skip_path skips path
      then rest
      else before_rest (extract_value to_upper kind m path v) rest

  -- `none` where an element tells that the stream is finished.
  unfoldable pub extract_content : Items → Str → Option (List ContentPart)
  unfolding extract_item get_field
  extract_content no_items kind = some []
  extract_content (item (object m) items) kind =
      extract_item kind m (get_field (codes "v") m) (extract_content items kind)
  extract_content (item _ items) kind = extract_content items kind

  abbrev pub append_fragments_of : Option Items → Str → Str → Found
  append_fragments_of none kind new_type = (new_type, [])
  append_fragments_of (some frags) kind new_type = append_fragments to_upper kind frags new_type

  unfoldable pub append_wrapped_fragments : Fields → Str → Str → Found
  unfolding get_field
  append_wrapped_fragments m kind new_type =
      let resp = unwrapped m (as_object (get_field (codes "response") m)) in
      append_fragments_of (as_array (get_field (codes "fragments") resp)) kind new_type

  -- `none` where the value tells that the stream is finished.
  unfoldable pub append_chunk_value_content : Json → Str → Str → Str → Option Found
  unfolding extract_content object_content_by_path append_wrapped_fragments is_status_path str_eq
  append_chunk_value_content (string s) kind new_type path =
      if str_eq s (codes "FINISHED") && (str_eq path [] || str_eq path (codes "status"))
      then none
      else if is_status_path path
      then some (new_type, [])
      else some (new_type, before_parts s kind [])
  append_chunk_value_content (array items) kind new_type path =
      found_parts new_type (extract_content items kind)
  append_chunk_value_content (object m) kind new_type path = some (
      text_or_fragments (object_content_by_path path m) kind new_type
        (append_wrapped_fragments m kind new_type))
  append_chunk_value_content _ kind new_type path = some (new_type, [])

  unfoldable pub collect_direct_fragments : Str → Fields → Json → Str → Found
  unfolding equal_fold str_eq string_field
  collect_direct_fragments path chunk v new_type =
      if str_eq path (codes "response/fragments")
        && equal_fold (string_field (codes "o") chunk) (codes "append")
      then append_fragments_of (as_array (some v)) text_kind new_type
      else (new_type, [])

  -- A chunk at a path that is neither skipped nor tells a status.
  unfoldable pub parse_value : Bool → Str → Str → Fields → Json → Content
  unfolding collect_direct_fragments append_chunk_value_content after_value
  parse_value thinking_enabled kind path chunk v =
      let explicit = update_type_from_explicit_path path thinking_enabled kind in
      let direct = collect_direct_fragments path chunk v explicit in
      let nested = update_type_from_nested_response to_upper path v direct.0 in
      let part_type = resolve_part_type path thinking_enabled nested in
      after_value thinking_enabled nested direct.1
        (append_chunk_value_content v part_type nested path)

  unfoldable pub parse_patch : Bool → Str → Str → Fields → Option Json → Content
  unfolding parse_value
  parse_patch thinking_enabled kind path chunk none = no_content false kind
  parse_patch thinking_enabled kind path chunk (some v) =
      if should_skip_path skips path
      then no_content false kind
      else if is_status_path path && is_text v
      then no_content (tells_finished v) kind
      else parse_value thinking_enabled kind path chunk v

  unfoldable pub parse_sse_chunk_for_content : Bool → Str → Fields → Content
  unfolding parse_patch parse_choice get_field string_field
  parse_sse_chunk_for_content thinking_enabled kind chunk =
      content_or_else
        (parse_choice thinking_enabled kind (as_array (get_field (codes "choices") chunk)))
        (parse_patch thinking_enabled kind (string_field (codes "p") chunk) chunk
          (get_field (codes "v") chunk))
