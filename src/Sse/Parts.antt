-- ===== src/Sse/Parts.antt =====
-- internal/sse/parser.go: the parts of a chunk.
use generalcompute2api.Prelude.{
  both_branches, Bool, false, ◌&&◌, ◌||◌, List, [], Option, none, some,
}
use generalcompute2api.Prelude.Text.{Str, codes, str_eq}
use generalcompute2api.Sse.{ContentPart}
use generalcompute2api.Sse.Json.{
  Fields, Items, Json, array, as_array, get_field, item, no_items, object, string, string_field,
}
use generalcompute2api.Sse.Tags.{text_kind}
use generalcompute2api.Sse.Chunk.{
  SkipPaths, is_status_path, should_skip_path, update_type_from_explicit_path,
}
use generalcompute2api.Sse.Kinds.{
  IsFound, IsKind, IsKind-text, append_fragments-IsFound, before_parts-AreParts,
  extract_value-AreParts, update_type_from_nested_response-IsKind,
}
use generalcompute2api.Sse.Parse.{
  append_chunk_value_content, append_fragments_of, append_wrapped_fragments,
  collect_direct_fragments, extract_content, object_content_by_path, parse_patch,
  parse_sse_chunk_for_content, parse_value, tells_finished, extract_item, is_text,
}
use generalcompute2api.Sse.Pieces.{
  IsContent, OptionParts, OptionFound, no_content-IsContent, resolve_part_type-IsKind,
  update_type_from_explicit_path-IsKind, parse_choice-OptionContent, content_or_else-IsContent,
  before_rest-OptionParts, found_parts-OptionFound, text_or_fragments-IsFound,
  after_value-IsContent,
}

module _ (to_upper : Str → Str) (skips : SkipPaths) where
  extract_item-OptionParts :
      (kind : Str) (m : Fields) (v : Option Json) (rest : Option (List ContentPart))
      → IsKind kind
      → OptionParts rest
      → OptionParts (extract_item to_upper skips kind m v rest)
  unfolding extract_item
  extract_item-OptionParts kind m none rest k h = h
  extract_item-OptionParts kind m (some v) rest k h =
      let path = string_field (codes "p") m in
      both_branches OptionParts (is_status_path path)
        (both_branches OptionParts (tells_finished v) tt h)
        (both_branches OptionParts (should_skip_path skips path) h
          (before_rest-OptionParts _ rest (extract_value-AreParts to_upper kind m path v k) h))

  extract_content-OptionParts :
      (items : Items) (kind : Str)
      → IsKind kind
      → OptionParts (extract_content to_upper skips items kind)
  unfolding extract_content
  extract_content-OptionParts no_items kind k = tt
  extract_content-OptionParts (item (object m) items) kind k =
      extract_item-OptionParts kind m (get_field (codes "v") m) _ k
        (extract_content-OptionParts items kind k)
  extract_content-OptionParts (item _ items) kind k = extract_content-OptionParts items kind k

  append_fragments_of-IsFound :
      (frags : Option Items) (kind new_type : Str)
      → IsKind kind
      → IsKind new_type
      → IsFound (append_fragments_of to_upper skips frags kind new_type)
  append_fragments_of-IsFound none kind new_type k n = (n, tt)
  append_fragments_of-IsFound (some frags) kind new_type k n =
      append_fragments-IsFound to_upper kind frags new_type k n

  append_chunk_value_content-OptionFound :
      (v : Json) (kind new_type path : Str)
      → IsKind kind
      → IsKind new_type
      → OptionFound (append_chunk_value_content to_upper skips v kind new_type path)
  unfolding append_chunk_value_content append_wrapped_fragments
  append_chunk_value_content-OptionFound (string s) kind new_type path k n =
      both_branches OptionFound
        (str_eq s (codes "FINISHED") && (str_eq path [] || str_eq path (codes "status"))) tt
        (both_branches OptionFound (is_status_path path) (n, tt)
          (n, before_parts-AreParts s kind [] k tt))
  append_chunk_value_content-OptionFound (array items) kind new_type path k n =
      found_parts-OptionFound new_type _ n (extract_content-OptionParts items kind k)
  append_chunk_value_content-OptionFound (object m) kind new_type path k n =
      text_or_fragments-IsFound (object_content_by_path path m) kind new_type _ k n
        (append_fragments_of-IsFound _ kind new_type k n)
  append_chunk_value_content-OptionFound _ kind new_type path k n = (n, tt)

  collect_direct_fragments-IsFound :
      (path : Str) (chunk : Fields) (v : Json) (kind : Str)
      → IsKind kind
      → IsFound (collect_direct_fragments to_upper skips path chunk v kind)
  unfolding collect_direct_fragments
  collect_direct_fragments-IsFound path chunk v kind k =
      both_branches IsFound _
        (append_fragments_of-IsFound (as_array (some v)) text_kind kind IsKind-text k) (k, tt)

  parse_value-IsContent :
      (thinking_enabled : Bool) (kind path : Str) (chunk : Fields) (v : Json)
      → IsKind kind
      → IsContent (parse_value to_upper skips thinking_enabled kind path chunk v)
  unfolding parse_value
  parse_value-IsContent thinking_enabled kind path chunk v k =
      let explicit = update_type_from_explicit_path path thinking_enabled kind in
      let direct =
        collect_direct_fragments-IsFound path chunk v explicit
          (update_type_from_explicit_path-IsKind path thinking_enabled kind k) in
      let n = update_type_from_nested_response-IsKind to_upper path v _ direct.0 in
      after_value-IsContent thinking_enabled _ _ _ n direct.1 (
        append_chunk_value_content-OptionFound v _ _ path
          (resolve_part_type-IsKind path thinking_enabled _ n) n)

  parse_patch-IsContent :
      (thinking_enabled : Bool) (kind path : Str) (chunk : Fields) (v : Option Json)
      → IsKind kind
      → IsContent (parse_patch to_upper skips thinking_enabled kind path chunk v)
  unfolding parse_patch
  parse_patch-IsContent thinking_enabled kind path chunk none k = no_content-IsContent false kind k
  parse_patch-IsContent thinking_enabled kind path chunk (some v) k =
      both_branches IsContent (should_skip_path skips path) (no_content-IsContent false kind k) (
        both_branches IsContent (is_status_path path && is_text v)
          (no_content-IsContent (tells_finished v) kind k)
          (parse_value-IsContent thinking_enabled kind path chunk v k))

  -- Where the type so far is thinking or text, each part of a chunk has a text and is thinking or text, also
  -- each of those that tools are looked for in, and the type that follows is thinking or text.
  pub parse_sse_chunk_for_content-IsContent :
      (thinking_enabled : Bool) (kind : Str) (chunk : Fields)
      → IsKind kind
      → IsContent (parse_sse_chunk_for_content to_upper skips thinking_enabled kind chunk)
  unfolding parse_sse_chunk_for_content
  parse_sse_chunk_for_content-IsContent thinking_enabled kind chunk k =
      content_or_else-IsContent _ _
        (parse_choice-OptionContent thinking_enabled kind
          (as_array (get_field (codes "choices") chunk)) k)
        (parse_patch-IsContent thinking_enabled kind (string_field (codes "p") chunk) chunk
          (get_field (codes "v") chunk) k)
