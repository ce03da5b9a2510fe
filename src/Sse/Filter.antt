-- ===== src/Sse/Filter.antt =====
-- internal/sse/parser.go: `hasContentFilterStatus`, at any depth of a chunk. strings.ToLower is an argument.
use generalcompute2api.Prelude.{◌+◌, ℕ, Bool, true, false, ◌&&◌, ◌||◌, [], ◌∷◌, leb, ◌==◌}
use generalcompute2api.Prelude.Strings.{contains}
use generalcompute2api.Prelude.Text.{Str, codes, trim_space}
use generalcompute2api.Sse.Json.{
  Json, Items, Fields, array, object, no_items, item, no_fields, field, string_field,
}

abbrev same_letter : ℕ → ℕ → Bool
same_letter a b = a == b || (leb 97 b && leb b 122 && a + 32 == b)

-- `strings.EqualFold` with a text of small ASCII letters that has no k; the long s is an s.
unfoldable pub equal_fold : Str → Str → Bool
equal_fold [] [] = true
equal_fold (a ∷ []) (b ∷ []) = same_letter a b
equal_fold (a ∷ c ∷ s) (b ∷ t) =
    let narrow = equal_fold (c ∷ s) t in
    let wide = equal_fold s t in
    (same_letter a b && narrow) || (a == 0xc5 && c == 0xbf && b == b's' && wide)
equal_fold _ _ = false

abbrev is_content_filter : Str → Bool
is_content_filter s = equal_fold (trim_space s) (codes "content_filter")

module _ (to_lower : Str → Str) where
  -- What the fields of one object say.
  unfoldable pub names_content_filter : Fields → Bool
  unfolding string_field
  names_content_filter m =
      (contains (to_lower (string_field (codes "p") m)) (codes "status")
        && is_content_filter (string_field (codes "v") m))
      || is_content_filter (string_field (codes "code") m)

  unfoldable mutual
    pub has_content_filter_status_value : Json → Bool
    has_content_filter_status_value (array items) = any_item_filtered items
    has_content_filter_status_value (object m) = names_content_filter m || any_field_filtered m
    has_content_filter_status_value _ = false

    pub any_item_filtered : Items → Bool
    any_item_filtered no_items = false
    any_item_filtered (item v items) = has_content_filter_status_value v || any_item_filtered items

    pub any_field_filtered : Fields → Bool
    any_field_filtered no_fields = false
    any_field_filtered (field key v m) = has_content_filter_status_value v || any_field_filtered m

  unfoldable pub has_content_filter_status : Fields → Bool
  unfolding has_content_filter_status_value
  has_content_filter_status chunk =
      is_content_filter (string_field (codes "code") chunk)
      || has_content_filter_status_value (object chunk)
