-- ===== src/Sse/Mentioned.antt =====
-- internal/sse/citation_links.go: the collector holds what a value mentions.
use generalcompute2api.Prelude.{
  Bool, true, false, not, ◌||◌, ◌≡◌, refl, sym, subst, List, [], ◌∷◌, ◌++◌, Option, if◌then◌else◌,
  arith, append-nil, append_assoc,
}
use generalcompute2api.Prelude.Int.{ℤ}
use generalcompute2api.Prelude.Text.{Str, codes, has_prefix, str_eq, trim_space}
use generalcompute2api.Sse.Json.{
  Fields, Items, Json, array, field, get_field, item, no_fields, no_items, object, string_field,
}
use generalcompute2api.Sse.Citations.{
  Collector, add_explicit, capture_url_and_index, citation_index_from_any, is_blank_text,
  is_web_url, walk_fields, walk_items, walk_value,
}
use generalcompute2api.Sse.Mentions.{Mention, field_mentions, item_mentions, mentions, own_mention}
use generalcompute2api.Sse.Held.{Holds, add_explicit-Holds}

mention_if :
    (b : Bool) (url : Str) (o : Option ℤ) (ms : List Mention) (c : Collector)
    → Holds ms c
    → (b ≡ true → is_blank_text url ≡ false)
    → Holds
        (ms ++ (if b then record { url = url; index = o } ∷ [] else []))
        (if not b then c else add_explicit url o (record c { ordered = c.ordered ++ (url ∷ []) }))
mention_if true url o ms c h shown = add_explicit-Holds ms url c h (shown refl) o
mention_if false url o ms c h shown = subst (λ ns. Holds ns c) (sym (append-nil ms)) h

lowered-shown :
    (to_lower : Str → Str) (t : Str)
    → to_lower [] ≡ []
    → (has_prefix (to_lower t) (codes "http://") || has_prefix (to_lower t) (codes "https://"))
      ≡ true
    → str_eq t [] ≡ false
unfolding has_prefix str_eq
lowered-shown to_lower [] low h = absurd (ground (arith, h, low))
lowered-shown to_lower (c ∷ t) low h = refl

is_web_url-shown :
    (to_lower : Str → Str) (int_of : Str → ℤ) (v : Str)
    → to_lower [] ≡ []
    → is_web_url to_lower int_of v ≡ true
    → is_blank_text v ≡ false
unfolding is_web_url is_blank_text
is_web_url-shown to_lower int_of v low h = lowered-shown to_lower (trim_space v) low h

module _ (to_lower : Str → Str) (int_of : Str → ℤ) (low : to_lower [] ≡ []) where
  capture-Holds :
      (m : Fields) (ms : List Mention) (c : Collector)
      → Holds ms c
      → Holds (ms ++ own_mention to_lower int_of m) (capture_url_and_index to_lower int_of m c)
  unfolding capture_url_and_index own_mention
  capture-Holds m ms c h =
      let url = trim_space (string_field (codes "url") m) in
      mention_if (is_web_url to_lower int_of url) url
        (citation_index_from_any int_of (get_field (codes "cite_index") m)) ms c h
        (is_web_url-shown to_lower int_of url low)

  mutual
    unfolding walk_value mentions

    pub walk_value-Holds :
        (v : Json) (ms : List Mention) (c : Collector)
        → Holds ms c
        → Holds (ms ++ mentions to_lower int_of v) (walk_value to_lower int_of v c)
    walk_value-Holds (array items) ms c h = walk_items-Holds items ms c h
    walk_value-Holds (object m) ms c h =
        subst (λ ns. Holds ns (walk_value to_lower int_of (object m) c))
          (append_assoc ms (own_mention to_lower int_of m) (field_mentions to_lower int_of m))
          (walk_fields-Holds m (ms ++ own_mention to_lower int_of m)
            (capture_url_and_index to_lower int_of m c) (capture-Holds m ms c h))
    walk_value-Holds _ ms c h = subst (λ ns. Holds ns c) (sym (append-nil ms)) h

    walk_items-Holds :
        (items : Items) (ms : List Mention) (c : Collector)
        → Holds ms c
        → Holds (ms ++ item_mentions to_lower int_of items) (walk_items to_lower int_of items c)
    walk_items-Holds no_items ms c h = subst (λ ns. Holds ns c) (sym (append-nil ms)) h
    walk_items-Holds (item v items) ms c h =
        subst (λ ns. Holds ns (walk_items to_lower int_of (item v items) c))
          (append_assoc ms (mentions to_lower int_of v) (item_mentions to_lower int_of items))
          (walk_items-Holds items (ms ++ mentions to_lower int_of v)
            (walk_value to_lower int_of v c) (walk_value-Holds v ms c h))

    walk_fields-Holds :
        (m : Fields) (ms : List Mention) (c : Collector)
        → Holds ms c
        → Holds (ms ++ field_mentions to_lower int_of m) (walk_fields to_lower int_of m c)
    walk_fields-Holds no_fields ms c h = subst (λ ns. Holds ns c) (sym (append-nil ms)) h
    walk_fields-Holds (field key v m) ms c h =
        subst (λ ns. Holds ns (walk_fields to_lower int_of (field key v m) c))
          (append_assoc ms (mentions to_lower int_of v) (field_mentions to_lower int_of m))
          (walk_fields-Holds m (ms ++ mentions to_lower int_of v) (walk_value to_lower int_of v c)
            (walk_value-Holds v ms c h))
