-- ===== src/Sse/Filtered.antt =====
-- internal/sse/parser.go: when a chunk tells of the content filter.
use generalcompute2api.Prelude.{
  ◌∙◌, ◌&&◌, [], ◌∷◌, Bool-cases, arith, ◌++◌, Bool, true, false, ◌||◌, ◌≡◌, ◌↔◌, ◌⊎◌, inl, inr,
  refl, ap,
}
use generalcompute2api.Prelude.Strings.{contains, index}
use generalcompute2api.Prelude.Text.{Str, has_prefix, codes, trim_space}
use generalcompute2api.Sse.Json.{
  Json, Items, Fields, array, object, no_items, item, no_fields, field, string_field,
}
use generalcompute2api.Sse.Filter.{
  has_content_filter_status, has_content_filter_status_value, any_item_filtered, any_field_filtered,
  names_content_filter, equal_fold,
}

or_true : (a b : Bool) → (a || b) ≡ true → (a ≡ true) ⊎ (b ≡ true)
or_true true b e = inl refl
or_true false b e = inr e

or_left : {a : Bool} (b : Bool) → a ≡ true → (a || b) ≡ true
or_left b e = ap (λ x. x || b) e

or_right : (a : Bool) {b : Bool} → b ≡ true → (a || b) ≡ true
or_right true e = refl
or_right false e = e

mutual
  -- Within a value, an array or the fields of an object there is an object with the fields `m`.
  pub data Within (m : Fields) : Json → Type 0 where
    here : Within m (object m)
    in_array : {items : Items} → WithinItems m items → Within m (array items)
    in_object : {fields : Fields} → WithinFields m fields → Within m (object fields)

  pub data WithinItems (m : Fields) : Items → Type 0 where
    in_item : {v : Json} {items : Items} → Within m v → WithinItems m (item v items)
    in_later_item : {v : Json} {items : Items} → WithinItems m items → WithinItems m (item v items)

  pub data WithinFields (m : Fields) : Fields → Type 0 where
    in_field :
        {key : Str} {v : Json} {fields : Fields} → Within m v → WithinFields m (field key v fields)
    in_later_field :
        {key : Str} {v : Json} {fields : Fields}
        → WithinFields m fields
        → WithinFields m (field key v fields)

has_prefix-split : (s p : Str) → has_prefix s p ≡ true → (after : Str) × (s ≡ p ++ after)
unfolding has_prefix
has_prefix-split s [] h = (s, refl)
has_prefix-split [] (y ∷ p) h = cc
has_prefix-split (x ∷ s) (y ∷ p) h =
    let (after, e) = has_prefix-split s p (ground (arith, h)) in (after, ground (arith, h, e))

has_prefix-append : (p after : Str) → has_prefix (p ++ after) p ≡ true
unfolding has_prefix
has_prefix-append [] after = refl
has_prefix-append (y ∷ p) after = ground (arith, has_prefix-append p after)

-- A text that contains another is split around it.
contains-split :
    (s p : Str)
    → contains s p ≡ true
    → (before : Str) × ((after : Str) × (s ≡ before ++ (p ++ after)))
unfolding index
contains-split [] p h = elim (Bool-cases (has_prefix [] p)) [
  | inl at_start ↦ ([], has_prefix-split [] p at_start)
  | inr elsewhere ↦ absurd (ground (arith, h, elsewhere))
]
contains-split (c ∷ s) p h = elim (Bool-cases (has_prefix (c ∷ s) p)) [
  | inl at_start ↦ ([], has_prefix-split (c ∷ s) p at_start)
  | inr elsewhere ↦
      let (before, (after, e)) = contains-split s p (ground (arith, h, elsewhere)) in
      (c ∷ before, (after, ap (λ t. c ∷ t) e))
]

prefix-contains : (s p : Str) → has_prefix s p ≡ true → contains s p ≡ true
unfolding index
prefix-contains [] p h = ground (arith, h)
prefix-contains (c ∷ s) p h = ground (arith, h)

split-contains : (before p after : Str) → contains (before ++ (p ++ after)) p ≡ true
unfolding index
split-contains [] p after = prefix-contains (p ++ after) p (has_prefix-append p after)
split-contains (c ∷ before) p after = ground (arith, split-contains before p after)

both : {a b : Bool} → a ≡ true → b ≡ true → (a && b) ≡ true
both h k = ground (arith, h, k)

-- The text, without the white space around it, is content_filter in any case of the letters.
abbrev pub SaysFilter : Str → Type 0
SaysFilter s = equal_fold (trim_space s) (codes "content_filter") ≡ true

module _ (to_lower : Str → Str) where
  -- The fields of an object name the filter: as the text of "code", or as the text of "v" where the text of
  -- "p" is a path with the word status, in any case of the letters.
  pub data NamesFilter (m : Fields) : Type 0 where
    by_code : SaysFilter (string_field (codes "code") m) → NamesFilter m
    by_status :
        (before after : Str)
        → to_lower (string_field (codes "p") m) ≡ before ++ (codes "status" ++ after)
        → SaysFilter (string_field (codes "v") m)
        → NamesFilter m

  names_content_filter_lem : (m : Fields) → (names_content_filter to_lower m ≡ true) ↔ NamesFilter m
  unfolding names_content_filter
  names_content_filter_lem m = (
    λ e.
        elim (or_true
          (contains (to_lower (string_field (codes "p") m)) (codes "status")
            && equal_fold (trim_space (string_field (codes "v") m)) (codes "content_filter"))
          _ e) [
            | inl path ↦
                let (before, (after, split)) =
                  contains-split (to_lower (string_field (codes "p") m)) (codes "status")
                    (ground (arith, path)) in
                by_status before after split (ground (arith, path))
            | inr code ↦ by_code code
          ],
    named,
  )
    where
      named : NamesFilter m → names_content_filter to_lower m ≡ true
      named (by_code h) = or_right _ h
      named (by_status before after split h) = or_left _ (
          both
            (ap (λ s. contains s (codes "status")) split
              ∙ split-contains before (codes "status") after)
            h)

  -- A value within which there is an object that names the filter.
  abbrev Somewhere : (Fields → Type 0) → Type 0
  Somewhere W = (m : Fields) × W m × (names_content_filter to_lower m ≡ true)

  mutual
    unfolding has_content_filter_status_value

    value_found :
        (v : Json) → has_content_filter_status_value to_lower v ≡ true → Somewhere (λ m. Within m v)
    value_found (array items) e = let (m, w, n) = items_found items e in (m, in_array w, n)
    value_found (object fields) e = elim (or_true _ _ e) [
      | inl n ↦ (fields, here, n)
      | inr f ↦ let (m, w, n) = fields_found fields f in (m, in_object w, n)
    ]
    value_found _ e = cc

    items_found :
        (items : Items)
        → any_item_filtered to_lower items ≡ true
        → Somewhere (λ m. WithinItems m items)
    items_found no_items e = cc
    items_found (item v items) e = elim (or_true _ _ e) [
      | inl f ↦ let (m, w, n) = value_found v f in (m, in_item w, n)
      | inr f ↦ let (m, w, n) = items_found items f in (m, in_later_item w, n)
    ]

    fields_found :
        (fields : Fields)
        → any_field_filtered to_lower fields ≡ true
        → Somewhere (λ m. WithinFields m fields)
    fields_found no_fields e = cc
    fields_found (field key v fields) e = elim (or_true _ _ e) [
      | inl f ↦ let (m, w, n) = value_found v f in (m, in_field w, n)
      | inr f ↦ let (m, w, n) = fields_found fields f in (m, in_later_field w, n)
    ]

  mutual
    unfolding has_content_filter_status_value

    Within-found :
        {m : Fields} {v : Json}
        → Within m v
        → names_content_filter to_lower m ≡ true
        → has_content_filter_status_value to_lower v ≡ true
    Within-found here n = or_left _ n
    Within-found (in_array w) n = WithinItems-found w n
    Within-found (in_object w) n = or_right _ (WithinFields-found w n)

    WithinItems-found :
        {m : Fields} {items : Items}
        → WithinItems m items
        → names_content_filter to_lower m ≡ true
        → any_item_filtered to_lower items ≡ true
    WithinItems-found (in_item w) n = or_left _ (Within-found w n)
    WithinItems-found (in_later_item w) n = or_right _ (WithinItems-found w n)

    WithinFields-found :
        {m fields : Fields}
        → WithinFields m fields
        → names_content_filter to_lower m ≡ true
        → any_field_filtered to_lower fields ≡ true
    WithinFields-found (in_field w) n = or_left _ (Within-found w n)
    WithinFields-found (in_later_field w) n = or_right _ (WithinFields-found w n)

  -- A chunk tells of the content filter just when it, or an object at any depth within it, names the filter:
  -- as its code, or as the value at a path with the word status.
  pub has_content_filter_status_iff :
      (chunk : Fields)
      → (has_content_filter_status to_lower chunk ≡ true)
        ↔ ((m : Fields) × Within m (object chunk) × NamesFilter m)
  unfolding has_content_filter_status names_content_filter
  has_content_filter_status_iff chunk = (
    λ e. named (elim (or_true _ _ e) [
      | inl c ↦ (chunk, here, or_right _ c)
      | inr f ↦ value_found (object chunk) f
    ]),
    λ (m, w, n). or_right _ (Within-found w ((names_content_filter_lem m).1 n)),
  )
    where
      named :
          Somewhere (λ m. Within m (object chunk))
          → (m : Fields) × Within m (object chunk) × NamesFilter m
      named (m, w, n) = (m, w, (names_content_filter_lem m).0 n)
