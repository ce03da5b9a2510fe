-- ===== src/Sse/Kinds.antt =====
-- internal/sse/parser.go: the parts of a chunk.
use generalcompute2api.Prelude.{
  ◌||◌, not, All, Bool, true, ◌≡◌, refl, ◌⊎◌, inl, inr, List, [], ◌∷◌, Option, none, some,
  both_branches, select,
}
use generalcompute2api.Prelude.Text.{Str, codes, str_eq}
use generalcompute2api.Sse.{ContentPart}
use generalcompute2api.Sse.Json.{
  Fields, Items, Json, array, item, no_items, object, string, get_field, as_array,
}
use generalcompute2api.Sse.Tags.{
  before_parts, split_thinking_parts, strip_think_tags, find_close_tag, split_thought, text_kind,
  thinking,
}
use generalcompute2api.Sse.Chunk.{
  content_or, update_type_from_array, extract_parts, Found, append_fragments, extract_inner,
  extract_value, kind_of_path, kind_of_type, or_kind, parse_fragment_type_content,
  update_type_from_appends, update_type_from_fragments, update_type_from_nested_response,
}

abbrev pub IsKind : Str → Type 0
IsKind kind = (kind ≡ text_kind) ⊎ (kind ≡ thinking)

abbrev pub HasText : Str → Type 0
HasText [] = ⊥
HasText (_ ∷ _) = Unit {0}

-- A part that has a text, and is thinking or text.
abbrev pub IsPart : ContentPart → Type 0
IsPart p = HasText p.text × IsKind p.type

abbrev pub AreParts : List ContentPart → Type 0
AreParts ps = All IsPart ps

abbrev pub IsFound : Found → Type 0
IsFound (kind, ps) = IsKind kind × AreParts ps

abbrev OptionKind : Option Str → Type 0
OptionKind none = Unit {0}
OptionKind (some k) = IsKind k

pub IsKind-text : IsKind text_kind
IsKind-text = inl refl

pub IsKind-thinking : IsKind thinking
IsKind-thinking = inr refl

pub before_parts-AreParts :
    (content kind : Str) (ps : List ContentPart)
    → IsKind kind
    → AreParts ps
    → AreParts (before_parts content kind ps)
before_parts-AreParts [] kind ps k h = h
before_parts-AreParts (c ∷ s) kind ps k h = ((tt, k), h)

or_kind-IsKind :
    (kind : Str) (named : Option Str) → IsKind kind → OptionKind named → IsKind (or_kind kind named)
or_kind-IsKind kind none k n = k
or_kind-IsKind kind (some _) k n = n

kind_of_type-OptionKind : (t : Str) → OptionKind (kind_of_type t)
unfolding kind_of_type
kind_of_type-OptionKind t =
    both_branches OptionKind (str_eq t (codes "THINK") || str_eq t (codes "THINKING"))
      IsKind-thinking (both_branches OptionKind (str_eq t (codes "RESPONSE")) IsKind-text tt)

pub select-AreParts :
    (test : ContentPart → Bool) (ps : List ContentPart) → AreParts ps → AreParts (select test ps)
select-AreParts test [] h = tt
select-AreParts test (p ∷ ps) h =
    both_branches AreParts (test p) (h.0, select-AreParts test ps h.1) (select-AreParts test ps h.1)

split_thought-AreParts :
    (p : ContentPart) (same closed : List ContentPart × Bool) (found : Option (Str × Str))
    → IsPart p
    → AreParts same.0
    → AreParts closed.0
    → AreParts (split_thought p same closed found).0
unfolding split_thought
split_thought-AreParts p same closed none h s c = (h, s)
split_thought-AreParts p same closed (some (before, after)) h s c =
    before_parts-AreParts before thinking _ IsKind-thinking
      (before_parts-AreParts (strip_think_tags after) text_kind _ IsKind-text c)

pub split_thinking_parts-AreParts :
    (thinking_done : Bool) (ps : List ContentPart)
    → AreParts ps
    → AreParts (split_thinking_parts thinking_done ps).0
unfolding split_thinking_parts
split_thinking_parts-AreParts thinking_done [] h = tt
split_thinking_parts-AreParts thinking_done (p ∷ ps) h =
    let is_thought = str_eq p.type thinking in
    let same = split_thinking_parts thinking_done ps in
    let same_parts = split_thinking_parts-AreParts thinking_done ps h.1 in
    let closed_parts = split_thinking_parts-AreParts true ps h.1 in
    both_branches {A = List ContentPart × Bool} (λ r. AreParts r.0)
      (not is_thought || thinking_done)
      (before_parts-AreParts (strip_think_tags p.text) _ same.0
        (both_branches IsKind is_thought IsKind-text h.0.1) same_parts)
      (split_thought-AreParts p same _ (find_close_tag p.text) h.0 same_parts closed_parts)

kind_of_path-IsKind :
    (path default_kind : Str) → IsKind default_kind → IsKind (kind_of_path path default_kind)
unfolding kind_of_path
kind_of_path-IsKind path default_kind k =
    both_branches IsKind _ IsKind-thinking (both_branches IsKind _ IsKind-text k)

content_or-AreParts :
    (content kind : Str) (ps : List ContentPart)
    → IsKind kind
    → AreParts ps
    → AreParts (content_or content kind ps)
content_or-AreParts [] kind ps k h = h
content_or-AreParts (c ∷ s) kind ps k h = ((tt, k), tt)

module _ (to_upper : Str → Str) where
  pub append_fragments-IsFound :
      (kind : Str) (items : Items) (new_type : Str)
      → IsKind kind
      → IsKind new_type
      → IsFound (append_fragments to_upper kind items new_type)
  unfolding append_fragments
  append_fragments-IsFound kind no_items new_type k n = (n, tt)
  append_fragments-IsFound kind (item (object m) items) new_type k n =
      let fragment = parse_fragment_type_content to_upper m in
      let named = kind_of_type fragment.0 in
      let o = kind_of_type-OptionKind fragment.0 in
      let rest =
        append_fragments-IsFound kind items (or_kind new_type named) k
          (or_kind-IsKind new_type named n o) in
      (
        rest.0,
        before_parts-AreParts fragment.1 (or_kind kind named) _ (or_kind-IsKind kind named k o)
            rest.1,
      )
  append_fragments-IsFound kind (item _ items) new_type k n =
      append_fragments-IsFound kind items new_type k n

  update_type_from_fragments-IsKind :
      (items : Items) (new_type : Str)
      → IsKind new_type
      → IsKind (update_type_from_fragments to_upper items new_type)
  unfolding update_type_from_fragments
  update_type_from_fragments-IsKind no_items new_type n = n
  update_type_from_fragments-IsKind (item (object m) items) new_type n =
      let t = (parse_fragment_type_content to_upper m).0 in
      update_type_from_fragments-IsKind items _
        (or_kind-IsKind new_type (kind_of_type t) n (kind_of_type-OptionKind t))
  update_type_from_fragments-IsKind (item _ items) new_type n =
      update_type_from_fragments-IsKind items new_type n

  update_type_from_array-IsKind :
      (frags : Option Items) (new_type : Str)
      → IsKind new_type
      → IsKind (update_type_from_array to_upper frags new_type)
  unfolding update_type_from_array
  update_type_from_array-IsKind none new_type n = n
  update_type_from_array-IsKind (some frags) new_type n =
      update_type_from_fragments-IsKind frags new_type n

  update_type_from_appends-IsKind :
      (items : Items) (new_type : Str)
      → IsKind new_type
      → IsKind (update_type_from_appends to_upper items new_type)
  unfolding update_type_from_appends
  update_type_from_appends-IsKind no_items new_type n = n
  update_type_from_appends-IsKind (item (object m) items) new_type n =
      update_type_from_appends-IsKind items _ (
        both_branches IsKind _
          (update_type_from_array-IsKind (as_array (get_field (codes "v") m)) new_type n) n)
  update_type_from_appends-IsKind (item _ items) new_type n =
      update_type_from_appends-IsKind items new_type n

  pub update_type_from_nested_response-IsKind :
      (path : Str) (v : Json) (new_type : Str)
      → IsKind new_type
      → IsKind (update_type_from_nested_response to_upper path v new_type)
  unfolding update_type_from_nested_response
  update_type_from_nested_response-IsKind path (array items) new_type n =
      both_branches IsKind (str_eq path (codes "response"))
        (update_type_from_appends-IsKind items new_type n) n
  update_type_from_nested_response-IsKind path _ new_type n = n

  extract_inner-AreParts :
      (kind : Str) (items : Items) → IsKind kind → AreParts (extract_inner to_upper kind items)
  unfolding extract_inner
  extract_inner-AreParts kind no_items k = tt
  extract_inner-AreParts kind (item (object m) items) k =
      let fragment = parse_fragment_type_content to_upper m in
      before_parts-AreParts fragment.1 _ _
        (or_kind-IsKind kind (kind_of_type fragment.0) k (kind_of_type-OptionKind fragment.0))
        (extract_inner-AreParts kind items k)
  extract_inner-AreParts kind (item (string s) items) k =
      before_parts-AreParts s kind _ k (extract_inner-AreParts kind items k)
  extract_inner-AreParts kind (item _ items) k = extract_inner-AreParts kind items k

  extract_parts-AreParts :
      (kind : Str) (v : Json) → IsKind kind → AreParts (extract_parts to_upper kind v)
  unfolding extract_parts
  extract_parts-AreParts kind (string s) k =
      both_branches AreParts (str_eq s (codes "FINISHED")) tt (before_parts-AreParts s kind [] k tt)
  extract_parts-AreParts kind (array items) k = extract_inner-AreParts kind items k
  extract_parts-AreParts kind _ k = tt

  pub extract_value-AreParts :
      (default_kind : Str) (m : Fields) (path : Str) (v : Json)
      → IsKind default_kind
      → AreParts (extract_value to_upper default_kind m path v)
  unfolding extract_value
  extract_value-AreParts default_kind m path v k =
      let fragment = parse_fragment_type_content to_upper m in
      content_or-AreParts fragment.1 _ _
        (or_kind-IsKind default_kind _ k (kind_of_type-OptionKind fragment.0))
        (extract_parts-AreParts _ v (kind_of_path-IsKind path default_kind k))
