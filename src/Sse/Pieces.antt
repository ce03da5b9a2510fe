-- ===== src/Sse/Pieces.antt =====
-- internal/sse/parser.go: the parts that the pieces of a chunk give.
use generalcompute2api.Prelude.{
  All-append, both_branches, Bool, true, false, not, ◌&&◌, ◌||◌, List, [], ◌∷◌, Option, none, some,
}
use generalcompute2api.Prelude.Strings.{contains}
use generalcompute2api.Prelude.Text.{Str, codes, str_eq}
use generalcompute2api.Sse.{ContentPart}
use generalcompute2api.Sse.Json.{Fields, Items, as_object, get_field, item, object, string_field}
use generalcompute2api.Sse.Tags.{is_thinking, split_thinking_parts, text_kind, thinking}
use generalcompute2api.Sse.Chunk.{
  Found, drop_thinking_parts, resolve_part_type, select_thinking_parts,
  update_type_from_explicit_path,
}
use generalcompute2api.Sse.Kinds.{
  AreParts, IsFound, IsKind, IsKind-text, IsKind-thinking, IsPart, before_parts-AreParts,
  select-AreParts, split_thinking_parts-AreParts,
}
use generalcompute2api.Sse.Choices.{
  Content, delta_content, kind_after, no_content, parse_choice, parse_delta, parse_delta_field,
  string_field_or, visible_parts, unless_finished,
}
use generalcompute2api.Sse.Parse.{
  split_content, before_rest, found_parts, text_or_fragments, after_value, content_or_else,
}

-- The parts are parts, and the type that follows is a type.
abbrev pub IsContent : Content → Type 0
IsContent c = AreParts c.parts × AreParts c.detection × IsKind c.next_type

abbrev pub OptionContent : Option Content → Type 0
OptionContent none = Unit {0}
OptionContent (some c) = IsContent c

abbrev pub OptionParts : Option (List ContentPart) → Type 0
OptionParts none = Unit {0}
OptionParts (some ps) = AreParts ps

abbrev pub OptionFound : Option Found → Type 0
OptionFound none = Unit {0}
OptionFound (some f) = IsFound f

pub no_content-IsContent :
    (finished : Bool) (kind : Str) → IsKind kind → IsContent (no_content finished kind)
no_content-IsContent finished kind k = (tt, tt, k)

pub visible_parts-AreParts :
    (thinking_enabled : Bool) (ps : List ContentPart)
    → AreParts ps
    → AreParts (visible_parts thinking_enabled ps)
unfolding visible_parts drop_thinking_parts
visible_parts-AreParts thinking_enabled ps h =
    both_branches AreParts thinking_enabled h (select-AreParts (λ p. not (is_thinking p)) ps h)

pub kind_after-IsKind : (ps : List ContentPart) → IsKind (kind_after ps)
kind_after-IsKind [] = IsKind-text
kind_after-IsKind (p ∷ ps) = IsKind-thinking

pub resolve_part_type-IsKind :
    (path : Str) (thinking_enabled : Bool) (kind : Str)
    → IsKind kind
    → IsKind (resolve_part_type path thinking_enabled kind)
unfolding resolve_part_type
resolve_part_type-IsKind path thinking_enabled kind k =
    both_branches IsKind (str_eq path (codes "response/thinking_content"))
      (both_branches IsKind (not thinking_enabled) IsKind-thinking
        (both_branches IsKind (str_eq kind text_kind) IsKind-text IsKind-thinking))
      (both_branches IsKind (str_eq path (codes "response/content")) IsKind-text (
        both_branches IsKind
          (contains path (codes "response/fragments") && contains path (codes "/content")) k
          (both_branches IsKind (str_eq path [])
            (both_branches IsKind (not (str_eq kind [])) k IsKind-text) IsKind-text)))

pub update_type_from_explicit_path-IsKind :
    (path : Str) (thinking_enabled : Bool) (kind : Str)
    → IsKind kind
    → IsKind (update_type_from_explicit_path path thinking_enabled kind)
unfolding update_type_from_explicit_path
update_type_from_explicit_path-IsKind path thinking_enabled kind k =
    both_branches IsKind (str_eq path (codes "response/content")) IsKind-text (
      both_branches IsKind
        (str_eq path (codes "response/thinking_content")
          && (not thinking_enabled || not (str_eq kind text_kind)))
        IsKind-thinking k)

pub delta_content-OptionContent :
    (thinking_enabled : Bool) (thoughts ps : List ContentPart)
    → AreParts thoughts
    → AreParts ps
    → OptionContent (delta_content thinking_enabled thoughts ps)
unfolding delta_content
delta_content-OptionContent thinking_enabled thoughts [] t h = tt
delta_content-OptionContent thinking_enabled thoughts (p ∷ ps) t h =
    (visible_parts-AreParts thinking_enabled (p ∷ ps) h, t, kind_after-IsKind thoughts)

pub parse_delta_field-OptionContent :
    (thinking_enabled : Bool) (delta : Option Fields)
    → OptionContent (parse_delta_field thinking_enabled delta)
unfolding parse_delta_field parse_delta
parse_delta_field-OptionContent thinking_enabled none = tt
parse_delta_field-OptionContent thinking_enabled (some delta) =
    let reasoning = string_field_or (codes "reasoning_content") (codes "reasoning") delta in
    let thoughts = before_parts-AreParts reasoning thinking [] IsKind-thinking tt in
    delta_content-OptionContent thinking_enabled _ _ thoughts (
      All-append IsPart _ _ thoughts
        (before_parts-AreParts (string_field (codes "content") delta) text_kind [] IsKind-text tt))

pub unless_finished-OptionContent :
    (reason kind : Str) (rest : Option Content)
    → IsKind kind
    → OptionContent rest
    → OptionContent (unless_finished reason kind rest)
unless_finished-OptionContent [] kind rest k r = r
unless_finished-OptionContent (_ ∷ _) kind rest k r = no_content-IsContent true kind k

pub parse_choice-OptionContent :
    (thinking_enabled : Bool) (kind : Str) (choices : Option Items)
    → IsKind kind
    → OptionContent (parse_choice thinking_enabled kind choices)
unfolding parse_choice
parse_choice-OptionContent thinking_enabled kind (some (item (object choice) _)) k =
    unless_finished-OptionContent (string_field (codes "finish_reason") choice) kind _ k (
      parse_delta_field-OptionContent thinking_enabled
        (as_object (get_field (codes "delta") choice)))
parse_choice-OptionContent thinking_enabled kind _ k = tt

pub content_or_else-IsContent :
    (found : Option Content) (c : Content)
    → OptionContent found
    → IsContent c
    → IsContent (content_or_else found c)
content_or_else-IsContent none c f h = h
content_or_else-IsContent (some d) c f h = f

pub before_rest-OptionParts :
    (ps : List ContentPart) (rest : Option (List ContentPart))
    → AreParts ps
    → OptionParts rest
    → OptionParts (before_rest ps rest)
before_rest-OptionParts ps none h r = tt
before_rest-OptionParts ps (some rest) h r = All-append IsPart ps rest h r

pub found_parts-OptionFound :
    (kind : Str) (found : Option (List ContentPart))
    → IsKind kind
    → OptionParts found
    → OptionFound (found_parts kind found)
found_parts-OptionFound kind none k h = tt
found_parts-OptionFound kind (some ps) k h = (k, h)

pub text_or_fragments-IsFound :
    (text kind new_type : Str) (found : Found)
    → IsKind kind
    → IsKind new_type
    → IsFound found
    → IsFound (text_or_fragments text kind new_type found)
text_or_fragments-IsFound [] kind new_type found k n h = h
text_or_fragments-IsFound (c ∷ s) kind new_type found k n h = (n, ((tt, k), tt))

pub split_content-IsContent :
    (thinking_enabled : Bool) (kind : Str) (ps : List ContentPart)
    → IsKind kind
    → AreParts ps
    → IsContent (split_content thinking_enabled kind ps)
unfolding split_content select_thinking_parts
split_content-IsContent thinking_enabled kind ps k h =
    let (split, transitioned) = split_thinking_parts false ps in
    let parts = split_thinking_parts-AreParts false ps h in
    (
      visible_parts-AreParts thinking_enabled _ parts,
      select-AreParts is_thinking _ parts,
      both_branches IsKind (split_thinking_parts false ps).1 IsKind-text k,
    )

pub after_value-IsContent :
    (thinking_enabled : Bool) (kind : Str) (direct : List ContentPart) (found : Option Found)
    → IsKind kind
    → AreParts direct
    → OptionFound found
    → IsContent (after_value thinking_enabled kind direct found)
unfolding after_value
after_value-IsContent thinking_enabled kind direct none k d f = no_content-IsContent true kind k
after_value-IsContent thinking_enabled kind direct (some (new_type, ps)) k d f =
    split_content-IsContent thinking_enabled new_type _ f.0 (All-append IsPart direct ps d f.1)
