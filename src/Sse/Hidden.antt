-- ===== src/Sse/Hidden.antt =====
-- internal/sse/parser.go: what becomes of the thinking of a chunk.
use generalcompute2api.Prelude.{
  ◌++◌, All, both_branches, Bool, true, false, not, ◌&&◌, ◌≡◌, refl, List, [], ◌∷◌, Option, none,
  some, select, if◌then◌else◌,
}
use generalcompute2api.Prelude.Text.{Str, codes, str_eq}
use generalcompute2api.Sse.{ContentPart}
use generalcompute2api.Sse.Json.{
  Fields, Items, Json, as_array, as_object, get_field, item, object, string_field,
}
use generalcompute2api.Sse.Tags.{split_thinking_parts, before_parts, is_thinking, thinking}
use generalcompute2api.Sse.Chunk.{
  update_type_from_explicit_path, Found, SkipPaths, drop_thinking_parts, is_status_path,
  select_thinking_parts, should_skip_path,
}
use generalcompute2api.Sse.Choices.{
  Content, delta_content, no_content, parse_choice, parse_delta, parse_delta_field, string_field_or,
  visible_parts, unless_finished,
}
use generalcompute2api.Sse.Parse.{
  collect_direct_fragments, parse_patch, parse_sse_chunk_for_content, parse_value, split_content,
  tells_finished, after_value, content_or_else, is_text,
}

-- All of the parts are thinking, or with `false` none is.
abbrev pub AllThinking : Bool → List ContentPart → Type 0
AllThinking b ps = All (λ p. is_thinking p ≡ b) ps

abbrev pub HidesFrom : Bool → List ContentPart → Type 0
HidesFrom true ps = Unit {0}
HidesFrom false ps = AllThinking false ps

-- Without thinking no part is thinking, the parts for the detection of tools are, and at the end of the
-- stream there are no parts.
abbrev pub Hides : Bool → Content → Type 0
Hides thinking_enabled c =
    HidesFrom thinking_enabled c.parts
    × AllThinking true c.detection
    × (c.finished ≡ true → (c.parts ≡ []) × (c.detection ≡ []))

abbrev OptionHides : Bool → Option Content → Type 0
OptionHides thinking_enabled none = Unit {0}
OptionHides thinking_enabled (some c) = Hides thinking_enabled c

no_content-Hides : (t finished : Bool) (kind : Str) → Hides t (no_content finished kind)
no_content-Hides true finished kind = (tt, tt, λ e. (refl, refl))
no_content-Hides false finished kind = (tt, tt, λ e. (refl, refl))

select_thinking : (ps : List ContentPart) → AllThinking true (select is_thinking ps)
select_thinking [] = tt
select_thinking (p ∷ ps) =
    let h = select_thinking ps in
    elim (is_thinking p)
        as (λ b.
          is_thinking p ≡ b
          → AllThinking true (if b then p ∷ select is_thinking ps else select is_thinking ps)) [
            | true ↦ λ e. (e, h)
            | false ↦ λ e. h
          ]
      refl

drop_thinking : (ps : List ContentPart) → AllThinking false (select (λ p. not (is_thinking p)) ps)
drop_thinking [] = tt
drop_thinking (p ∷ ps) =
    let h = drop_thinking ps in
    elim (is_thinking p)
        as (λ b.
          is_thinking p ≡ b
          → AllThinking false (
              if not b
              then p ∷ select (λ q. not (is_thinking q)) ps
              else select (λ q. not (is_thinking q)) ps)) [ true ↦ λ e. h | false ↦ λ e. (e, h) ]
      refl

visible_parts-HidesFrom : (t : Bool) (ps : List ContentPart) → HidesFrom t (visible_parts t ps)
unfolding visible_parts drop_thinking_parts
visible_parts-HidesFrom true ps = tt
visible_parts-HidesFrom false ps = drop_thinking ps

thoughts-AllThinking : (s : Str) → AllThinking true (before_parts s thinking [])
unfolding is_thinking str_eq
thoughts-AllThinking [] = tt
thoughts-AllThinking (c ∷ s) = (refl, tt)

delta_content-OptionHides :
    (t : Bool) (thoughts ps : List ContentPart)
    → AllThinking true thoughts
    → OptionHides t (delta_content t thoughts ps)
unfolding delta_content
delta_content-OptionHides t thoughts [] h = tt
delta_content-OptionHides t thoughts (p ∷ ps) h = (visible_parts-HidesFrom t (p ∷ ps), h, λ e. cc)

parse_delta_field-OptionHides :
    (t : Bool) (delta : Option Fields) → OptionHides t (parse_delta_field t delta)
unfolding parse_delta_field parse_delta
parse_delta_field-OptionHides t none = tt
parse_delta_field-OptionHides t (some delta) =
    let reasoning = string_field_or (codes "reasoning_content") (codes "reasoning") delta in
    delta_content-OptionHides t (before_parts reasoning thinking []) _
      (thoughts-AllThinking reasoning)

unless_finished-OptionHides :
    (t : Bool) (reason kind : Str) (rest : Option Content)
    → OptionHides t rest
    → OptionHides t (unless_finished reason kind rest)
unless_finished-OptionHides t [] kind rest r = r
unless_finished-OptionHides t (_ ∷ _) kind rest r = no_content-Hides t true kind

parse_choice-OptionHides :
    (t : Bool) (kind : Str) (choices : Option Items) → OptionHides t (parse_choice t kind choices)
unfolding parse_choice
parse_choice-OptionHides t kind (some (item (object choice) _)) =
    unless_finished-OptionHides t (string_field (codes "finish_reason") choice) kind _
      (parse_delta_field-OptionHides t (as_object (get_field (codes "delta") choice)))
parse_choice-OptionHides t kind _ = tt

after_value-Hides :
    (t : Bool) (kind : Str) (direct : List ContentPart) (found : Option Found)
    → Hides t (after_value t kind direct found)
unfolding after_value split_content select_thinking_parts
after_value-Hides t kind direct none = no_content-Hides t true kind
after_value-Hides t kind direct (some (new_type, ps)) =
    let split = (split_thinking_parts false (direct ++ ps)).0 in
    (visible_parts-HidesFrom t split, select_thinking split, λ e. cc)

content_or_else-Hides :
    (t : Bool) (found : Option Content) (c : Content)
    → OptionHides t found
    → Hides t c
    → Hides t (content_or_else found c)
content_or_else-Hides t none c f h = h
content_or_else-Hides t (some d) c f h = f

module _ (to_upper : Str → Str) (skips : SkipPaths) where
  parse_value-Hides :
      (t : Bool) (kind path : Str) (chunk : Fields) (v : Json)
      → Hides t (parse_value to_upper skips t kind path chunk v)
  unfolding parse_value
  parse_value-Hides t kind path chunk v =
      let direct =
        collect_direct_fragments to_upper skips path chunk v
          (update_type_from_explicit_path path t kind) in
      after_value-Hides t _ direct.1 _

  parse_patch-Hides :
      (t : Bool) (kind path : Str) (chunk : Fields) (v : Option Json)
      → Hides t (parse_patch to_upper skips t kind path chunk v)
  unfolding parse_patch
  parse_patch-Hides t kind path chunk none = no_content-Hides t false kind
  parse_patch-Hides t kind path chunk (some v) =
      both_branches (Hides t) (should_skip_path skips path) (no_content-Hides t false kind) (
        both_branches (Hides t) (is_status_path path && is_text v)
          (no_content-Hides t (tells_finished v) kind) (parse_value-Hides t kind path chunk v))

  -- Whatever a chunk is: without thinking none of its parts is thinking, the parts that tools are looked
  -- for in are all thinking, and a chunk that tells the end of the stream has no parts.
  pub parse_sse_chunk_for_content-Hides :
      (thinking_enabled : Bool) (kind : Str) (chunk : Fields)
      → Hides thinking_enabled
          (parse_sse_chunk_for_content to_upper skips thinking_enabled kind chunk)
  unfolding parse_sse_chunk_for_content
  parse_sse_chunk_for_content-Hides t kind chunk =
      content_or_else-Hides t _ _
        (parse_choice-OptionHides t kind (as_array (get_field (codes "choices") chunk)))
        (parse_patch-Hides t kind (string_field (codes "p") chunk) chunk
          (get_field (codes "v") chunk))
