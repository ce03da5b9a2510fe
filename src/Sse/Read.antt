-- ===== src/Sse/Read.antt =====
-- internal/sse/line.go: what a line of the stream leads to.
use generalcompute2api.Prelude.Int.{ℤ}
use generalcompute2api.Prelude.{
  ℕ, ◌+◌, ◌<◌, ◌≤◌, Bool, true, ◌≡◌, refl, List, [], ◌∷◌, Option, none, some, length, both_branches,
  arith,
}
use generalcompute2api.Prelude.Runs.{
  Run, ok, panics, out_of_fuel, Ends, Ends-bind, Ends-ok, panics, out_of_fuel, slice_to,
}
use generalcompute2api.Prelude.Strings.{index, index-le}
use generalcompute2api.Prelude.Text.{Str, codes}
use generalcompute2api.Sse.{ContentPart, LineResult}
use generalcompute2api.Sse.Json.{Fields, Json}
use generalcompute2api.Sse.Chunk.{SkipPaths}
use generalcompute2api.Sse.Parse.{parse_sse_chunk_for_content}
use generalcompute2api.Sse.Kinds.{AreParts, IsKind, IsPart}
use generalcompute2api.Sse.Parts.{parse_sse_chunk_for_content-IsContent}
use generalcompute2api.Sse.Hidden.{parse_sse_chunk_for_content-Hides}
use generalcompute2api.Sse.Lifted.{each_line-Ends}
use generalcompute2api.Sse.Lines.{
  before_cleaned, cut_before, filter_leaked_content_filter_parts, keep_part, parse_content_chunk,
  parse_deepseek_content_line, should_drop_cleaned_leaked_chunk, strip_leaked_content_filter_suffix,
}

-- Each part has a text and is thinking or text, so is the type that follows, and a line that ends the
-- stream has no parts.
abbrev pub IsLine : LineResult → Type 0
IsLine r =
    AreParts r.parts
    × AreParts r.tool_detection_thinking_parts
    × IsKind r.next_type
    × (r.stop ≡ true → (r.parts ≡ []) × (r.tool_detection_thinking_parts ≡ []))

-- The upper case form of some text is longer than the text.
abbrev pub Grows : (Str → Str) → Type 0
Grows to_upper = (s : Str) × (length s < length (to_upper s))

before_cleaned-AreParts :
    (cleaned kind : Str) (ps : List ContentPart)
    → IsKind kind
    → AreParts ps
    → AreParts (before_cleaned cleaned kind ps)
unfolding before_cleaned should_drop_cleaned_leaked_chunk
before_cleaned-AreParts [] kind ps k h = h
before_cleaned-AreParts (c ∷ s) kind ps k h =
    both_branches AreParts (should_drop_cleaned_leaked_chunk (c ∷ s)) h ((tt, k), h)

keep_part-AreParts :
    (p : ContentPart) (cleaned : Option Str) (ps : List ContentPart)
    → IsPart p
    → AreParts ps
    → AreParts (keep_part p cleaned ps)
unfolding keep_part
keep_part-AreParts p none ps k h = (k, h)
keep_part-AreParts p (some cleaned) ps k h = before_cleaned-AreParts cleaned p.type ps k.1 h

le_within : (i k n : ℕ) → i + k ≤ n → i ≤ n
le_within i k n h = omega arith

slice_to-within :
    (text upper : Str) (i : ℕ)
    → i ≤ length upper
    → Ends (length text < length upper) (λ _. Unit {0}) (slice_to i text)
unfolding Ends
slice_to-within text upper i h = ground arith

Ends-panic :
    {A : Type 0} (X Y : Type 0) (P : A → Type 0) (r : Run A) → Ends X P r → (X → Y) → Ends Y P r
unfolding Ends
Ends-panic X Y P (ok a) h f = h
Ends-panic X Y P panics h f = f h
Ends-panic X Y P out_of_fuel h f = absurd h

cut_before-Ends :
    (text upper : Str) (o : Option ℕ)
    → ((i : ℕ) → o ≡ some i → i ≤ length upper)
    → Ends (length text < length upper) (λ _. Unit {0}) (cut_before text o)
unfolding cut_before
cut_before-Ends text upper none h = Ends-ok _ (λ _. Unit {0}) none tt
cut_before-Ends text upper (some i) h =
    Ends-bind (length text < length upper) (λ _. Unit {0}) (λ _. Unit {0}) (slice_to i text) _
      (slice_to-within text upper i (h i refl)) (λ cut u. Ends-ok _ (λ _. Unit {0}) _ tt)

module _ (to_upper to_lower : Str → Str) where
  pub strip_leaked_content_filter_suffix-Ends :
      (text : Str)
      → Ends
          (Grows to_upper)
          (λ _. Unit {0})
          (strip_leaked_content_filter_suffix to_upper to_lower text)
  unfolding strip_leaked_content_filter_suffix
  strip_leaked_content_filter_suffix-Ends [] = Ends-ok _ (λ _. Unit {0}) none tt
  strip_leaked_content_filter_suffix-Ends (c ∷ s) =
      Ends-panic (length (c ∷ s) < length (to_upper (c ∷ s))) (Grows to_upper) (λ _. Unit {0})
        (cut_before (c ∷ s) (index (to_upper (c ∷ s)) (codes "CONTENT_FILTER")))
        (cut_before-Ends (c ∷ s) (to_upper (c ∷ s)) _
          (λ i e. le_within i 14 _ (index-le (to_upper (c ∷ s)) (codes "CONTENT_FILTER") i e)))
        (λ h. (c ∷ s, h))

  -- What is left of parts, and where there are none, nothing.
  abbrev Left : List ContentPart → List ContentPart → Type 0
  Left ps rest = AreParts rest × (ps ≡ [] → rest ≡ [])

  filter_leaked_content_filter_parts-Ends :
      (ps : List ContentPart)
      → AreParts ps
      → Ends (Grows to_upper) (Left ps) (filter_leaked_content_filter_parts to_upper to_lower ps)
  unfolding filter_leaked_content_filter_parts
  filter_leaked_content_filter_parts-Ends [] h = Ends-ok _ (Left []) [] (tt, λ e. refl)
  filter_leaked_content_filter_parts-Ends (p ∷ ps) h =
      Ends-bind (Grows to_upper) (λ _. Unit {0}) (Left (p ∷ ps)) _ _
        (strip_leaked_content_filter_suffix-Ends p.text)
        (λ cleaned u.
          Ends-bind (Grows to_upper) (Left ps) (Left (p ∷ ps)) _ _
            (filter_leaked_content_filter_parts-Ends ps h.1)
            (λ rest l.
              Ends-ok _ (Left (p ∷ ps)) _ (keep_part-AreParts p cleaned rest h.0 l.0, λ e. cc)))

  module _ (skips : SkipPaths) (unmarshal : Str → Option Fields) (print : Json → Str)
      (int_of : Str → ℤ) where
    parse_content_chunk-Ends :
        (thinking_enabled : Bool) (kind : Str) (m : Fields)
        → IsKind kind
        → Ends (Grows to_upper) IsLine (
            parse_content_chunk to_upper to_lower skips unmarshal print int_of thinking_enabled kind
              m)
    unfolding parse_content_chunk
    parse_content_chunk-Ends thinking_enabled kind m k =
        let content = parse_sse_chunk_for_content to_upper skips thinking_enabled kind m in
        let typed =
          parse_sse_chunk_for_content-IsContent to_upper skips thinking_enabled kind m k in
        let hidden = parse_sse_chunk_for_content-Hides to_upper skips thinking_enabled kind m in
        Ends-bind (Grows to_upper) (Left content.parts) IsLine _ _
          (filter_leaked_content_filter_parts-Ends content.parts typed.0)
          (λ parts l.
            Ends-bind (Grows to_upper) (Left content.detection) IsLine _ _
              (filter_leaked_content_filter_parts-Ends content.detection typed.1)
              (λ detection d.
                Ends-ok _ IsLine _
                  (l.0, d.0, typed.2, λ e. let empty = hidden.2 e in (l.1 empty.0, d.1 empty.1))))

    -- Reading a line ends, where the type so far is thinking or text. It panics only if the upper case form
    -- of some text is longer than the text. Each part of the result has a text and is thinking or text, so is
    -- the type that follows, and a line that ends the stream has no parts.
    pub parse_deepseek_content_line-Ends :
        (raw : Str) (thinking_enabled : Bool) (kind : Str)
        → IsKind kind
        → Ends (Grows to_upper) IsLine (
            parse_deepseek_content_line to_upper to_lower skips unmarshal print int_of raw
              thinking_enabled kind)
    parse_deepseek_content_line-Ends raw thinking_enabled kind k =
        each_line-Ends to_upper to_lower skips unmarshal print int_of (Grows to_upper) IsLine
          thinking_enabled kind (λ filtered message. (tt, tt, k, λ s. (refl, refl)))
          (tt, tt, k, λ s. (refl, refl)) (λ m. parse_content_chunk-Ends thinking_enabled kind m k)
          raw
