-- ===== src/Accumulator/Deltas.antt =====
-- The deltas that go to the client, put together, are the texts that the accumulator holds.
use generalcompute2api.Prelude.{
  ◌≡◌, refl, ap, sym, ◌∙◌, Bool, true, false, not, ◌&&◌, ◌||◌, List, [], ◌∷◌, ◌++◌, arith,
  if◌then◌else◌, Bool-cases, inl, inr,
}
use mathlib.Core.List.{append-nil, append_assoc}
use generalcompute2api.Prelude.Text.{Str, codes, str_eq}
use generalcompute2api.Sse.{ContentPart, is_citation, trim_continuation_overlap_from_builder}
use generalcompute2api.Accumulator.{
  Cleaner, StreamAccumulator, StreamAccumulatorResult, StreamPartDelta, add_delta, apply_part,
  apply_text_part, apply_thinking_part, is_empty, is_kept, clean_visible_output, show_thinking,
  delta_of, text_kind, thinking_kind,
}

-- The part of a delta that belongs to a text.
abbrev pub thinking_raw : StreamPartDelta → Str
thinking_raw d = elim d.type [ thinking_kind ↦ d.raw_text | text_kind ↦ [] ]

abbrev pub thinking_visible : StreamPartDelta → Str
thinking_visible d = elim d.type [ thinking_kind ↦ d.visible_text | text_kind ↦ [] ]

abbrev pub text_raw : StreamPartDelta → Str
text_raw d = elim d.type [ thinking_kind ↦ [] | text_kind ↦ d.raw_text ]

abbrev pub text_visible : StreamPartDelta → Str
text_visible d = elim d.type [ thinking_kind ↦ [] | text_kind ↦ d.visible_text ]

abbrev pub joined : (StreamPartDelta → Str) → List StreamPartDelta → Str
joined f [] = []
joined f (d ∷ ds) = f d ++ joined f ds

-- The accumulator grows by what the deltas show.
pub record GrowsBy (a b : StreamAccumulator) (ds : List StreamPartDelta) : Type 0 where
  pub raw_thinking : b.raw_thinking ≡ a.raw_thinking ++ joined thinking_raw ds
  pub thinking : b.thinking ≡ a.thinking ++ joined thinking_visible ds
  pub raw_text : b.raw_text ≡ a.raw_text ++ joined text_raw ds
  pub text : b.text ≡ a.text ++ joined text_visible ds

-- One chunk and its delta.
pub record Adds (a b : StreamAccumulator) (d : StreamPartDelta) : Type 0 where
  pub raw_thinking : b.raw_thinking ≡ a.raw_thinking ++ thinking_raw d
  pub thinking : b.thinking ≡ a.thinking ++ thinking_visible d
  pub raw_text : b.raw_text ≡ a.raw_text ++ text_raw d
  pub text : b.text ≡ a.text ++ text_visible d

abbrev pub Pays : StreamAccumulator → StreamAccumulator × StreamPartDelta → Type 0
Pays a (b, d) = Adds a b d

apply_thinking_part-Adds :
    (c : Cleaner) (a : StreamAccumulator) (chunk : Str) → Pays a (apply_thinking_part c a chunk)
unfolding apply_thinking_part
apply_thinking_part-Adds c a chunk = go (not a.thinking_enabled || is_empty raw)
  where
    raw : Str
    raw = trim_continuation_overlap_from_builder a.raw_thinking chunk

    visible : Str
    visible =
        trim_continuation_overlap_from_builder a.thinking
          (clean_visible_output c raw a.strip_reference_markers)

    kept : StreamAccumulator
    kept = record a { raw_thinking = a.raw_thinking ++ raw }

    go :
        (b : Bool)
        → Pays a (
            if b
            then (kept, delta_of thinking_kind raw [] false)
            else show_thinking kept raw visible)
    go true = record {
      raw_thinking = refl;
      thinking = sym (append-nil a.thinking);
      raw_text = sym (append-nil a.raw_text);
      text = sym (append-nil a.text);
    }
    go false = record {
      raw_thinking = refl;
      thinking = refl;
      raw_text = sym (append-nil a.raw_text);
      text = sym (append-nil a.text);
    }

apply_text_part-Adds :
    (c : Cleaner) (a : StreamAccumulator) (chunk : Str) → Pays a (apply_text_part c a chunk)
unfolding apply_text_part
apply_text_part-Adds c a chunk = go (is_empty raw) (a.search_enabled && is_citation raw)
  where
    raw : Str
    raw = trim_continuation_overlap_from_builder a.raw_text chunk

    visible : Str
    visible =
        trim_continuation_overlap_from_builder a.text
          (clean_visible_output c raw a.strip_reference_markers)

    kept : StreamAccumulator
    kept = record a { raw_text = a.raw_text ++ raw }

    go :
        (b d : Bool)
        → Pays a (
            if b
            then (a, delta_of text_kind [] [] false)
            else if d
            then (kept, delta_of text_kind raw [] true)
            else (record kept { text = a.text ++ visible }, delta_of text_kind raw visible false))
    go true d = record {
      raw_thinking = sym (append-nil a.raw_thinking);
      thinking = sym (append-nil a.thinking);
      raw_text = sym (append-nil a.raw_text);
      text = sym (append-nil a.text);
    }
    go false true = record {
      raw_thinking = sym (append-nil a.raw_thinking);
      thinking = sym (append-nil a.thinking);
      raw_text = refl;
      text = sym (append-nil a.text);
    }
    go false false = record {
      raw_thinking = sym (append-nil a.raw_thinking);
      thinking = sym (append-nil a.thinking);
      raw_text = refl;
      text = refl;
    }

pub apply_part-Adds :
    (c : Cleaner) (a : StreamAccumulator) (p : ContentPart) → Pays a (apply_part c a p)
unfolding apply_part
apply_part-Adds c a p = elim (Bool-cases (str_eq p.type (codes "thinking"))) [
  | inl t ↦ rw t (apply_thinking_part-Adds c a p.text)
  | inr t ↦ rw t (apply_text_part-Adds c a p.text)
]

-- A delta that is not passed on shows nothing.
dropped : (d : StreamPartDelta) → is_kept d ≡ false → (d.raw_text ≡ []) × (d.visible_text ≡ [])
dropped d h = (go d.raw_text d.visible_text d.citation_only h)
  where
    go :
        (r v : Str) (b : Bool)
        → (not (is_empty r) || not (is_empty v) || b) ≡ false
        → (r ≡ []) × (v ≡ [])
    go [] [] b h = (refl, refl)
    go [] (x ∷ v) b h = absurd (cc)
    go (x ∷ r) v b h = absurd (cc)

joined-add_delta :
    (f : StreamPartDelta → Str) (d : StreamPartDelta) (out : StreamAccumulatorResult)
    → (is_kept d ≡ false → f d ≡ [])
    → joined f (add_delta d out).parts ≡ f d ++ joined f out.parts
joined-add_delta f d out h = elim (Bool-cases (is_kept d)) [
  | inl kept ↦ rw kept
  | inr lost ↦ rw (lost, h lost)
]

pub cons-GrowsBy :
    {a b e : StreamAccumulator} (d : StreamPartDelta) (out : StreamAccumulatorResult)
    → Adds a b d
    → GrowsBy b e out.parts
    → GrowsBy a e (add_delta d out).parts
cons-GrowsBy {a} {b} {e} d out p g = record {
  raw_thinking =
      chain a.raw_thinking thinking_raw (λ h. ground (arith, dropped d h)) p.raw_thinking
        g.raw_thinking;
  thinking =
      chain a.thinking thinking_visible (λ h. ground (arith, dropped d h)) p.thinking g.thinking;
  raw_text = chain a.raw_text text_raw (λ h. ground (arith, dropped d h)) p.raw_text g.raw_text;
  text = chain a.text text_visible (λ h. ground (arith, dropped d h)) p.text g.text;
}
  where
    chain :
        (x : Str) {y z : Str} (f : StreamPartDelta → Str)
        → (is_kept d ≡ false → f d ≡ [])
        → y ≡ x ++ f d
        → z ≡ y ++ joined f out.parts
        → z ≡ x ++ joined f (add_delta d out).parts
    chain x f h p q =
        q
        ∙ ap (λ t. t ++ joined f out.parts) p
        ∙ append_assoc x (f d) (joined f out.parts)
        ∙ ap (λ t. x ++ t) (sym (joined-add_delta f d out h))
