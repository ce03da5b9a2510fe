-- ===== src/Accumulator/Lines.antt =====
-- `Apply` over the lines of a stream.
use generalcompute2api.Prelude.{◌≡◌, refl, ap, sym, ◌∙◌, List, [], ◌∷◌, ◌++◌}
use mathlib.Core.List.{append-nil, append_assoc}
use generalcompute2api.Prelude.Text.{Str}
use generalcompute2api.Sse.{trim_continuation_overlap_from_builder, ContentPart, LineResult}
use generalcompute2api.Accumulator.{
  Cleaner, StreamAccumulator, StreamPartDelta, apply, apply_all, apply_part, apply_parts,
  observe_tool_detection,
}
use generalcompute2api.Accumulator.Deltas.{
  GrowsBy, apply_part-Adds, cons-GrowsBy, joined, text_raw, text_visible, thinking_raw,
  thinking_visible,
}

apply_parts-GrowsBy :
    (c : Cleaner) (a : StreamAccumulator) (ps : List ContentPart)
    → GrowsBy a (apply_parts c a ps).0 (apply_parts c a ps).1.parts
unfolding apply_parts
apply_parts-GrowsBy c a [] = record {
  raw_thinking = sym (append-nil a.raw_thinking);
  thinking = sym (append-nil a.thinking);
  raw_text = sym (append-nil a.raw_text);
  text = sym (append-nil a.text);
}
apply_parts-GrowsBy c a (p ∷ ps) =
    cons-GrowsBy (apply_part c a p).1 (apply_parts c (apply_part c a p).0 ps).1
      (apply_part-Adds c a p) (apply_parts-GrowsBy c (apply_part c a p).0 ps)

-- Only the text for tool detection changes before the parts are read.
abbrev SameTexts : StreamAccumulator → StreamAccumulator → Type 0
SameTexts a b =
    (b.raw_thinking ≡ a.raw_thinking)
    × (b.thinking ≡ a.thinking)
    × (b.raw_text ≡ a.raw_text)
    × (b.text ≡ a.text)

observe_tool_detection-SameTexts :
    (a : StreamAccumulator) (ps : List ContentPart) → SameTexts a (observe_tool_detection a ps)
unfolding observe_tool_detection
observe_tool_detection-SameTexts a [] = (refl, refl, refl, refl)
observe_tool_detection-SameTexts a (p ∷ ps) =
    observe_tool_detection-SameTexts
      (record a {
        tool_detection_thinking =
            a.tool_detection_thinking
            ++ trim_continuation_overlap_from_builder a.tool_detection_thinking p.text;
      })
      ps

apply-GrowsBy :
    (c : Cleaner) (a : StreamAccumulator) (l : LineResult)
    → GrowsBy a (apply c a l).0 (apply c a l).1.parts
unfolding apply
apply-GrowsBy c a l = record {
  raw_thinking = g.raw_thinking ∙ ap (λ t. t ++ joined thinking_raw out) same.0;
  thinking = g.thinking ∙ ap (λ t. t ++ joined thinking_visible out) same.1;
  raw_text = g.raw_text ∙ ap (λ t. t ++ joined text_raw out) same.2;
  text = g.text ∙ ap (λ t. t ++ joined text_visible out) same.3;
}
  where
    b : StreamAccumulator
    b = observe_tool_detection a l.tool_detection_thinking_parts

    out : List StreamPartDelta
    out = (apply_parts c b l.parts).1.parts

    g : GrowsBy b (apply_parts c b l.parts).0 out
    g = apply_parts-GrowsBy c b l.parts

    same : SameTexts a b
    same = observe_tool_detection-SameTexts a l.tool_detection_thinking_parts

joined-append :
    (f : StreamPartDelta → Str) (ds es : List StreamPartDelta)
    → joined f (ds ++ es) ≡ joined f ds ++ joined f es
joined-append f [] es = refl
joined-append f (d ∷ ds) es =
    rw (joined-append f ds es) (sym (append_assoc (f d) (joined f ds) (joined f es)))

trans-GrowsBy :
    {a b e : StreamAccumulator} (ds es : List StreamPartDelta)
    → GrowsBy a b ds
    → GrowsBy b e es
    → GrowsBy a e (ds ++ es)
trans-GrowsBy {a} {b} {e} ds es p q = record {
  raw_thinking = chain a.raw_thinking thinking_raw p.raw_thinking q.raw_thinking;
  thinking = chain a.thinking thinking_visible p.thinking q.thinking;
  raw_text = chain a.raw_text text_raw p.raw_text q.raw_text;
  text = chain a.text text_visible p.text q.text;
}
  where
    chain :
        (x : Str) {y z : Str} (f : StreamPartDelta → Str)
        → y ≡ x ++ joined f ds
        → z ≡ y ++ joined f es
        → z ≡ x ++ joined f (ds ++ es)
    chain x f p q =
        q
        ∙ ap (λ t. t ++ joined f es) p
        ∙ append_assoc x (joined f ds) (joined f es)
        ∙ ap (λ t. x ++ t) (sym (joined-append f ds es))

-- Over any lines of a stream, each of the four texts that the accumulator holds is what it held before
-- followed by the matching parts of the deltas that were passed on, in order: nothing that is passed on
-- is missing from the texts, and nothing is in them that was not passed on.
pub apply_all-GrowsBy :
    (c : Cleaner) (a : StreamAccumulator) (ls : List LineResult)
    → GrowsBy a (apply_all c a ls).0 (apply_all c a ls).1
unfolding apply_all
apply_all-GrowsBy c a [] = record {
  raw_thinking = sym (append-nil a.raw_thinking);
  thinking = sym (append-nil a.thinking);
  raw_text = sym (append-nil a.raw_text);
  text = sym (append-nil a.text);
}
apply_all-GrowsBy c a (l ∷ ls) =
    trans-GrowsBy (apply c a l).1.parts (apply_all c (apply c a l).0 ls).1 (apply-GrowsBy c a l)
      (apply_all-GrowsBy c (apply c a l).0 ls)
