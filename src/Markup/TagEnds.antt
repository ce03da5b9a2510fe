-- ===== src/Markup/TagEnds.antt =====
-- internal/toolcall/toolcalls_scan.go: where a tag ends.
use generalcompute2api.Prelude.{
  ℕ, suc, ◌+◌, ◌-◌, ◌≤◌, ◌<◌, ◌≡◌, subst, Bool, true, [], ◌∷◌, Option, none, some, if◌then◌else◌,
  leb, length, drop, length-drop, arith,
}
use generalcompute2api.Prelude.Runs.{
  Ends, Ends-bind, Ends-if, Ends-ok, Ends-option, slice_from-within,
}
use generalcompute2api.Prelude.Text.{Str}
use generalcompute2api.Markup.Scan.{
  ToolMarkupTag, find_xml_tag_end, markup_tag_end, slice, tag_end_from,
}
use generalcompute2api.Markup.Bounds.{Differ}

-- A tag within the text, with its name within the tag.
abbrev pub LiesIn : Str → ℕ → ToolMarkupTag → Type 0
LiesIn text from tag =
    (from ≤ tag.start)
    × (tag.start < tag.name_start)
    × (tag.name_start < tag.name_end)
    × (tag.name_end ≤ tag.end + 1)
    × (tag.end < length text)

abbrev pub AllLieIn : Str → ℕ → Option ToolMarkupTag → Type 0
AllLieIn text from none = Unit {0}
AllLieIn text from (some tag) = LiesIn text from tag

pub AllLieIn-from :
    (text : Str) (i j : ℕ) (o : Option ToolMarkupTag)
    → i ≤ j
    → AllLieIn text j o
    → AllLieIn text i o
AllLieIn-from text i j none h a = tt
AllLieIn-from text i j (some tag) h a = (omega (arith, h, a.0), a.1, a.2, a.3, a.4)

abbrev pub Between : ℕ → ℕ → Option ℕ → Type 0
Between i bound none = Unit {0}
Between i bound (some end) = (i ≤ end) × (end < bound)

tag_end_from-Between : (quote i : ℕ) (s : Str) → Between i (i + length s) (tag_end_from quote i s)
unfolding tag_end_from
tag_end_from-Between quote i [] = tt
tag_end_from-Between quote i (ch ∷ s) = ground (
  arith,
  tag_end_from-Between quote (suc i) s,
  tag_end_from-Between 0 (suc i) s,
  tag_end_from-Between ch (suc i) s,
)

find_xml_tag_end-Between :
    (text : Str) (from : ℕ) → Between from (length text) (find_xml_tag_end text from)
unfolding find_xml_tag_end
find_xml_tag_end-Between text from =
    ground (arith, tag_end_from-Between 0 from (drop from text), length-drop from text)

-- The end of the tag, or the end of the name where a `<` comes first.
nearer :
    (name_end end bound : ℕ) (o : Option ℕ)
    → 0 < name_end
    → Between name_end bound (some end)
    → Between (name_end - 1) bound (
        some (elim o as (λ _. ℕ) [
          | none ↦ end
          | some next_lt ↦ if leb (name_end + next_lt) end then name_end - 1 else end
        ]))
nearer name_end end bound none h b = (omega (arith, b.0), b.1)
nearer name_end end bound (some next_lt) h b = ground arith

pub markup_tag_end-Ends :
    (lower text : Str) (name_end : ℕ) (piped : Bool)
    → 0 < name_end
    → (piped ≡ true → name_end ≤ length text)
    → Ends
        (Differ lower text)
        (Between (name_end - 1) (length text))
        (markup_tag_end text name_end piped)
unfolding markup_tag_end
markup_tag_end-Ends lower text name_end piped h k =
    Ends-option _ _ (find_xml_tag_end text name_end) _ _
      (λ n. Ends-ok _ (Between (name_end - 1) (length text)) _ (ground arith))
      (λ end e.
        (let b =
            subst (Between name_end (length text)) e (find_xml_tag_end-Between text name_end) in
          Ends-if _ _ piped _ _
            (λ p.
              Ends-bind _ _ _ _ _ (slice_from-within _ name_end text (omega (arith, k p)))
                (λ tail m.
                  Ends-ok _ (Between (name_end - 1) (length text)) _
                    (nearer name_end end (length text) _ h b)))
            (λ p.
              Ends-ok _ (Between (name_end - 1) (length text)) (some end)
                (omega (arith, b.0), b.1))))

pub slice-Ends :
    (lower text : Str) (i j : ℕ)
    → i ≤ j
    → j ≤ length text
    → Ends (Differ lower text) (λ _. Unit {0}) (slice i j text)
unfolding Ends
slice-Ends lower text i j h k = ground arith
