-- ===== src/Turn/Unlinked.antt =====
-- A text whose markers have no link.
use generalcompute2api.Prelude.{
  ℕ, zero, suc, ◌-◌, Bool, true, false, [], ◌∷◌, ◌++◌, Option, none, some, length, take, drop, ◌≡◌,
  refl, ap, ◌∙◌, arith, Option-cases, both_branches, inl, inr, if◌then◌else◌,
}
use generalcompute2api.Prelude.Int.{ℤ, pos, negsuc}
use generalcompute2api.Prelude.Text.{Str, str_eq, atoi, trim_space, codes}
use generalcompute2api.Sse.Citations.{no_links}
use generalcompute2api.Turn.Markers.{
  Marker, marker_at, numbered, replace_citation_markers_with_links, replace_from, replace_marker,
  has_zero_based_reference_marker, replaced,
}

take-drop : (k : ℕ) (s : Str) → take k s ++ drop (length (take k s)) s ≡ s
take-drop zero s = refl
take-drop (suc k) [] = refl
take-drop (suc k) (c ∷ s) = ap (λ t. c ∷ t) (take-drop k s)

suc_pred : (n : ℕ) → suc n - 1 ≡ n
suc_pred n = omega arith

whole-drop :
    (k c : ℕ) (s : Str) → take (suc k) (c ∷ s) ++ drop (length (take (suc k) (c ∷ s)) - 1) s ≡ c ∷ s
whole-drop k c s =
    ap (λ n. c ∷ (take k s ++ drop n s)) (suc_pred (length (take k s)))
    ∙ ap (λ t. c ∷ t) (take-drop k s)

chosen-whole :
    (b : Bool) (k c : ℕ) (s word digits : Str) (m : Marker)
    → (if b
        then some (record { word = word; digits = digits; whole = take (suc k) (c ∷ s) })
        else none)
      ≡ some m
    → m.whole ++ drop (length m.whole - 1) s ≡ c ∷ s
chosen-whole true k c s word digits m h =
    ap (λ w. w ++ drop (length w - 1) s) {x = m.whole} {y = take (suc k) (c ∷ s)}
      (ground (arith, h))
    ∙ whole-drop k c s
chosen-whole false k c s word digits m h = ground (arith, h)

-- The whole of a match is what the text begins with.
numbered-whole :
    (n : ℕ) (word : Str) (c : ℕ) (s : Str) (m : Marker)
    → numbered n word (c ∷ s) ≡ some m
    → m.whole ++ drop (length m.whole - 1) s ≡ c ∷ s
unfolding numbered
numbered-whole n word c s m h = chosen-whole _ _ c s _ _ m h

marker_at-whole :
    (c : ℕ) (s : Str) (m : Marker)
    → marker_at (c ∷ s) ≡ some m
    → m.whole ++ drop (length m.whole - 1) s ≡ c ∷ s
unfolding marker_at
marker_at-whole c s m h = ground (
  arith,
  numbered-whole 10 (codes "citation") c s m,
  numbered-whole 11 (codes "reference") c s m,
  h,
)

replace_marker-no_links :
    (zero_based : Bool) (m : Marker) → replace_marker no_links zero_based m ≡ m.whole
unfolding replace_marker trim_space
replace_marker-no_links zero_based m = go (atoi (trim_space m.digits))
  where
    go : (o : Option ℤ) → replaced no_links zero_based m o ≡ m.whole
    go none = refl
    go (some (pos n)) = ground arith
    go (some (negsuc n)) = refl

pub replace_from-no_links :
    (zero_based : Bool) (skip : ℕ) (s : Str) → replace_from no_links zero_based skip s ≡ drop skip s
unfolding replace_from
replace_from-no_links zero_based zero [] = refl
replace_from-no_links zero_based (suc skip) [] = refl
replace_from-no_links zero_based (suc skip) (c ∷ s) = replace_from-no_links zero_based skip s
replace_from-no_links zero_based zero (c ∷ s) = elim (Option-cases (marker_at (c ∷ s))) [
  | inl none_here ↦
      rw (replace_from, none_here) (ap (λ t. c ∷ t) (replace_from-no_links zero_based 0 s))
  | inr (m, here) ↦
      rw
        (
          replace_from,
          here,
          replace_marker-no_links zero_based m,
          replace_from-no_links zero_based (length m.whole - 1) s,
        )
        (marker_at-whole c s m here)
]

-- Where no marker has a link, the text is as it was.
pub replace_citation_markers_with_links_unlinked :
    (text : Str) → replace_citation_markers_with_links text no_links ≡ text
unfolding replace_citation_markers_with_links
replace_citation_markers_with_links_unlinked text =
    both_branches (λ t. t ≡ text) (str_eq (trim_space text) []) refl
      (replace_from-no_links (has_zero_based_reference_marker text) 0 text)
