-- ===== src/Sse/Indexed.antt =====
-- internal/sse/citation_links.go: the loops over the entries that have an index.
use generalcompute2api.Prelude.{
  ==_iff, if_true, if_false, ℕ, suc, Bool, true, false, ◌||◌, ◌≡◌, refl, sym, ap, ◌∙◌, subst, List,
  [], ◌∷◌, Option, none, some, if◌then◌else◌, ◌==◌, arith, Bool-cases, inl, inr, both_branches,
}
use generalcompute2api.Prelude.Text.{Str, str_eq}
use generalcompute2api.Sse.Citations.{
  Links, add_shifted, is_blank_text, keep_positive, prefer_url_for_index, put_link, put_preferred,
  raw_link,
}

-- Each index has one entry.
unfoldable pub IsUnique : List (ℕ × Str) → Type 0
unfolding raw_link
IsUnique [] = Unit {0}
IsUnique ((i, u) ∷ es) = (raw_link i es ≡ none) × IsUnique es

abbrev pub or_link : Option Str → Option Str → Option Str
or_link none o = o
or_link (some u) o = some u

-- A text that is not blank, where `b` does not forbid it.
unfoldable pub unless_blank : Bool → Option Str → Option Str
unless_blank b none = none
unless_blank b (some u) = if b || is_blank_text u then none else some u

-- The link of an entry that counts from 0, over that of one that counts from 1.
unfoldable pub shifted_over : List Str → ℕ → Option Str → Option Str → Option Str
shifted_over us idx none current = current
shifted_over us idx (some u) none = some u
shifted_over us idx (some u) (some e) =
    if str_eq (prefer_url_for_index us idx e u) u then some u else some e

module _ (j : ℕ) where
  keep_step :
      (i : ℕ) (u : Str) (r : Option Str) (out : Links)
      → (i ≡ j → r ≡ none)
      → or_link
          (unless_blank (j == 0) r)
          ((if i == 0 || is_blank_text u then out else put_link i u out) j)
        ≡ or_link (unless_blank (j == 0) (if i == j then some u else r)) (out j)
  unfolding unless_blank
  keep_step i u none out h = ground arith
  keep_step i u (some v) out h = ground arith

  raw_link-none :
      (i : ℕ) (es : List (ℕ × Str)) → raw_link i es ≡ none → i ≡ j → raw_link j es ≡ none
  raw_link-none i es e same = ap (λ k. raw_link k es) (sym same) ∙ e

  pub keep_positive-at :
      (es : List (ℕ × Str)) (out : Links)
      → IsUnique es
      → keep_positive es out j ≡ or_link (unless_blank (j == 0) (raw_link j es)) (out j)
  unfolding keep_positive IsUnique raw_link unless_blank
  keep_positive-at [] out h = refl
  keep_positive-at ((i, u) ∷ es) out h =
      keep_positive-at es (if i == 0 || is_blank_text u then out else put_link i u out) h.1
      ∙ keep_step i u (raw_link j es) out (raw_link-none i es h.0)

  -- The link at the index is put or kept, and no other is changed.
  put_preferred-at :
      (us : List Str) (u : Str) (o : Option Str) (out : Links)
      → out (suc j) ≡ o
      → put_preferred us (suc j) u o out (suc j) ≡ shifted_over us (suc j) (some u) o
  unfolding put_preferred shifted_over
  put_preferred-at us u none out e = ground arith
  put_preferred-at us u (some v) out e = ground arith

  put_preferred-other :
      (us : List Str) (i : ℕ) (u : Str) (o : Option Str) (out : Links)
      → (i == j) ≡ false
      → put_preferred us (suc i) u o out (suc j) ≡ out (suc j)
  unfolding put_preferred
  put_preferred-other us i u none out e = ground arith
  put_preferred-other us i u (some v) out e = ground arith

  pick :
      (us : List Str) (u : Str) (blank same : Bool) (r o p : Option Str)
      → (same ≡ true → r ≡ none)
      → p ≡ (if same then shifted_over us (suc j) (some u) o else o)
      → shifted_over us (suc j) (unless_blank false r) (if blank then o else p)
        ≡ shifted_over us
            (suc j)
            (if same then (if blank then none else some u) else unless_blank false r)
            o
  unfolding shifted_over unless_blank
  pick us u true true r o p h e =
      ap (λ x. shifted_over us (suc j) (unless_blank false x) o) (h refl)
  pick us u true false r o p h e = refl
  pick us u false true r o p h e =
      ap (λ x. shifted_over us (suc j) (unless_blank false x) p) (h refl) ∙ e
  pick us u false false r o p h e = ap (shifted_over us (suc j) (unless_blank false r)) e

  if_at :
      (b : Bool) (f g : Links) → (if b then f else g) (suc j) ≡ (if b then f (suc j) else g (suc j))
  if_at true f g = refl
  if_at false f g = refl

  unless_blank_if :
      (u : Str) (same : Bool) (r : Option Str)
      → unless_blank false (if same then some u else r)
        ≡ (if same then (if is_blank_text u then none else some u) else unless_blank false r)
  unfolding unless_blank
  unless_blank_if u true r = refl
  unless_blank_if u false r = refl

  put_preferred_if :
      (us : List Str) (i : ℕ) (u : Str) (out : Links)
      → put_preferred us (suc i) u (out (suc i)) out (suc j)
        ≡ (if i == j then shifted_over us (suc j) (some u) (out (suc j)) else out (suc j))
  put_preferred_if us i u out = elim (Bool-cases (i == j)) [
    | inl same ↦
        subst
          (λ k.
            put_preferred us (suc k) u (out (suc k)) out (suc j)
            ≡ shifted_over us (suc j) (some u) (out (suc j)))
          (sym ((==_iff i j).0 same)) (put_preferred-at us u (out (suc j)) out refl)
        ∙ sym (if_true _ _ _ same)
    | inr other ↦ put_preferred-other us i u (out (suc i)) out other ∙ sym (if_false _ _ _ other)
  ]

  unshifted :
      (us : List Str) (o : Option Str) → o ≡ shifted_over us (suc j) (unless_blank false none) o
  unfolding shifted_over unless_blank
  unshifted us o = refl

  pub add_shifted-at :
      (us : List Str) (es : List (ℕ × Str)) (out : Links)
      → IsUnique es
      → add_shifted us es out (suc j)
        ≡ shifted_over us (suc j) (unless_blank false (raw_link j es)) (out (suc j))
  unfolding add_shifted IsUnique raw_link
  add_shifted-at us [] out h = unshifted us (out (suc j))
  add_shifted-at us ((i, u) ∷ es) out h =
      add_shifted-at us es _ h.1
      ∙ ap (shifted_over us (suc j) (unless_blank false (raw_link j es)))
          (if_at (is_blank_text u) out _)
      ∙ pick us u (is_blank_text u) (i == j) (raw_link j es) (out (suc j)) _
          (λ same. raw_link-none i es h.0 ((==_iff i j).0 same)) (put_preferred_if us i u out)
      ∙ ap (λ x. shifted_over us (suc j) x (out (suc j)))
          (sym (unless_blank_if u (i == j) (raw_link j es)))

put_preferred-zero :
    (us : List Str) (i : ℕ) (u : Str) (o : Option Str) (out : Links)
    → put_preferred us (suc i) u o out 0 ≡ out 0
unfolding put_preferred
put_preferred-zero us i u none out = ground arith
put_preferred-zero us i u (some v) out = ground arith

pub add_shifted-zero :
    (us : List Str) (es : List (ℕ × Str)) (out : Links) → add_shifted us es out 0 ≡ out 0
unfolding add_shifted
add_shifted-zero us [] out = refl
add_shifted-zero us ((i, u) ∷ es) out =
    add_shifted-zero us es _
    ∙ both_branches (λ (f : Links). f 0 ≡ out 0) (is_blank_text u) refl
        (put_preferred-zero us i u (out (suc i)) out)
