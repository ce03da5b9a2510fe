-- ===== src/Sse/Cited.antt =====
-- internal/sse/citation_links.go: which link stands at which index.
use generalcompute2api.Prelude.{
  ==_iff, if_true, if_false, ℕ, zero, suc, ◌-◌, Bool, true, false, ◌≡◌, refl, sym, ap, ◌∙◌, List,
  [], ◌∷◌, Option, none, some, if◌then◌else◌, ◌==◌, arith, Bool-cases, inl, inr,
}
use generalcompute2api.Prelude.Text.{Str}
use generalcompute2api.Sse.Citations.{
  Collector, Links, add_ordered_from, add_shifted, build, build_normalized_explicit, keep_positive,
  no_links, ordered_at, put_missing, raw_link,
}
use generalcompute2api.Sse.Indexed.{
  IsUnique, add_shifted-at, add_shifted-zero, keep_positive-at, or_link, shifted_over, unless_blank,
}

put_missing-at :
    (i j : ℕ) (u : Str) (o : Option Str) (out : Links)
    → out (suc i) ≡ o
    → put_missing (suc i) u o out j ≡ (if j == suc i then or_link (out j) (some u) else out j)
put_missing-at i j u none out e = elim (Bool-cases (j == suc i)) [
  | inl same ↦
      if_true _ _ _ same
      ∙ sym (
          if_true _ _ _ same
          ∙ ap (λ k. or_link (out k) (some u)) ((==_iff j (suc i)).0 same)
          ∙ ap (λ o. or_link o (some u)) e)
  | inr other ↦ if_false _ _ _ other ∙ sym (if_false _ _ _ other)
]
put_missing-at i j u (some v) out e = elim (Bool-cases (j == suc i)) [
  | inl same ↦
      ap out ((==_iff j (suc i)).0 same)
      ∙ e
      ∙ sym (
          if_true _ _ _ same
          ∙ ap (λ k. or_link (out k) (some u)) ((==_iff j (suc i)).0 same)
          ∙ ap (λ o. or_link o (some u)) e)
  | inr other ↦ sym (if_false _ _ _ other)
]

ordered_at-zero : (us : List Str) → ordered_at 0 us ≡ none
unfolding ordered_at
ordered_at-zero [] = refl
ordered_at-zero (u ∷ us) = refl

or_link-none : (o : Option Str) → or_link o none ≡ o
or_link-none none = refl
or_link-none (some u) = refl

ordered_at-empty : (k : ℕ) → ordered_at k [] ≡ none
unfolding ordered_at
ordered_at-empty k = refl

-- One URL in front of the others, at a distance.
ordered_step :
    (k : ℕ) (i j : ℕ) (u : Str) (us : List Str) (o : Option Str)
    → j - i ≡ k
    → or_link (if j == suc i then or_link o (some u) else o) (ordered_at (j - suc i) us)
      ≡ or_link o (ordered_at k (u ∷ us))
unfolding ordered_at
ordered_step zero i j u us o e =
    ap (λ t. or_link t (ordered_at (j - suc i) us)) (if_false (j == suc i) _ _ (ground arith))
    ∙ ap (λ n. or_link o (ordered_at n us)) (omega arith)
    ∙ ap (or_link o) (ordered_at-zero us)
ordered_step (suc zero) i j u us o e =
    ap (λ t. or_link t (ordered_at (j - suc i) us)) (if_true (j == suc i) _ _ (ground arith))
    ∙ ap (λ n. or_link (or_link o (some u)) (ordered_at n us)) (omega arith)
    ∙ ap (or_link (or_link o (some u))) (ordered_at-zero us)
    ∙ or_link-none (or_link o (some u))
ordered_step (suc (suc k)) i j u us o e =
    ap (λ t. or_link t (ordered_at (j - suc i) us)) (if_false (j == suc i) _ _ (ground arith))
    ∙ ap (λ n. or_link o (ordered_at n us)) (omega arith)

add_ordered_from-at :
    (i j : ℕ) (us : List Str) (out : Links)
    → add_ordered_from i us out j ≡ or_link (out j) (ordered_at (j - i) us)
unfolding add_ordered_from
add_ordered_from-at i j [] out =
    sym (ap (or_link (out j)) (ordered_at-empty (j - i)) ∙ or_link-none (out j))
add_ordered_from-at i j (u ∷ us) out =
    add_ordered_from-at (suc i) j us (put_missing (suc i) u (out (suc i)) out)
    ∙ ap (λ t. or_link t (ordered_at (j - suc i) us)) (put_missing-at i j u (out (suc i)) out refl)
    ∙ ordered_step (j - i) i j u us (out j) refl

-- The link at an index without the loops: the entry's URL, the ordered URL to settle a conflict between
-- counting from 1 and from 0, and else the ordered URL.
unfoldable pub link_at : Collector → ℕ → Option Str
unfolding shifted_over unless_blank raw_link ordered_at
link_at c zero = none
link_at c (suc j) =
    let direct = unless_blank false (raw_link (suc j) c.explicit_raw) in
    let shifted = if c.has_zero_idx then unless_blank false (raw_link j c.explicit_raw) else none in
    or_link (shifted_over c.ordered (suc j) shifted direct) (ordered_at (suc j) c.ordered)

shift_if :
    (b : Bool) (c : Collector) (j : ℕ) (out : Links)
    → IsUnique c.explicit_raw
    → (if b then add_shifted c.ordered c.explicit_raw out else out) (suc j)
      ≡ shifted_over c.ordered
          (suc j)
          (if b then unless_blank false (raw_link j c.explicit_raw) else none)
          (out (suc j))
unfolding shifted_over
shift_if true c j out h = add_shifted-at j c.ordered c.explicit_raw out h
shift_if false c j out h = refl

zero_if :
    (b : Bool) (c : Collector) (out : Links)
    → (if b then add_shifted c.ordered c.explicit_raw out else out) 0 ≡ out 0
zero_if true c out = add_shifted-zero c.ordered c.explicit_raw out
zero_if false c out = refl

unless_blank-true : (r : Option Str) → unless_blank true r ≡ none
unfolding unless_blank
unless_blank-true none = refl
unless_blank-true (some u) = refl

suc_is_not_zero : (j : ℕ) → (suc j == 0) ≡ false
suc_is_not_zero j = ground arith

minus_zero : (j : ℕ) → suc j - 0 ≡ suc j
minus_zero j = omega arith

pub build-link_at : (c : Collector) (j : ℕ) → IsUnique c.explicit_raw → build c j ≡ link_at c j
unfolding build build_normalized_explicit link_at
build-link_at c zero h =
    let kept = keep_positive c.explicit_raw no_links in
    add_ordered_from-at 0 0 c.ordered (build_normalized_explicit c)
    ∙ ap (or_link (build_normalized_explicit c 0)) (ordered_at-zero c.ordered)
    ∙ or_link-none (build_normalized_explicit c 0)
    ∙ zero_if c.has_zero_idx c kept
    ∙ keep_positive-at 0 c.explicit_raw no_links h
    ∙ or_link-none (unless_blank true (raw_link 0 c.explicit_raw))
    ∙ unless_blank-true (raw_link 0 c.explicit_raw)
build-link_at c (suc j) h =
    let kept = keep_positive c.explicit_raw no_links in
    add_ordered_from-at 0 (suc j) c.ordered (build_normalized_explicit c)
    ∙ ap (λ n. or_link (build_normalized_explicit c (suc j)) (ordered_at n c.ordered))
        (minus_zero j)
    ∙ ap (λ o. or_link o (ordered_at (suc j) c.ordered))
        (shift_if c.has_zero_idx c j kept h
          ∙ ap
              (shifted_over c.ordered (suc j)
                (if c.has_zero_idx then unless_blank false (raw_link j c.explicit_raw) else none))
              (keep_positive-at (suc j) c.explicit_raw no_links h
                ∙ or_link-none (unless_blank (suc j == 0) (raw_link (suc j) c.explicit_raw))
                ∙ ap (λ b. unless_blank b (raw_link (suc j) c.explicit_raw)) (suc_is_not_zero j)))
