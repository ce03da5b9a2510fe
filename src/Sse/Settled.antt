-- ===== src/Sse/Settled.antt =====
-- internal/sse/citation_links.go: the links of a collector are those that the mentions settle.
use generalcompute2api.Prelude.{
  ◌&&◌, Bool-cases, ℕ, zero, suc, Bool, true, false, not, ◌≡◌, refl, ap, ◌∙◌, List, [], ◌∷◌, Option,
  none, some, map, if◌then◌else◌, arith, All, Option-cases, inl, inr,
}
use generalcompute2api.Prelude.Text.{Str, str_eq, str_eq_iff, str_eq_refl}
use generalcompute2api.Sse.Citations.{Collector, is_blank_text, ordered_at, prefer_url_for_index}
use generalcompute2api.Sse.Cited.{link_at}
use generalcompute2api.Sse.Indexed.{or_link, shifted_over, unless_blank}
use generalcompute2api.Sse.Mentions.{
  Mention, cited_link, first_with, is_link, is_there, mentioned_at, settle,
}
use generalcompute2api.Sse.Held.{Holds, IsShown, first_with-shown}

ordered_at-mentioned :
    (j : ℕ) (ms : List Mention)
    → ordered_at (suc j) (map (λ (m : Mention). m.url) ms) ≡ mentioned_at j ms
unfolding ordered_at mentioned_at
ordered_at-mentioned j [] = refl
ordered_at-mentioned zero (m ∷ ms) = refl
ordered_at-mentioned (suc j) (m ∷ ms) = ordered_at-mentioned j ms

same_either : (d s : Str) → (if str_eq d s then some s else some d) ≡ some d
same_either d s = ground (arith, str_eq_iff d s)

chosen :
    (d s x : Str)
    → is_blank_text s ≡ false
    → (if str_eq (if is_blank_text x then d else if str_eq s x && not (str_eq d x) then s else d) s
        then some s
        else some d)
      ≡ (if str_eq x s then some s else some d)
chosen d s x shown = elim (Bool-cases (str_eq x s)) [
  | inl same ↦
      rw ((str_eq_iff x s).0 same, shown, str_eq_refl s)
        (ground (arith, str_eq_iff d s, str_eq_refl s))
  | inr other ↦
      ground (
        arith,
        other,
        same_either d s,
        str_eq_iff s x,
        str_eq_iff x s,
        str_eq_iff d s,
        str_eq_refl s,
      )
]

abbrev by_place : Str → Str → Option Str → Str
by_place d s none = d
by_place d s (some x) =
    if is_blank_text x then d else if str_eq s x && not (str_eq d x) then s else d

prefer-by_place :
    (us : List Str) (idx : ℕ) (d s : Str)
    → prefer_url_for_index us idx d s ≡ by_place d s (ordered_at idx us)
unfolding prefer_url_for_index
prefer-by_place us idx d s = elim (Option-cases (ordered_at idx us)) [
  | inl missing ↦ rw (prefer_url_for_index, missing) refl
  | inr (x, there) ↦ rw (prefer_url_for_index, there) refl
]

-- Of two URLs for an index, the second is taken just where it stands at the place of the index.
preferred :
    (us : List Str) (idx : ℕ) (d s : Str) (o : Option Str)
    → is_blank_text s ≡ false
    → ordered_at idx us ≡ o
    → (if str_eq (prefer_url_for_index us idx d s) s then some s else some d)
      ≡ (if is_link s o then some s else some d)
preferred us idx d s o shown e =
    ap (λ w. if str_eq w s then some s else some d)
      (prefer-by_place us idx d s ∙ ap (by_place d s) e)
    ∙ by_case o
  where
    by_case :
        (o : Option Str)
        → (if str_eq (by_place d s o) s then some s else some d)
          ≡ (if is_link s o then some s else some d)
    by_case none = same_either d s
    by_case (some x) = chosen d s x shown

shown_link :
    (i : ℕ) (ms : List Mention)
    → All IsShown ms
    → unless_blank false (first_with i ms) ≡ first_with i ms
unfolding unless_blank
shown_link i ms h = elim (Option-cases (first_with i ms)) [
  | inl missing ↦ rw missing refl
  | inr (u, found) ↦ rw (found, first_with-shown i ms u h found) refl
]

or_some :
    (b : Bool) (s d : Str) (o : Option Str)
    → or_link (if b then some s else some d) o ≡ (if b then some s else some d)
or_some true s d o = refl
or_some false s d o = refl

shifted-shown :
    (b : Bool) (i : ℕ) (ms : List Mention) (u : Str)
    → All IsShown ms
    → (if b then first_with i ms else none) ≡ some u
    → is_blank_text u ≡ false
shifted-shown true i ms u h e = first_with-shown i ms u h e
shifted-shown false i ms u h e = absurd (ground (arith, e))

settled :
    (us : List Str) (idx : ℕ) (d s : Option Str)
    → ((u : Str) → s ≡ some u → is_blank_text u ≡ false)
    → or_link (shifted_over us idx s d) (ordered_at idx us) ≡ settle d s (ordered_at idx us)
unfolding shifted_over
settled us idx none none h = refl
settled us idx (some d) none h = refl
settled us idx none (some s) h = refl
settled us idx (some d) (some s) h =
    or_some (str_eq (prefer_url_for_index us idx d s) s) s d (ordered_at idx us)
    ∙ preferred us idx d s (ordered_at idx us) (h s refl) refl

pub link_at-cited :
    (ms : List Mention) (c : Collector) (j : ℕ) → Holds ms c → link_at c j ≡ cited_link ms j
unfolding link_at cited_link
link_at-cited ms c zero h = refl
link_at-cited ms c (suc j) h =
    rw
      (
        h.ordered,
        h.from_zero,
        h.entries j,
        h.entries (suc j),
        shown_link j ms h.shown,
        shown_link (suc j) ms h.shown,
      )
      (settled (map (λ (m : Mention). m.url) ms) (suc j) (first_with (suc j) ms)
          (if is_there (first_with 0 ms) then first_with j ms else none)
          (λ u. shifted-shown (is_there (first_with 0 ms)) j ms u h.shown)
        ∙ ap
            (settle (first_with (suc j) ms)
              (if is_there (first_with 0 ms) then first_with j ms else none))
            (ordered_at-mentioned j ms))
