-- ===== src/Sse/Held.antt =====
-- internal/sse/citation_links.go: the collector holds what was mentioned, and one mention more.
use generalcompute2api.Prelude.{
  ℕ, Bool, true, false, ◌||◌, ◌≡◌, refl, sym, ap, ◌∙◌, subst, List, [], ◌∷◌, ◌++◌, Option, none,
  some, map, if◌then◌else◌, ◌==◌, ==_iff, arith, All, Bool-cases, Option-cases, inl, inr, if_true,
  if_false, map-append,
}
use generalcompute2api.Prelude.Int.{ℤ, pos, negsuc}
use generalcompute2api.Prelude.Text.{Str}
use generalcompute2api.Sse.Citations.{
  Collector, add_explicit, has_kept_link, is_blank_text, new_collector, raw_link, set_raw_link,
}
use generalcompute2api.Sse.Indexed.{IsUnique, or_link}
use generalcompute2api.Sse.Mentions.{Mention, first_with, has_index, is_there}

raw_link-set :
    (j i : ℕ) (u : Str) (es : List (ℕ × Str))
    → raw_link j (set_raw_link i u es) ≡ (if i == j then some u else raw_link j es)
unfolding raw_link set_raw_link
raw_link-set j i u [] = refl
raw_link-set j i u ((k, v) ∷ es) = ground (arith, raw_link-set j i u es)

set_raw_link-IsUnique :
    (i : ℕ) (u : Str) (es : List (ℕ × Str)) → IsUnique es → IsUnique (set_raw_link i u es)
unfolding set_raw_link IsUnique raw_link
set_raw_link-IsUnique i u [] h = (refl, tt)
set_raw_link-IsUnique i u ((j, v) ∷ es) h = elim (Bool-cases (j == i)) [
  | inl same ↦
      subst IsUnique (sym (if_true _ _ _ same))
        (ap (λ k. raw_link k es) (sym ((==_iff j i).0 same)) ∙ h.0, h.1)
  | inr other ↦ subst IsUnique (sym (if_false _ _ _ other)) (
    raw_link-set j i u es ∙ if_false (i == j) _ _ (ground arith) ∙ h.0,
    set_raw_link-IsUnique i u es h.1,
  )
]

abbrev pub IsShown : Mention → Type 0
IsShown m = is_blank_text m.url ≡ false

-- The collector after these mentions.
pub record Holds (ms : List Mention) (c : Collector) : Type 0 where
  pub ordered : c.ordered ≡ map (λ (m : Mention). m.url) ms
  pub entries : (i : ℕ) → raw_link i c.explicit_raw ≡ first_with i ms
  pub from_zero : c.has_zero_idx ≡ is_there (first_with 0 ms)
  pub shown : All IsShown ms
  pub unique : IsUnique c.explicit_raw

pub new_collector-Holds : Holds [] new_collector
unfolding first_with raw_link IsUnique
new_collector-Holds = record {
  ordered = refl;
  entries = λ i. refl;
  from_zero = refl;
  shown = tt;
  unique = tt;
}

first_with-append :
    (i : ℕ) (ms : List Mention) (m : Mention)
    → first_with i (ms ++ (m ∷ []))
      ≡ or_link (first_with i ms) (if has_index i m.index then some m.url else none)
unfolding first_with
first_with-append i [] m = refl
first_with-append i (x ∷ ms) m = ground (arith, first_with-append i ms m)

pub first_with-shown :
    (i : ℕ) (ms : List Mention) (u : Str)
    → All IsShown ms
    → first_with i ms ≡ some u
    → is_blank_text u ≡ false
unfolding first_with
first_with-shown i [] u h e = absurd (ground (arith, e))
first_with-shown i (m ∷ ms) u h e = elim (Bool-cases (has_index i m.index)) [
  | inl here ↦ subst (λ v. is_blank_text v ≡ false) {x = m.url} (ground (arith, e, here)) h.0
  | inr later ↦ first_with-shown i ms u h.1 (ground (arith, e, later))
]

All-append_one :
    (ms : List Mention) (m : Mention) → All IsShown ms → IsShown m → All IsShown (ms ++ (m ∷ []))
All-append_one [] m h k = (k, tt)
All-append_one (x ∷ ms) m h k = (h.0, All-append_one ms m h.1 k)

there_or :
    (b : Bool) (u : Str) (o : Option Str)
    → (is_there o || b) ≡ is_there (or_link o (if b then some u else none))
there_or true u none = refl
there_or true u (some v) = refl
there_or false u none = refl
there_or false u (some v) = refl

or_link_kept :
    (b : Bool) (u v : Str) (o : Option Str)
    → (b ≡ true → o ≡ some v)
    → o ≡ or_link o (if b then some u else none)
or_link_kept true u v none h = absurd (ground (arith, h refl))
or_link_kept true u v (some w) h = refl
or_link_kept false u v none h = refl
or_link_kept false u v (some w) h = refl

or_link_new :
    (b : Bool) (u : Str) (o : Option Str)
    → (b ≡ true → o ≡ none)
    → (if b then some u else o) ≡ or_link o (if b then some u else none)
or_link_new true u none h = refl
or_link_new true u (some w) h = absurd (ground (arith, h refl))
or_link_new false u none h = refl
or_link_new false u (some w) h = refl

-- One mention more.
module _ (ms : List Mention) (url : Str) (c : Collector) (h : Holds ms c)
    (shown : is_blank_text url ≡ false) where
  abbrev more : Option ℤ → List Mention
  more o = ms ++ (record { url = url; index = o } ∷ [])

  abbrev with_url : Collector
  with_url = record c { ordered = c.ordered ++ (url ∷ []) }

  ordered_more : (o : Option ℤ) → c.ordered ++ (url ∷ []) ≡ map (λ (m : Mention). m.url) (more o)
  ordered_more o =
      ap (λ us. us ++ (url ∷ [])) h.ordered ∙ sym (map-append (λ (m : Mention). m.url) ms _)

  unindexed : (o : Option ℤ) → ((i : ℕ) → has_index i o ≡ false) → Holds (more o) with_url
  unindexed o none_has = record {
    ordered = ordered_more o;
    entries = λ i.
        ground (
          arith,
          h.entries i,
          first_with-append i ms (record { url = url; index = o }),
          none_has i,
        );
    from_zero =
        ground (
          arith,
          h.from_zero,
          first_with-append 0 ms (record { url = url; index = o }),
          none_has 0,
        );
    shown = All-append_one ms _ h.shown shown;
    unique = h.unique;
  }

  has_kept :
      (o : Option Str) (idx : ℕ)
      → first_with idx ms ≡ o
      → has_kept_link (raw_link idx c.explicit_raw) ≡ is_there o
  unfolding has_kept_link
  has_kept none idx e = ground (arith, h.entries idx, e)
  has_kept (some u) idx e = ground (arith, h.entries idx, e, first_with-shown idx ms u h.shown e)

  abbrev noted : ℕ → List (ℕ × Str) → Collector
  noted idx es = record with_url { has_zero_idx = c.has_zero_idx || idx == 0; explicit_raw = es }

  noted-Holds :
      (idx : ℕ) (es : List (ℕ × Str))
      → ((i : ℕ) → raw_link i es ≡ or_link (first_with i ms) (if idx == i then some url else none))
      → IsUnique es
      → Holds (more (some (pos idx))) (noted idx es)
  noted-Holds idx es e k =
      let m : Mention = record { url = url; index = some (pos idx) } in
      record {
        ordered = ordered_more (some (pos idx));
        entries = λ i. e i ∙ sym (first_with-append i ms m);
        from_zero =
            (ap (λ z. z || idx == 0) h.from_zero ∙ there_or (idx == 0) url (first_with 0 ms))
            ∙ ap is_there (sym (first_with-append 0 ms m));
        shown = All-append_one ms _ h.shown shown;
        unique = k;
      }

  kept_entry :
      (idx i : ℕ) (u : Str)
      → first_with idx ms ≡ some u
      → raw_link i c.explicit_raw ≡ or_link (first_with i ms) (if idx == i then some url else none)
  kept_entry idx i u e =
      h.entries i
      ∙ or_link_kept (idx == i) url u (first_with i ms)
          (λ same. ap (λ k. first_with k ms) (sym ((==_iff idx i).0 same)) ∙ e)

  new_entry :
      (idx i : ℕ)
      → first_with idx ms ≡ none
      → raw_link i (set_raw_link idx url c.explicit_raw)
        ≡ or_link (first_with i ms) (if idx == i then some url else none)
  new_entry idx i e =
      raw_link-set i idx url c.explicit_raw
      ∙ ap (λ o. if idx == i then some url else o) (h.entries i)
      ∙ or_link_new (idx == i) url (first_with i ms)
          (λ same. ap (λ k. first_with k ms) (sym ((==_iff idx i).0 same)) ∙ e)

  pub add_explicit-Holds : (o : Option ℤ) → Holds (more o) (add_explicit url o with_url)
  unfolding add_explicit
  add_explicit-Holds none = unindexed none (λ i. refl)
  add_explicit-Holds (some (negsuc n)) = unindexed (some (negsuc n)) (λ i. refl)
  add_explicit-Holds (some (pos idx)) = elim (Option-cases (first_with idx ms)) [
    | inl first ↦
        subst (Holds (more (some (pos idx)))) (sym (if_false _ _ _ (has_kept none idx first))) (
          noted-Holds idx (set_raw_link idx url c.explicit_raw) (λ i. new_entry idx i first)
            (set_raw_link-IsUnique idx url c.explicit_raw h.unique))
    | inr (u, again) ↦
        subst (Holds (more (some (pos idx)))) (sym (if_true _ _ _ (has_kept (some u) idx again)))
          (noted-Holds idx c.explicit_raw (λ i. kept_entry idx i u again) h.unique)
  ]
