-- ===== src/ChatHistory/Listing.antt =====
-- Which conversations are listed by a sorted index, and which are left after the others are deleted.
use generalcompute2api.Prelude.{
  ℕ, zero, suc, ◌≡◌, ◌≢◌, refl, ap, ◌∙◌, Bool, true, false, ◌||◌, List, [], ◌∷◌, map, none, arith,
  if◌then◌else◌, Bool-cases, inl, inr, both_branches, take, All,
}
use generalcompute2api.Prelude.Maps.{erase, has_key, lookup, lookup-erase}
use generalcompute2api.Prelude.Text.{Str, str_eq, str_eq_iff, trim_space}
use generalcompute2api.ChatHistory.{
  Entry, Store, SummaryEntry, mark_detail_deleted, set_deleted, summary_from_entry,
}
use generalcompute2api.ChatHistory.Index.{
  contains, delete_detail, ids_of, insert_newest, newer, prune, sort_newest,
}
use generalcompute2api.ChatHistory.Keys.{IsKeyed}

module _ (id : Str) where
  contains-insert_newest :
      (a : SummaryEntry) (bs : List SummaryEntry)
      → contains id (ids_of (insert_newest a bs)) ≡ (str_eq a.id id || contains id (ids_of bs))
  unfolding insert_newest contains
  contains-insert_newest a [] = refl
  contains-insert_newest a (b ∷ bs) =
      both_branches
        (λ zs.
          contains id (ids_of zs) ≡ (str_eq a.id id || (str_eq b.id id || contains id (ids_of bs))))
        (newer a b) refl (rw (contains-insert_newest a bs) (ground arith))

  pub contains-sort_newest :
      (xs : List SummaryEntry) → contains id (ids_of (sort_newest xs)) ≡ contains id (ids_of xs)
  unfolding sort_newest contains
  contains-sort_newest [] = refl
  contains-sort_newest (a ∷ rest) =
      contains-insert_newest a (sort_newest rest)
      ∙ ap (λ b. str_eq a.id id || b) (contains-sort_newest rest)

  pub contains-take :
      (n : ℕ) (xs : List SummaryEntry)
      → contains id (ids_of (take n xs)) ≡ true
      → contains id (ids_of xs) ≡ true
  unfolding contains
  contains-take zero xs h = absurd (cc)
  contains-take (suc n) [] h = h
  contains-take (suc n) (x ∷ xs) h = ground (arith, contains-take n xs)

  module _ {J : Type 0} where
    pub contains-summaries :
        (m : List (Str × Entry J))
        → All IsKeyed m
        → contains id (ids_of (map (λ (p : Str × Entry J). summary_from_entry p.1) m))
          ≡ has_key id m
    unfolding contains lookup summary_from_entry
    contains-summaries [] h = refl
    contains-summaries ((k, e) ∷ m) h = rw (h.0.1, contains-summaries m h.1) (ground arith)

    delete_detail-details :
        (s : Store J) (k : Str) → (delete_detail s k).details ≡ erase k s.details
    unfolding delete_detail mark_detail_deleted
    delete_detail-details s k = ap (λ m. erase k m) (go (trim_space k))
      where
        go : (i : Str) → (set_deleted s i).details ≡ s.details
        go [] = refl
        go (c ∷ i) = refl

    pub prune-kept :
        (keep : List Str) (es : List (Str × Entry J)) (s : Store J)
        → contains id keep ≡ true
        → lookup id (prune keep es s).details ≡ lookup id s.details
    unfolding prune
    prune-kept keep [] s h = refl
    prune-kept keep ((k, e) ∷ es) s h =
        prune-kept keep es _ h ∙ (elim (Bool-cases (contains k keep)) [
          | inl kept ↦
              ap (λ (b : Bool). lookup id (if b then s else delete_detail s k).details) kept
          | inr cut ↦
              ap (λ (b : Bool). lookup id (if b then s else delete_detail s k).details) cut
              ∙ ap (lookup id) (delete_detail-details s k)
              ∙ lookup-erase k id s.details
              ∙ rw (other cut) refl
        ])
      where
        other : contains k keep ≡ false → str_eq k id ≡ false
        other cut = elim (Bool-cases (str_eq k id)) [
          | inl same ↦ absurd (clash (ap (λ i. contains i keep) ((str_eq_iff k id).0 same) ∙ h) cut)
          | inr differs ↦ differs
        ]
          where
            clash : contains k keep ≡ true → contains k keep ≡ false → ⊥
            clash p q = cc

    pub prune-none :
        (keep : List Str) (es : List (Str × Entry J)) (s : Store J)
        → lookup id s.details ≡ none
        → lookup id (prune keep es s).details ≡ none
    unfolding prune
    prune-none keep [] s h = h
    prune-none keep ((k, e) ∷ es) s h = prune-none keep es _ (
        both_branches (λ (t : Store J). lookup id t.details ≡ none) (contains k keep) h
          (ap (lookup id) (delete_detail-details s k)
            ∙ lookup-erase k id s.details
            ∙ rw h (ground arith)))

    pub prune-gone :
        (keep : List Str) (es : List (Str × Entry J)) (s : Store J)
        → contains id keep ≡ false
        → lookup id es ≢ none
        → lookup id (prune keep es s).details ≡ none
    unfolding prune lookup
    prune-gone keep [] s h k = absurd (k refl)
    prune-gone keep ((j, e) ∷ es) s h k = elim (Bool-cases (str_eq j id)) [
      | inl same ↦ prune-none keep es _ (gone same)
      | inr other ↦ prune-gone keep es _ h (rw other at k)
    ]
      where
        same_cut : str_eq j id ≡ true → contains j keep ≡ false
        same_cut same = ap (λ i. contains i keep) ((str_eq_iff j id).0 same) ∙ h

        gone :
            str_eq j id ≡ true
            → lookup id (if contains j keep then s else delete_detail s j).details ≡ none
        gone same =
            ap (λ (b : Bool). lookup id (if b then s else delete_detail s j).details)
              (same_cut same)
            ∙ ap (lookup id) (delete_detail-details s j)
            ∙ lookup-erase j id s.details
            ∙ rw same refl
