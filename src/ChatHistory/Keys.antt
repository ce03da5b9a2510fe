-- ===== src/ChatHistory/Keys.antt =====
-- The keys of the details: trimmed, not empty, and the identifiers of their entries.
use generalcompute2api.Prelude.{
  both_branches, ◌≡◌, ◌≢◌, refl, ap, ◌∙◌, List, [], ◌∷◌, some, arith, All,
}
use generalcompute2api.Prelude.Maps.{erase, insert, lookup}
use generalcompute2api.Prelude.Text.{Str, str_eq, str_eq_iff, trim_space}
use generalcompute2api.ChatHistory.{
  Entry, Store, mark_detail_deleted, mark_detail_dirty, set_deleted, set_dirty,
}

abbrev pub IsId : Str → Type 0
IsId id = (trim_space id ≡ id) × (id ≢ [])

module _ {J : Type 0} where
  abbrev pub IsKeyed : Str × Entry J → Type 0
  IsKeyed (id, e) = IsId id × (e.id ≡ id)

  pub insert-IsKeyed :
      (id : Str) (e : Entry J) (m : List (Str × Entry J))
      → IsKeyed (id, e)
      → All IsKeyed m
      → All IsKeyed (insert id e m)
  unfolding insert
  insert-IsKeyed id e [] k h = (k, tt)
  insert-IsKeyed id e ((j, d) ∷ m) k h =
      both_branches (All IsKeyed) (str_eq j id) (k, h.1) (h.0, insert-IsKeyed id e m k h.1)

  pub erase-IsKeyed :
      (id : Str) (m : List (Str × Entry J)) → All IsKeyed m → All IsKeyed (erase id m)
  unfolding erase
  erase-IsKeyed id [] h = tt
  erase-IsKeyed id ((j, d) ∷ m) h =
      both_branches (All IsKeyed) (str_eq j id) (erase-IsKeyed id m h.1)
        (h.0, erase-IsKeyed id m h.1)

  pub lookup-IsKeyed :
      (id : Str) (e : Entry J) (m : List (Str × Entry J))
      → All IsKeyed m
      → lookup id m ≡ some e
      → IsKeyed (id, e)
  unfolding lookup
  lookup-IsKeyed id e [] h k = absurd (cc)
  lookup-IsKeyed id e ((j, d) ∷ m) h k = ground (arith, str_eq_iff j id, lookup-IsKeyed id e m h.1)

  -- What the marks do to an identifier as the store makes them.
  pub mark_detail_dirty_lem :
      (s : Store J) (id : Str)
      → IsId id
      → mark_detail_dirty s id
        ≡ record s { dirty = insert id tt s.dirty; deleted = erase id s.deleted }
  unfolding mark_detail_dirty
  mark_detail_dirty_lem s id h = ap (λ i. set_dirty s i) h.0 ∙ go id h.1
    where
      go :
          (i : Str)
          → i ≢ []
          → set_dirty s i ≡ record s { dirty = insert i tt s.dirty; deleted = erase i s.deleted }
      go [] k = absurd (k refl)
      go (c ∷ i) k = refl

  pub mark_detail_deleted_lem :
      (s : Store J) (id : Str)
      → IsId id
      → mark_detail_deleted s id
        ≡ record s { deleted = insert id tt s.deleted; dirty = erase id s.dirty }
  unfolding mark_detail_deleted
  mark_detail_deleted_lem s id h = ap (λ i. set_deleted s i) h.0 ∙ go id h.1
    where
      go :
          (i : Str)
          → i ≢ []
          → set_deleted s i ≡ record s { deleted = insert i tt s.deleted; dirty = erase i s.dirty }
      go [] k = absurd (k refl)
      go (c ∷ i) k = refl
