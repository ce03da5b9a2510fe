-- ===== src/ChatHistory/Pending.antt =====
-- What is pending covers every difference between the files and the details.
use generalcompute2api.Prelude.{both_branches, ◌≡◌, ◌≢◌, List, [], ◌∷◌, none, arith, All}
use generalcompute2api.Prelude.Maps.{erase, insert, lookup, lookup-erase, lookup-insert}
use generalcompute2api.Prelude.Text.{Str}
use generalcompute2api.ChatHistory.{Entry, Names, Store}
use generalcompute2api.ChatHistory.Index.{contains, delete_detail, prune}
use generalcompute2api.ChatHistory.Keys.{
  IsId, IsKeyed, erase-IsKeyed, insert-IsKeyed, mark_detail_deleted_lem,
}

module _ {J : Type 0} where
  pub record Pending (details : List (Str × Entry J)) (dirty deleted : Names)
      (files : List (Str × Entry J)) : Type 0 where
    pub keyed : All IsKeyed details
    pub settled :
        (id : Str)
        → lookup id dirty ≡ none
        → lookup id deleted ≡ none
        → lookup id files ≡ lookup id details
    pub dirty_kept : (id : Str) → lookup id details ≡ none → lookup id dirty ≡ none
    pub deleted_gone : (id : Str) → lookup id details ≢ none → lookup id deleted ≡ none

  abbrev pub IsPending : Store J → List (Str × Entry J) → Type 0
  IsPending s files = Pending s.details s.dirty s.deleted files

  pub dirty-Pending :
      {m files : List (Str × Entry J)} {dirty deleted : Names} (id : Str) (e : Entry J)
      → IsKeyed (id, e)
      → Pending m dirty deleted files
      → Pending (insert id e m) (insert id tt dirty) (erase id deleted) files
  dirty-Pending {m} {files} {dirty} {deleted} id e k h = record {
    keyed = insert-IsKeyed id e m k h.keyed;
    settled = λ j. ground (
      arith,
      lookup-insert id j e m,
      lookup-insert id j tt dirty,
      lookup-erase id j deleted,
      h.settled j,
    );
    dirty_kept =
        λ j. ground (arith, lookup-insert id j e m, lookup-insert id j tt dirty, h.dirty_kept j);
    deleted_gone =
        λ j. ground (arith, lookup-insert id j e m, lookup-erase id j deleted, h.deleted_gone j);
  }

  pub delete-Pending :
      {m files : List (Str × Entry J)} {dirty deleted : Names} (id : Str)
      → Pending m dirty deleted files
      → Pending (erase id m) (erase id dirty) (insert id tt deleted) files
  delete-Pending {m} {files} {dirty} {deleted} id h = record {
    keyed = erase-IsKeyed id m h.keyed;
    settled = λ j. ground (
      arith,
      lookup-erase id j m,
      lookup-insert id j tt deleted,
      lookup-erase id j dirty,
      h.settled j,
    );
    dirty_kept = λ j. ground (arith, lookup-erase id j m, lookup-erase id j dirty, h.dirty_kept j);
    deleted_gone =
        λ j. ground (arith, lookup-erase id j m, lookup-insert id j tt deleted, h.deleted_gone j);
  }

  pub delete_detail-Pending :
      (s : Store J) (id : Str) (files : List (Str × Entry J))
      → IsId id
      → IsPending s files
      → IsPending (delete_detail s id) files
  unfolding delete_detail
  delete_detail-Pending s id files k h = rw (mark_detail_deleted_lem s id k) (delete-Pending id h)

  pub prune-Pending :
      (keep : List Str) (es : List (Str × Entry J)) (s : Store J) (files : List (Str × Entry J))
      → All IsKeyed es
      → IsPending s files
      → IsPending (prune keep es s) files
  unfolding prune
  prune-Pending keep [] s files k h = h
  prune-Pending keep ((id, e) ∷ es) s files k h = prune-Pending keep es _ files k.1 (
      both_branches (λ t. IsPending t files) (contains id keep) h
        (delete_detail-Pending s id files k.0.0 h))
