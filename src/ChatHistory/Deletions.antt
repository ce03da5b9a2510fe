-- ===== src/ChatHistory/Deletions.antt =====
-- `Delete`, `Clear` and `SetLimit`.
use generalcompute2api.Prelude.{
  Option-cases, Bool-cases, inl, inr, arith, ◌≢◌, if◌then◌else◌, ℕ, ◌≡◌, refl, ◌∙◌, Bool, true,
  false, List, [], ◌∷◌, Option, none, some, arith, if◌then◌else◌, Bool-cases, inl, inr,
  Option-cases, All,
}
use generalcompute2api.Prelude.Int.{ℤ, pos, negsuc}
use generalcompute2api.Prelude.Maps.{lookup-erase, erase, lookup}
use generalcompute2api.Prelude.Text.{str_eq, Str}
use generalcompute2api.ChatHistory.{
  Entry, File, Names, Store, mark_detail_deleted, next_revision, is_allowed_limit,
}
use generalcompute2api.ChatHistory.Index.{with_limit}
use generalcompute2api.ChatHistory.Disk.{Disk}
use generalcompute2api.ChatHistory.Calls.{
  Now, answered, clear, commit, delete, delete_entry, limit_to, load_failed, unsupported_limit,
  mark_all_deleted, refused, set_limit,
}
use generalcompute2api.ChatHistory.Keys.{IsId, IsKeyed, lookup-IsKeyed, mark_detail_deleted_lem}
use generalcompute2api.ChatHistory.Pending.{IsPending, Pending, delete-Pending}
use generalcompute2api.ChatHistory.Methods.{
  Leaves, answered-Leaves, commit-Saves, named-Leaves, next_revision-Pending, refused-Leaves,
}

module _ {J : Type 0} where
  delete_entry-Pending :
      (s : Store J) (id : Str) (files : List (Str × Entry J))
      → IsId id
      → IsPending s files
      → IsPending (delete_entry s id) files
  unfolding delete_entry
  delete_entry-Pending s id files k h = rw (mark_detail_deleted_lem s id k) (delete-Pending id h)

  pub delete-Leaves :
      (s : Store J) (disk : Disk J) (works : ℕ) (id : Str) (now : Now)
      → IsPending s disk.files
      → Leaves (delete s disk works id now)
  unfolding delete
  delete-Leaves s disk works id now h = named-Leaves s disk id _ h (λ target item e.
      answered-Leaves (some tt) none _ (
        commit-Saves (next_revision (delete_entry s target) now.unix_nano).0 disk works (
          next_revision-Pending (delete_entry s target) now.unix_nano disk.files (
            delete_entry-Pending s target disk.files
              (lookup-IsKeyed target item s.details h.keyed e).0 h))))

  pub set_limit-Leaves :
      (s : Store J) (disk : Disk J) (works : ℕ) (limit : ℤ) (now : Now)
      → IsPending s disk.files
      → Leaves (set_limit s disk works limit now)
  unfolding set_limit
  set_limit-Leaves s disk works limit now h = go s.err limit
    where
      allowed :
          (n : ℕ) (b : Bool)
          → Leaves {A = File} (
              if b
              then (let (t, d, saved) =
                    commit (next_revision (with_limit s n) now.unix_nano).0 disk works in
                  answered (some t.state) none (t, d, saved))
              else refused s disk unsupported_limit)
      allowed n true = answered-Leaves _ none _ (
          commit-Saves (next_revision (with_limit s n) now.unix_nano).0 disk works (
            next_revision-Pending (with_limit s n) now.unix_nano disk.files (record {
              keyed = h.keyed;
              settled = h.settled;
              dirty_kept = h.dirty_kept;
              deleted_gone = h.deleted_gone;
            })))
      allowed n false = refused-Leaves s disk unsupported_limit h

      go :
          (err : Option Str) (limit : ℤ)
          → Leaves {A = File} (elim err [
            | some e ↦ refused s disk (load_failed e)
            | none ↦ limit_to s disk works limit now.unix_nano
          ])
      go (some e) limit = refused-Leaves s disk (load_failed e) h
      go none (negsuc n) = refused-Leaves s disk unsupported_limit h
      go none (pos n) = allowed n (is_allowed_limit (pos n))

  -- Deleting every entry of a map.
  abbrev erase_all : List (Str × Entry J) → List (Str × Entry J) → List (Str × Entry J)
  erase_all [] m = m
  erase_all ((id, e) ∷ es) m = erase_all es (erase id m)

  erase_all-none :
      (id : Str) (es m : List (Str × Entry J))
      → lookup id m ≡ none
      → lookup id (erase_all es m) ≡ none
  erase_all-none id [] m h = h
  erase_all-none id ((j, e) ∷ es) m h =
      erase_all-none id es (erase j m) (ground (arith, lookup-erase j id m))

  erase_all-gone :
      (id : Str) (es m : List (Str × Entry J))
      → lookup id es ≢ none
      → lookup id (erase_all es m) ≡ none
  unfolding lookup
  erase_all-gone id [] m h = absurd (h refl)
  erase_all-gone id ((j, e) ∷ es) m h = elim (Bool-cases (str_eq j id)) [
    | inl same ↦ erase_all-none id es (erase j m) (ground (arith, lookup-erase j id m))
    | inr other ↦ erase_all-gone id es (erase j m) (rw other at h)
  ]

  erase_all_self : (id : Str) (m : List (Str × Entry J)) → lookup id (erase_all m m) ≡ none
  erase_all_self id m = elim (Option-cases (lookup id m)) [
    | inl absent ↦ erase_all-none id m m absent
    | inr (e, there) ↦ erase_all-gone id m m (λ k. cc)
  ]

  -- Marking every entry is like deleting every entry, as far as what is pending goes.
  mark_all_deleted-Pending :
      (es m files : List (Str × Entry J)) (s : Store J)
      → All IsKeyed es
      → Pending m s.dirty s.deleted files
      → Pending (erase_all es m) (mark_all_deleted es s).dirty (mark_all_deleted es s).deleted files
  unfolding mark_all_deleted
  mark_all_deleted-Pending [] m files s k h = h
  mark_all_deleted-Pending ((id, e) ∷ es) m files s k h =
      mark_all_deleted-Pending es (erase id m) files (mark_detail_deleted s id) k.1
        (rw (mark_detail_deleted_lem s id k.0.0) (delete-Pending id h))

  emptied-Pending :
      {m files : List (Str × Entry J)} {dirty deleted : Names}
      → ((id : Str) → lookup id m ≡ none)
      → Pending m dirty deleted files
      → Pending [] dirty deleted files
  unfolding lookup
  emptied-Pending k h = record {
    keyed = tt;
    settled = λ id d e. h.settled id d e ∙ k id;
    dirty_kept = λ id _. h.dirty_kept id (k id);
    deleted_gone = λ id x. absurd (x refl);
  }

  clear_at-Pending :
      (s : Store J) (files : List (Str × Entry J))
      → IsPending s files
      → IsPending (record (mark_all_deleted s.details s) { details = [] }) files
  clear_at-Pending s files h =
      emptied-Pending (λ id. erase_all_self id s.details)
        (mark_all_deleted-Pending s.details s.details files s h.keyed h)

  pub clear-Leaves :
      (s : Store J) (disk : Disk J) (works : ℕ) (now : Now)
      → IsPending s disk.files
      → Leaves (clear s disk works now)
  unfolding clear
  clear-Leaves s disk works now h = go s.err
    where
      go :
          (err : Option Str)
          → Leaves {A = Unit {0}} (elim err [
            | some e ↦ refused s disk (load_failed e)
            | none ↦ answered (some tt) none (
                commit
                  (next_revision
                    (record (mark_all_deleted s.details s) { details = [] })
                    now.unix_nano).0
                  disk
                  works)
          ])
      go (some e) = refused-Leaves s disk (load_failed e) h
      go none = answered-Leaves (some tt) none _ (
          commit-Saves _ disk works (
            next_revision-Pending (record (mark_all_deleted s.details s) { details = [] })
              now.unix_nano disk.files (clear_at-Pending s disk.files h)))
