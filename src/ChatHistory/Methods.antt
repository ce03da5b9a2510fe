-- ===== src/ChatHistory/Methods.antt =====
-- `Start` and `Update`, and what every method leaves.
use generalcompute2api.Prelude.{
  subst, ℕ, zero, suc, ◌≡◌, refl, sym, ◌∙◌, Bool, true, false, List, [], ◌∷◌, ◌++◌, Option, none,
  some,
}
use generalcompute2api.Prelude.Maps.{insert, lookup}
use generalcompute2api.Prelude.Text.{Str, codes, trim_space}
use generalcompute2api.ChatHistory.{Entry, Store, next_revision}
use generalcompute2api.ChatHistory.Index.{rebuild_index}
use generalcompute2api.ChatHistory.Disk.{Disk}
use generalcompute2api.ChatHistory.Calls.{
  Answer, HistoryError, Now, StartParams, UpdateParams, answered, commit, disabled, load_failed,
  not_found, id_required, named, refused, start, start_at, started, store_detail, update, update_at,
  updated,
}
use generalcompute2api.ChatHistory.Keys.{IsId, IsKeyed, lookup-IsKeyed, mark_detail_dirty_lem}
use generalcompute2api.ChatHistory.Pending.{IsPending, dirty-Pending}
use generalcompute2api.ChatHistory.Files.{rebuild_index-Pending}
use generalcompute2api.ChatHistory.Mirror.{Mirrors, Saves, save-Saves}

started-id :
    (J : Type 0) (p : StartParams) (uuid : Str) (now revision : ℕ)
    → (started {J = J} p uuid now revision).id ≡ codes "chat_" ++ uuid
unfolding started
started-id J p uuid now revision = refl

module _ {J : Type 0} where
  -- What a call leaves: what is pending is covered, and a call without an error mirrors the store.
  pub record Leaves {A : Type 0} (a : Answer J A) : Type 0 where
    pub pending : IsPending a.store a.disk.files
    pub mirrors : a.error ≡ none → Mirrors a.store a.disk

  pub refused-Leaves :
      {A : Type 0} (s : Store J) (disk : Disk J) (e : HistoryError)
      → IsPending s disk.files
      → Leaves (refused {A = A} s disk e)
  refused-Leaves s disk e h = record { pending = h; mirrors = λ x. cc }

  pub answered-Leaves :
      {A : Type 0} (v w : Option A) (r : Store J × Disk J × Bool)
      → Saves r
      → Leaves (answered v w r)
  answered-Leaves v w (s, disk, true) h = record {
    pending = h.pending;
    mirrors = λ x. h.mirrors refl;
  }
  answered-Leaves v w (s, disk, false) h = record { pending = h.pending; mirrors = λ x. cc }

  pub commit-Saves :
      (s : Store J) (disk : Disk J) (works : ℕ)
      → IsPending s disk.files
      → Saves (commit s disk works)
  commit-Saves s disk works h =
      save-Saves (rebuild_index s) disk works (rebuild_index-Pending s disk.files h)

  store_detail-Pending :
      (s : Store J) (id : Str) (e : Entry J) (files : List (Str × Entry J))
      → IsKeyed (id, e)
      → IsPending s files
      → IsPending (store_detail s id e) files
  unfolding store_detail
  store_detail-Pending s id e files k h =
      rw (mark_detail_dirty_lem (record s { details = insert id e s.details }) id k.0)
        (dirty-Pending id e k h)

  pub next_revision-Pending :
      (s : Store J) (now : ℕ) (files : List (Str × Entry J))
      → IsPending s files
      → IsPending (next_revision s now).0 files
  unfolding next_revision
  next_revision-Pending s now files h = h

  start_at-Leaves :
      (t : Store J) (disk : Disk J) (works : ℕ) (p : StartParams) (uuid : Str) (now revision : ℕ)
      → IsId (codes "chat_" ++ uuid)
      → IsPending t disk.files
      → Leaves (start_at t disk works p uuid now (t, revision))
  start_at-Leaves t disk works p uuid now revision k h =
      answered-Leaves (some e) (some e) (commit (store_detail t e.id e) disk works) (
        commit-Saves (store_detail t e.id e) disk works (
          store_detail-Pending t e.id e disk.files
            (subst IsId (sym (started-id J p uuid now revision)) k, refl) h))
    where
      e : Entry J
      e = started p uuid now revision

  pub start-Leaves :
      (s : Store J) (disk : Disk J) (works : ℕ) (p : StartParams) (uuid : Str) (now : Now)
      → IsId (codes "chat_" ++ uuid)
      → IsPending s disk.files
      → Leaves (start s disk works p uuid now)
  unfolding start
  start-Leaves s disk works p uuid now k h = go s.err s.state.limit
    where
      go :
          (err : Option Str) (limit : ℕ)
          → Leaves {A = Entry J} (elim err [
            | some e ↦ refused s disk (load_failed e)
            | none ↦ elim limit [
              | zero ↦ refused s disk disabled
              | suc n ↦ start_at s disk works p uuid now.unix_milli (next_revision s now.unix_nano)
            ]
          ])
      go (some e) n = refused-Leaves s disk (load_failed e) h
      go none zero = refused-Leaves s disk disabled h
      go none (suc n) =
          start_at-Leaves (next_revision s now.unix_nano).0 disk works p uuid now.unix_milli
            (next_revision s now.unix_nano).1 k (next_revision-Pending s now.unix_nano disk.files h)

  pub named-Leaves :
      {A : Type 0} (s : Store J) (disk : Disk J) (id : Str) (next : Str → Entry J → Answer J A)
      → IsPending s disk.files
      → ((target : Str) (item : Entry J)
          → lookup target s.details ≡ some item
          → Leaves (next target item))
      → Leaves (named s disk id next)
  named-Leaves {A} s disk id next h k = go s.err (trim_space id)
    where
      at_key :
          (target : Str) (o : Option (Entry J))
          → lookup target s.details ≡ o
          → Leaves {A = A}
              (elim o [ none ↦ refused s disk not_found | some item ↦ next target item ])
      at_key target none e = refused-Leaves s disk not_found h
      at_key target (some item) e = k target item e

      go :
          (err : Option Str) (target : Str)
          → Leaves {A = A} (elim err [
            | some e ↦ refused s disk (load_failed e)
            | none ↦ elim target [
              | [] ↦ refused s disk id_required
              | c ∷ i ↦ elim (lookup (c ∷ i) s.details) [
                | none ↦ refused s disk not_found
                | some item ↦ next (c ∷ i) item
              ]
            ]
          ])
      go (some e) target = refused-Leaves s disk (load_failed e) h
      go none [] = refused-Leaves s disk id_required h
      go none (c ∷ i) = at_key (c ∷ i) (lookup (c ∷ i) s.details) refl

  updated-id :
      (p : UpdateParams J) (item : Entry J) (now revision : ℕ)
      → (updated p item now revision).id ≡ item.id
  unfolding updated
  updated-id p item now revision = refl

  update_at-Leaves :
      (t : Store J) (disk : Disk J) (works : ℕ) (target : Str) (p : UpdateParams J) (item : Entry J)
      (now revision : ℕ)
      → IsKeyed (target, item)
      → IsPending t disk.files
      → Leaves (update_at target disk works p item now (t, revision))
  update_at-Leaves t disk works target p item now revision k h =
      answered-Leaves (some e) none (commit (store_detail t target e) disk works) (
        commit-Saves (store_detail t target e) disk works (
          store_detail-Pending t target e disk.files (k.0, updated-id p item now revision ∙ k.1) h))
    where
      e : Entry J
      e = updated p item now revision

  pub update-Leaves :
      (s : Store J) (disk : Disk J) (works : ℕ) (id : Str) (p : UpdateParams J) (now : Now)
      → IsPending s disk.files
      → Leaves (update s disk works id p now)
  unfolding update
  update-Leaves s disk works id p now h = named-Leaves s disk id _ h (λ target item e.
      update_at-Leaves (next_revision s now.unix_nano).0 disk works target p item now.unix_milli
        (next_revision s now.unix_nano).1 (lookup-IsKeyed target item s.details h.keyed e)
        (next_revision-Pending s now.unix_nano disk.files h))
