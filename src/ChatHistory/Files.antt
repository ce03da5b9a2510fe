-- ===== src/ChatHistory/Files.antt =====
-- `saveLocked`: the files after its loops, and the index rebuilt before them.
use generalcompute2api.Prelude.{
  ℕ, zero, suc, ◌≡◌, refl, ap, sym, ◌∙◌, List, Option, none, some, inl, inr, both_branches,
  Option-cases, ltb, length, take,
}
use generalcompute2api.Prelude.Maps.{lookup}
use generalcompute2api.Prelude.Text.{Str}
use generalcompute2api.ChatHistory.{Entry, Store}
use generalcompute2api.ChatHistory.Index.{
  allowed_or_default, ids_of, index_within, rebuild_index, summaries_of, with_limit,
}
use generalcompute2api.ChatHistory.Disk.{
  and_then, remove_files, save_details, sorted_detail_ids, write_files,
}
use generalcompute2api.ChatHistory.Pending.{IsPending, prune-Pending}
use generalcompute2api.ChatHistory.Saved.{
  sorted_detail_ids-unlisted, sorted_detail_ids-listed, remove_files-gone, remove_files-others,
  write_files-agrees, write_files-others, write_files-written,
}

module _ {J : Type 0} where
  pub rebuild_index-Pending :
      (s : Store J) (files : List (Str × Entry J))
      → IsPending s files
      → IsPending (rebuild_index s) files
  unfolding rebuild_index
  rebuild_index-Pending s files h = go (allowed_or_default s.state.limit)
    where
      go : (n : ℕ) → IsPending (index_within n (with_limit s n) (summaries_of s.details)) files
      go zero = h
      go (suc n) =
          both_branches (λ t. IsPending t files) (ltb (suc n) (length (summaries_of s.details)))
            (prune-Pending (ids_of (take (suc n) (summaries_of s.details))) s.details
              (with_limit s (suc n)) files h.keyed h)
            h

  -- The loops over the files, with how they ended.
  pub save_details-others :
      (s : Store J) (works : ℕ) (files : List (Str × Entry J)) (id : Str)
      → lookup id s.dirty ≡ none
      → lookup id s.deleted ≡ none
      → lookup id (save_details s works files).0 ≡ lookup id files
  unfolding save_details
  save_details-others s zero files id h k = refl
  save_details-others s (suc n) files id h k =
      go (remove_files (sorted_detail_ids s.deleted) n files) (
        remove_files-others id (sorted_detail_ids s.deleted) n files
          (sorted_detail_ids-unlisted id s.deleted k))
    where
      go :
          (r : List (Str × Entry J) × Option ℕ)
          → lookup id r.0 ≡ lookup id files
          → lookup id
              (and_then r (λ l fs. write_files s.details (sorted_detail_ids s.dirty) l fs)).0
            ≡ lookup id files
      go (fs, none) e = e
      go (fs, some l) e =
          write_files-others id s.details (sorted_detail_ids s.dirty) l fs
            (sorted_detail_ids-unlisted id s.dirty h)
          ∙ e

  -- The file of an entry agrees with it before the entries are written, or the entry is yet to be.
  ready :
      (s : Store J) (files fs : List (Str × Entry J)) (id : Str)
      → IsPending s files
      → (lookup id s.deleted ≡ none → lookup id fs ≡ lookup id files)
      → ((u : Unit {0}) → lookup id s.deleted ≡ some u → lookup id fs ≡ none)
      → lookup id s.dirty ≡ none
      → lookup id fs ≡ lookup id s.details
  ready s files fs id h keeps drops clean = elim (Option-cases (lookup id s.deleted)) [
    | inl kept ↦ keeps kept ∙ h.settled id clean kept
    | inr (u, dropped) ↦ elim (Option-cases (lookup id s.details)) [
      | inl absent ↦ drops u dropped ∙ sym absent
      | inr (d, there) ↦ absurd (clash dropped (h.deleted_gone id (λ x. cc)))
    ]
  ]
    where
      clash : {u : Unit {0}} → lookup id s.deleted ≡ some u → lookup id s.deleted ≡ none → ⊥
      clash p q = cc

  written :
      (s : Store J) (l left : ℕ) (files fs : List (Str × Entry J)) (id : Str)
      → IsPending s files
      → (lookup id s.deleted ≡ none → lookup id fs ≡ lookup id files)
      → ((u : Unit {0}) → lookup id s.deleted ≡ some u → lookup id fs ≡ none)
      → (write_files s.details (sorted_detail_ids s.dirty) l fs).1 ≡ some left
      → lookup id (write_files s.details (sorted_detail_ids s.dirty) l fs).0 ≡ lookup id s.details
  written s l left files fs id h keeps drops e = elim (Option-cases (lookup id s.dirty)) [
    | inl clean ↦
        write_files-agrees id s.details (sorted_detail_ids s.dirty) l fs
          (ready s files fs id h keeps drops clean)
    | inr (u, unsaved) ↦
        write_files-written id s.details (sorted_detail_ids s.dirty) l left fs e
          (sorted_detail_ids-listed id s.dirty u unsaved)
          (λ absent. absurd (clash unsaved (h.dirty_kept id absent)))
  ]
    where
      clash : {u : Unit {0}} → lookup id s.dirty ≡ some u → lookup id s.dirty ≡ none → ⊥
      clash p q = cc

  pub save_details-all :
      (s : Store J) (works left : ℕ) (files : List (Str × Entry J)) (id : Str)
      → IsPending s files
      → (save_details s works files).1 ≡ some left
      → lookup id (save_details s works files).0 ≡ lookup id s.details
  unfolding save_details
  save_details-all s zero left files id h e = absurd (cc)
  save_details-all s (suc n) left files id h e =
      go (remove_files (sorted_detail_ids s.deleted) n files) refl e
    where
      go :
          (r : List (Str × Entry J) × Option ℕ)
          → r ≡ remove_files (sorted_detail_ids s.deleted) n files
          → (and_then r (λ l fs. write_files s.details (sorted_detail_ids s.dirty) l fs)).1
            ≡ some left
          → lookup id
              (and_then r (λ l fs. write_files s.details (sorted_detail_ids s.dirty) l fs)).0
            ≡ lookup id s.details
      go (fs, none) q e = absurd (cc)
      go (fs, some l) q e =
          written s l left files fs id h
            (λ k.
              ap (λ r. lookup id r.0) q
              ∙ remove_files-others id (sorted_detail_ids s.deleted) n files
                  (sorted_detail_ids-unlisted id s.deleted k))
            (λ u k.
              ap (λ r. lookup id r.0) q
              ∙ remove_files-gone id (sorted_detail_ids s.deleted) n l files (sym (ap (λ r. r.1) q))
                  (sorted_detail_ids-listed id s.deleted u k))
            e
