-- ===== src/ChatHistory/Mirror.antt =====
-- The files against the details in memory, over all the calls of a store.
use generalcompute2api.Prelude.{ℕ, zero, suc, ◌≡◌, refl, ◌∙◌, Bool, true, List, Option, none, some}
use generalcompute2api.Prelude.Maps.{lookup}
use generalcompute2api.Prelude.Text.{Str}
use generalcompute2api.ChatHistory.{Entry, File, Store}
use generalcompute2api.ChatHistory.Index.{rebuild_index}
use generalcompute2api.ChatHistory.Disk.{Disk, save, save_details, save_index}
use generalcompute2api.ChatHistory.Pending.{IsPending}
use generalcompute2api.ChatHistory.Files.{
  rebuild_index-Pending, save_details-all, save_details-others,
}

module _ {J : Type 0} where
  -- The files are those of the details, one for each, and the index is the one in memory.
  pub record Mirrors (s : Store J) (disk : Disk J) : Type 0 where
    pub files : (id : Str) → lookup id disk.files ≡ lookup id s.details
    pub index : disk.index ≡ some s.state

  -- A save leaves what is pending covered, and mirrors the store if it reports no error.
  pub record Saves (r : Store J × Disk J × Bool) : Type 0 where
    pub pending : IsPending r.0 r.1.files
    pub mirrors : r.2 ≡ true → Mirrors r.0 r.1

  save_index-Saves :
      (s : Store J) (old : Option File) (files : List (Str × Entry J))
      (r : List (Str × Entry J) × Option ℕ)
      → IsPending s files
      → ((id : Str)
          → lookup id s.dirty ≡ none
          → lookup id s.deleted ≡ none
          → lookup id r.0 ≡ lookup id files)
      → ((id : Str) (left : ℕ) → r.1 ≡ some left → lookup id r.0 ≡ lookup id s.details)
      → Saves (save_index s old r)
  unfolding lookup
  save_index-Saves s old files (fs, none) h others all = record {
    pending = record {
      keyed = h.keyed;
      settled = λ id d k. others id d k ∙ h.settled id d k;
      dirty_kept = h.dirty_kept;
      deleted_gone = h.deleted_gone;
    };
    mirrors = λ e. cc;
  }
  save_index-Saves s old files (fs, some zero) h others all = record {
    pending = record {
      keyed = h.keyed;
      settled = λ id d k. others id d k ∙ h.settled id d k;
      dirty_kept = h.dirty_kept;
      deleted_gone = h.deleted_gone;
    };
    mirrors = λ e. cc;
  }
  save_index-Saves s old files (fs, some (suc left)) h others all = record {
    pending = record {
      keyed = h.keyed;
      settled = λ id d k. all id (suc left) refl;
      dirty_kept = λ id k. refl;
      deleted_gone = λ id k. refl;
    };
    mirrors = λ e. record { files = λ id. all id (suc left) refl; index = refl };
  }

  pub save-Saves :
      (s : Store J) (disk : Disk J) (works : ℕ) → IsPending s disk.files → Saves (save s disk works)
  unfolding save
  save-Saves s disk works h =
      save_index-Saves (rebuild_index s) disk.index disk.files
        (save_details (rebuild_index s) works disk.files) rebuilt
        (λ id d k. save_details-others (rebuild_index s) works disk.files id d k)
        (λ id left e. save_details-all (rebuild_index s) works left disk.files id rebuilt e)
    where
      rebuilt : IsPending (rebuild_index s) disk.files
      rebuilt = rebuild_index-Pending s disk.files h
