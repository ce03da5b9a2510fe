-- ===== src/ChatHistory/Disk.antt =====
-- `saveLocked`: the pending changes brought to the files. The first operation on the file system that fails
-- ends it, so the number of operations that succeed is the argument that stands for the file system. A
-- file is replaced at once or not at all, as `writeFileAtomic` renames it into place.
use generalcompute2api.Prelude.{
  ℕ, zero, suc, Bool, true, false, List, [], ◌∷◌, Option, none, some, if◌then◌else◌, ltb,
}
use generalcompute2api.Prelude.Maps.{erase, insert, lookup}
use generalcompute2api.Prelude.Text.{Str}
use generalcompute2api.ChatHistory.{Entry, File, Names, Store}
use generalcompute2api.ChatHistory.Index.{rebuild_index}

-- The files: one for each conversation, by its identifier, and the index.
pub record Disk (J : Type 0) : Type 0 where
  pub files : List (Str × Entry J)
  pub index : Option File

-- The order of Go strings.
unfoldable pub str_ltb : Str → Str → Bool
str_ltb s [] = false
str_ltb [] (y ∷ t) = true
str_ltb (x ∷ s) (y ∷ t) = if ltb x y then true else if ltb y x then false else str_ltb s t

unfoldable pub insert_sorted : Str → List Str → List Str
unfolding str_ltb
insert_sorted x [] = x ∷ []
insert_sorted x (y ∷ ys) =
    let rest = insert_sorted x ys in if str_ltb x y then x ∷ y ∷ ys else y ∷ rest

unfoldable pub sorted_detail_ids : Names → List Str
unfolding insert_sorted
sorted_detail_ids [] = []
sorted_detail_ids ((id, u) ∷ ids) = insert_sorted id (sorted_detail_ids ids)

-- The operations that are still to succeed, or `none` after one that failed.
module _ {J : Type 0} where
  unfoldable pub remove_files :
      List Str → ℕ → List (Str × Entry J) → List (Str × Entry J) × Option ℕ
  unfolding erase
  remove_files [] left files = (files, some left)
  remove_files (id ∷ ids) zero files = (files, none)
  remove_files (id ∷ ids) (suc left) files = remove_files ids left (erase id files)

  -- Writes the entry that there may be.
  abbrev pub write_file :
      Str → Option (Entry J) → ℕ → List (Str × Entry J) → List (Str × Entry J) × Option ℕ
  write_file id none left files = (files, some left)
  write_file id (some e) zero files = (files, none)
  write_file id (some e) (suc left) files = (insert id e files, some left)

  abbrev pub and_then :
      List (Str × Entry J) × Option ℕ
      → (ℕ → List (Str × Entry J) → List (Str × Entry J) × Option ℕ)
      → List (Str × Entry J) × Option ℕ
  and_then (files, none) next = (files, none)
  and_then (files, some left) next = next left files

  unfoldable pub write_files :
      List (Str × Entry J) → List Str → ℕ → List (Str × Entry J) → List (Str × Entry J) × Option ℕ
  unfolding lookup insert
  write_files details [] left files = (files, some left)
  write_files details (id ∷ ids) left files =
      and_then (write_file id (lookup id details) left files) (λ l fs. write_files details ids l fs)

  -- The files after the directory is made, or not.
  unfoldable pub save_details : Store J → ℕ → List (Str × Entry J) → List (Str × Entry J) × Option ℕ
  unfolding remove_files write_files sorted_detail_ids
  save_details s zero files = (files, none)
  save_details s (suc left) files =
      and_then (remove_files (sorted_detail_ids s.deleted) left files)
        (λ l fs. write_files s.details (sorted_detail_ids s.dirty) l fs)

  -- The index is written last, and then nothing is pending.
  abbrev pub save_index :
      Store J → Option File → List (Str × Entry J) × Option ℕ → Store J × Disk J × Bool
  save_index s old (files, none) = (s, record { files = files; index = old }, false)
  save_index s old (files, some zero) = (s, record { files = files; index = old }, false)
  save_index s old (files, some (suc left)) =
      (record s { dirty = []; deleted = [] }, record { files = files; index = some s.state }, true)

  -- Whether all went well comes last.
  unfoldable pub save : Store J → Disk J → ℕ → Store J × Disk J × Bool
  unfolding rebuild_index save_details
  save s disk works =
      let t = rebuild_index s in save_index t disk.index (save_details t works disk.files)
