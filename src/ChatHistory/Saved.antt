-- ===== src/ChatHistory/Saved.antt =====
-- What the loops of `saveLocked` do to each file, whether they end early or not.
use generalcompute2api.Prelude.{
  ℕ, zero, suc, ◌≡◌, ◌≢◌, refl, ap, sym, ◌∙◌, true, false, ◌||◌, List, [], ◌∷◌, Option, none, some,
  arith, Bool-cases, inl, inr, both_branches, Option-cases,
}
use generalcompute2api.Prelude.Maps.{erase, has_key, lookup, lookup-erase, lookup-insert}
use generalcompute2api.Prelude.Text.{Str, str_eq, str_eq_iff}
use generalcompute2api.ChatHistory.{Entry, Names}
use generalcompute2api.ChatHistory.Index.{contains}
use generalcompute2api.ChatHistory.Disk.{
  and_then, insert_sorted, remove_files, sorted_detail_ids, str_ltb, write_file, write_files,
}

contains-insert_sorted :
    (id x : Str) (xs : List Str)
    → contains id (insert_sorted x xs) ≡ (str_eq x id || contains id xs)
unfolding contains insert_sorted
contains-insert_sorted id x [] = refl
contains-insert_sorted id x (y ∷ ys) =
    both_branches (λ zs. contains id zs ≡ (str_eq x id || (str_eq y id || contains id ys)))
      (str_ltb x y) refl (rw (contains-insert_sorted id x ys) (ground arith))

contains-sorted_detail_ids :
    (id : Str) (m : Names) → contains id (sorted_detail_ids m) ≡ has_key id m
unfolding sorted_detail_ids contains lookup
contains-sorted_detail_ids id [] = refl
contains-sorted_detail_ids id ((x, u) ∷ m) =
    contains-insert_sorted id x (sorted_detail_ids m)
    ∙ rw (contains-sorted_detail_ids id m) (ground arith)

pub sorted_detail_ids-unlisted :
    (id : Str) (m : Names) → lookup id m ≡ none → contains id (sorted_detail_ids m) ≡ false
sorted_detail_ids-unlisted id m h = contains-sorted_detail_ids id m ∙ rw (has_key, h) refl

pub sorted_detail_ids-listed :
    (id : Str) (m : Names) (u : Unit {0})
    → lookup id m ≡ some u
    → contains id (sorted_detail_ids m) ≡ true
sorted_detail_ids-listed id m u h = contains-sorted_detail_ids id m ∙ rw (has_key, h) refl

module _ {J : Type 0} (id : Str) where
  pub remove_files-others :
      (ids : List Str) (n : ℕ) (files : List (Str × Entry J))
      → contains id ids ≡ false
      → lookup id (remove_files ids n files).0 ≡ lookup id files
  unfolding remove_files contains
  remove_files-others [] n files h = refl
  remove_files-others (x ∷ ids) zero files h = refl
  remove_files-others (x ∷ ids) (suc n) files h =
      ground (arith, remove_files-others ids n (erase x files), lookup-erase x id files)

  remove_files-none :
      (ids : List Str) (n : ℕ) (files : List (Str × Entry J))
      → lookup id files ≡ none
      → lookup id (remove_files ids n files).0 ≡ none
  unfolding remove_files
  remove_files-none [] n files h = h
  remove_files-none (x ∷ ids) zero files h = h
  remove_files-none (x ∷ ids) (suc n) files h =
      remove_files-none ids n (erase x files) (ground (arith, lookup-erase x id files))

  pub remove_files-gone :
      (ids : List Str) (n left : ℕ) (files : List (Str × Entry J))
      → (remove_files ids n files).1 ≡ some left
      → contains id ids ≡ true
      → lookup id (remove_files ids n files).0 ≡ none
  unfolding remove_files contains
  remove_files-gone [] n left files e h = absurd (cc)
  remove_files-gone (x ∷ ids) zero left files e h = absurd (cc)
  remove_files-gone (x ∷ ids) (suc n) left files e h = ground (
    arith,
    remove_files-none ids n (erase x files),
    remove_files-gone ids n left (erase x files) e,
    lookup-erase x id files,
  )

  module _ (details : List (Str × Entry J)) where
    -- Writing a file leaves alone what agrees with the details, and brings its own entry there.
    write_file-agrees :
        (x : Str) (n : ℕ) (files : List (Str × Entry J))
        → lookup id files ≡ lookup id details
        → lookup id (write_file x (lookup x details) n files).0 ≡ lookup id details
    write_file-agrees x n files h = elim (Option-cases (lookup x details)) [
      | inl none_there ↦ rw none_there h
      | inr (e, there) ↦ rw there (go n e there)
    ]
      where
        go :
            (n : ℕ) (e : Entry J)
            → lookup x details ≡ some e
            → lookup id (write_file x (some e) n files).0 ≡ lookup id details
        go zero e there = h
        go (suc n) e there = ground (arith, lookup-insert x id e files, str_eq_iff x id, h, there)

    write_file-others :
        (x : Str) (o : Option (Entry J)) (n : ℕ) (files : List (Str × Entry J))
        → str_eq x id ≡ false
        → lookup id (write_file x o n files).0 ≡ lookup id files
    write_file-others x none n files h = refl
    write_file-others x (some e) zero files h = refl
    write_file-others x (some e) (suc n) files h = ground (arith, lookup-insert x id e files)

    write_file-own :
        (o : Option (Entry J)) (n left : ℕ) (files : List (Str × Entry J))
        → (write_file id o n files).1 ≡ some left
        → o ≢ none
        → lookup id (write_file id o n files).0 ≡ o
    write_file-own none n left files e h = absurd (h refl)
    write_file-own (some d) zero left files e h = absurd (cc)
    write_file-own (some d) (suc n) left files e h =
        ground (arith, lookup-insert id id d files, str_eq_iff id id)

    and_then-keeps :
        (P : List (Str × Entry J) → Type 0) (r : List (Str × Entry J) × Option ℕ)
        (next : ℕ → List (Str × Entry J) → List (Str × Entry J) × Option ℕ)
        → P r.0
        → ((l : ℕ) (fs : List (Str × Entry J)) → P fs → P (next l fs).0)
        → P (and_then r next).0
    and_then-keeps P (fs, none) next h k = h
    and_then-keeps P (fs, some l) next h k = k l fs h

    pub write_files-agrees :
        (ids : List Str) (n : ℕ) (files : List (Str × Entry J))
        → lookup id files ≡ lookup id details
        → lookup id (write_files details ids n files).0 ≡ lookup id details
    unfolding write_files
    write_files-agrees [] n files h = h
    write_files-agrees (x ∷ ids) n files h =
        and_then-keeps (λ fs. lookup id fs ≡ lookup id details)
          (write_file x (lookup x details) n files) (λ l fs. write_files details ids l fs)
          (write_file-agrees x n files h) (λ l fs k. write_files-agrees ids l fs k)

    pub write_files-others :
        (ids : List Str) (n : ℕ) (files : List (Str × Entry J))
        → contains id ids ≡ false
        → lookup id (write_files details ids n files).0 ≡ lookup id files
    unfolding write_files contains
    write_files-others [] n files h = refl
    write_files-others (x ∷ ids) n files h =
        and_then-keeps (λ fs. lookup id fs ≡ lookup id files)
          (write_file x (lookup x details) n files) (λ l fs. write_files details ids l fs)
          (write_file-others x (lookup x details) n files (ground arith))
          (λ l fs k. write_files-others ids l fs (ground arith) ∙ k)

    written_now :
        (x : Str) (n l : ℕ) (files fs : List (Str × Entry J))
        → x ≡ id
        → ◌≡◌ {A = List (Str × Entry J) × Option ℕ}
            (fs, some l)
            (write_file x (lookup x details) n files)
        → lookup id details ≢ none
        → lookup id fs ≡ lookup id details
    written_now x n l files fs p q k =
        ap (λ r. lookup id r.0) whole
        ∙ write_file-own (lookup id details) n l files (sym (ap (λ r. r.1) whole)) k
      where
        whole :
            ◌≡◌ {A = List (Str × Entry J) × Option ℕ}
              (fs, some l)
              (write_file id (lookup id details) n files)
        whole = q ∙ ap (λ y. write_file y (lookup y details) n files) p

    pub write_files-written :
        (ids : List Str) (n left : ℕ) (files : List (Str × Entry J))
        → (write_files details ids n files).1 ≡ some left
        → contains id ids ≡ true
        → lookup id details ≢ none
        → lookup id (write_files details ids n files).0 ≡ lookup id details
    unfolding write_files contains
    write_files-written [] n left files e h k = absurd (cc)
    write_files-written (x ∷ ids) n left files e h k =
        step (write_file x (lookup x details) n files) refl e
          (λ l fs. write_files-written ids l left fs) (ground arith)
      where
        step :
            (r : List (Str × Entry J) × Option ℕ)
            → r ≡ write_file x (lookup x details) n files
            → (and_then r (λ l fs. write_files details ids l fs)).1 ≡ some left
            → ((l : ℕ) (fs : List (Str × Entry J))
                → (write_files details ids l fs).1 ≡ some left
                → contains id ids ≡ true
                → lookup id details ≢ none
                → lookup id (write_files details ids l fs).0 ≡ lookup id details)
            → (str_eq x id || contains id ids) ≡ true
            → lookup id (and_then r (λ l fs. write_files details ids l fs)).0 ≡ lookup id details
        step (fs, none) q e rest h = absurd (cc)
        step (fs, some l) q e rest h = elim (Bool-cases (str_eq x id)) [
          | inl same ↦
              write_files-agrees ids l fs
                (written_now x n l files fs ((str_eq_iff x id).0 same) q k)
          | inr other ↦ rest l fs e (rw other at h) k
        ]
