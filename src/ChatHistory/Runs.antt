-- ===== src/ChatHistory/Runs.antt =====
-- Any calls of the store's methods, from a store that found no file.
use generalcompute2api.Prelude.{ℕ, ◌≡◌, refl, List, [], ◌∷◌, ◌++◌, Option, none, All}
use generalcompute2api.Prelude.Int.{ℤ}
use generalcompute2api.Prelude.Maps.{lookup}
use generalcompute2api.Prelude.Text.{Str, codes}
use generalcompute2api.ChatHistory.{Store, new}
use generalcompute2api.ChatHistory.Disk.{Disk}
use generalcompute2api.ChatHistory.Calls.{
  Answer, HistoryError, Now, StartParams, UpdateParams, clear, delete, set_limit, start, update,
}
use generalcompute2api.ChatHistory.Keys.{IsId}
use generalcompute2api.ChatHistory.Pending.{IsPending}
use generalcompute2api.ChatHistory.Mirror.{Mirrors}
use generalcompute2api.ChatHistory.Methods.{Leaves, start-Leaves, update-Leaves}
use generalcompute2api.ChatHistory.Deletions.{clear-Leaves, delete-Leaves, set_limit-Leaves}

pub data Method (J : Type 0) : Type 0 where
  start_call : StartParams → Str → Method J
  update_call : Str → UpdateParams J → Method J
  delete_call : Str → Method J
  clear_call : Method J
  set_limit_call : ℤ → Method J

-- A call, with the number of operations on the file system that succeed in it, and the time.
pub record Call (J : Type 0) : Type 0 where
  pub method : Method J
  pub works : ℕ
  pub now : Now

-- The store, the files and the error of the last call.
pub record Held (J : Type 0) : Type 0 where
  pub store : Store J
  pub disk : Disk J
  pub error : Option HistoryError

abbrev held : {J A : Type 0} → Answer J A → Held J
held a = record { store = a.store; disk = a.disk; error = a.error }

-- The identifiers that `Start` makes: a new one is trimmed and not empty.
abbrev pub GoodCall : {J : Type 0} → Call J → Type 0
GoodCall c = elim c.method [ start_call p uuid ↦ IsId (codes "chat_" ++ uuid) | _ ↦ Unit {0} ]

module _ {J : Type 0} where
  abbrev call_of : Method J → Store J → Disk J → ℕ → Now → Held J
  call_of (start_call p uuid) s disk works now = held (start s disk works p uuid now)
  call_of (update_call id p) s disk works now = held (update s disk works id p now)
  call_of (delete_call id) s disk works now = held (delete s disk works id now)
  call_of clear_call s disk works now = held (clear s disk works now)
  call_of (set_limit_call limit) s disk works now = held (set_limit s disk works limit now)

  unfoldable pub step : Held J → Call J → Held J
  unfolding start update delete clear set_limit
  step h c = call_of c.method h.store h.disk c.works c.now

  unfoldable pub run : Held J → List (Call J) → Held J
  unfolding step
  run h [] = h
  run h (c ∷ cs) = run (step h c) cs

  step-Pending :
      (h : Held J) (c : Call J)
      → GoodCall c
      → IsPending h.store h.disk.files
      → IsPending (step h c).store (step h c).disk.files
        × ((step h c).error ≡ none → Mirrors (step h c).store (step h c).disk)
  unfolding step
  step-Pending h c g p = go c.method g
    where
      good : Method J → Type 0
      good m = GoodCall (record { method = m; works = c.works; now = c.now })

      both :
          {A : Type 0} {a : Answer J A}
          → Leaves a
          → IsPending a.store a.disk.files × (a.error ≡ none → Mirrors a.store a.disk)
      both l = (l.pending, l.mirrors)

      go :
          (m : Method J)
          → good m
          → IsPending
              (call_of m h.store h.disk c.works c.now).store
              (call_of m h.store h.disk c.works c.now).disk.files
            × ((call_of m h.store h.disk c.works c.now).error ≡ none
                → Mirrors
                    (call_of m h.store h.disk c.works c.now).store
                    (call_of m h.store h.disk c.works c.now).disk)
      go (start_call q uuid) g = both (start-Leaves h.store h.disk c.works q uuid c.now g p)
      go (update_call id q) g = both (update-Leaves h.store h.disk c.works id q c.now p)
      go (delete_call id) g = both (delete-Leaves h.store h.disk c.works id c.now p)
      go clear_call g = both (clear-Leaves h.store h.disk c.works c.now p)
      go (set_limit_call limit) g = both (set_limit-Leaves h.store h.disk c.works limit c.now p)

  pub run-Pending :
      (h : Held J) (cs : List (Call J))
      → All GoodCall cs
      → IsPending h.store h.disk.files
      → IsPending (run h cs).store (run h cs).disk.files
  unfolding run
  run-Pending h [] g p = p
  run-Pending h (c ∷ cs) g p = run-Pending (step h c) cs g.1 (step-Pending h c g.0 p).0

-- A new store and no files.
abbrev pub empty_held : (J : Type 0) → Held J
empty_held J = record { store = new J; disk = record { files = []; index = none }; error = none }

empty-Pending : (J : Type 0) → IsPending (empty_held J).store (empty_held J).disk.files
unfolding lookup
empty-Pending J = record {
  keyed = tt;
  settled = λ id d e. refl;
  dirty_kept = λ id k. refl;
  deleted_gone = λ id k. refl;
}

-- After any calls on a new store, however many of their saves failed and wherever they did, a call that
-- reports no error leaves a file with its entry for each conversation in memory, no other file, and the
-- index that is in memory. The new identifiers must be trimmed and not empty.
pub saved_call-Mirrors :
    {J : Type 0} (cs : List (Call J)) (c : Call J)
    → All GoodCall cs
    → GoodCall c
    → (step (run (empty_held J) cs) c).error ≡ none
    → Mirrors (step (run (empty_held J) cs) c).store (step (run (empty_held J) cs) c).disk
saved_call-Mirrors {J} cs c g k =
    (step-Pending (run (empty_held J) cs) c k (run-Pending (empty_held J) cs g (empty-Pending J))).1
