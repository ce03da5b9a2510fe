-- ===== src/Pool/Sync.antt =====
-- `SyncAccounts` and the order of a new queue in internal/account/pool_core.go.
use generalcompute2api.Prelude.{
  ℕ, ◌≡◌, refl, Bool, true, false, not, List, [], ◌∷◌, ◌++◌, arith, if◌then◌else◌, ltb, select, All,
  All-append, Bool-cases, inl, inr,
}
use mathlib.Core.List.{append-nil, append_assoc}
use generalcompute2api.Prelude.Text.{Str, str_eq_iff, str_eq_refl}
use generalcompute2api.Prelude.Maps.{lookup-erase}
use generalcompute2api.Config.{Account}
use generalcompute2api.Config.Limits.{Env}
use generalcompute2api.Pool.{Pool, in_use_of}
use generalcompute2api.Pool.Changes.{append_unseen, sync_accounts, remove_account}
use generalcompute2api.Pool.Counts.{lookup-select}
use generalcompute2api.Pool.Ledger.{count, count-append}
use generalcompute2api.Pool.Lookup.{
  contains, account_ids, sorted_accounts_for_queue, insert_sorted, insert_all, has_token,
}

-- The identifiers of an account list, in queue order.
abbrev pub new_ids : List Account → List Str
new_ids accounts = account_ids (sorted_accounts_for_queue accounts)

-- A sync keeps the count of leases of every account that stays and forgets that of every other.
pub sync_accounts_counts :
    (e : Env) (p : Pool) (accounts : List Account) (id : Str)
    → in_use_of (sync_accounts e p accounts) id
      ≡ (if contains id (new_ids accounts) then in_use_of p id else 0)
unfolding sync_accounts
sync_accounts_counts e p accounts id =
    ground (arith, lookup-select (λ k. contains k (new_ids accounts)) id p.in_use)

-- Whatever leases of an account were out: once it is removed and later synced back, it counts none.
pub removed_account_forgets_leases :
    (e : Env) (p : Pool) (accounts : List Account) (c : ℕ) (id : Str)
    → in_use_of (sync_accounts e (remove_account p (c ∷ id)) accounts) (c ∷ id) ≡ 0
removed_account_forgets_leases e p accounts c id =
    ground (arith, sync_accounts_counts e (remove_account p (c ∷ id)) accounts (c ∷ id), gone)
  where
    gone : in_use_of (remove_account p (c ∷ id)) (c ∷ id) ≡ 0
    gone =
        unfold remove_account in
        ground (arith, lookup-erase (c ∷ id) (c ∷ id) p.in_use, str_eq_refl (c ∷ id))

contains-count : (id : Str) (xs : List Str) → contains id xs ≡ ltb 0 (count id xs)
unfolding contains count
contains-count id [] = refl
contains-count id (x ∷ xs) = ground (arith, contains-count id xs)

count-select :
    (keep : Str → Bool) (id : Str) (xs : List Str)
    → count id (select keep xs) ≡ (if keep id then count id xs else 0)
unfolding count
count-select keep id [] = ground arith
count-select keep id (x ∷ xs) = ground (arith, count-select keep id xs, str_eq_iff x id)

count-append_unseen :
    (id : Str) (seen ids : List Str)
    → count id (append_unseen seen ids)
      ≡ (if contains id seen then 0 else if contains id ids then 1 else 0)
unfolding append_unseen count contains
count-append_unseen id seen [] = ground arith
count-append_unseen id seen (x ∷ ids) =
    ground (
      arith,
      count-append_unseen id seen ids,
      count-append_unseen id (x ∷ seen) ids,
      str_eq_iff x id,
    )

-- After a sync the queue holds the identifiers of the new accounts and no others: one that was queued
-- before stands as often as it did, and a new one stands once.
pub sync_accounts_queue :
    (e : Env) (p : Pool) (accounts : List Account) (id : Str)
    → count id (sync_accounts e p accounts).queue ≡ (
        if contains id (new_ids accounts)
        then (if contains id p.queue then count id p.queue else 1)
        else 0)
unfolding sync_accounts
sync_accounts_queue e p accounts id = ground (
  arith,
  count-append id kept (append_unseen kept ids),
  count-append_unseen id kept ids,
  count-select (λ k. contains k ids) id p.queue,
  contains-count id kept,
  contains-count id p.queue,
)
  where
    ids : List Str
    ids = new_ids accounts

    kept : List Str
    kept = select (λ k. contains k ids) p.queue

insert_sorted-append :
    (a : Account) (xs ys : List Account)
    → All (λ b. has_token b ≡ true) xs
    → All (λ b. has_token b ≡ false) ys
    → insert_sorted a (xs ++ ys) ≡ (if has_token a then xs ++ (a ∷ ys) else xs ++ (ys ++ (a ∷ [])))
unfolding insert_sorted
insert_sorted-append a [] [] h k = ground arith
insert_sorted-append a [] (y ∷ ys) h k = ground (arith, insert_sorted-append a [] ys tt k.1)
insert_sorted-append a (x ∷ xs) ys h k = ground (arith, insert_sorted-append a xs ys h.1 k)

insert_all-append :
    (xs ys rest : List Account)
    → All (λ b. has_token b ≡ true) xs
    → All (λ b. has_token b ≡ false) ys
    → insert_all (xs ++ ys) rest
      ≡ (xs ++ select has_token rest) ++ (ys ++ select (λ a. not (has_token a)) rest)
unfolding insert_all
insert_all-append xs ys [] h k = simp append-nil
insert_all-append xs ys (a ∷ rest) h k = elim (Bool-cases (has_token a)) [
  | inl with_token ↦
      rw (insert_sorted-append a xs ys h k, with_token)
        (simp append_assoc (
          simp append_assoc at (
            insert_all-append (xs ++ (a ∷ [])) ys rest (All-append _ xs (a ∷ []) h (with_token, tt))
              k)))
  | inr without_token ↦
      rw (insert_sorted-append a xs ys h k, without_token)
        (simp append_assoc (
          simp append_assoc at (
            insert_all-append xs (ys ++ (a ∷ [])) rest h
              (All-append _ ys (a ∷ []) k (without_token, tt)))))
]

-- The queue order: the accounts with a token first and those without after them, each group in the
-- order in which the accounts were given.
pub sorted_accounts_lem :
    (accounts : List Account)
    → sorted_accounts_for_queue accounts
      ≡ select has_token accounts ++ select (λ a. not (has_token a)) accounts
unfolding sorted_accounts_for_queue
sorted_accounts_lem accounts = insert_all-append [] [] accounts tt tt
