-- ===== src/Pool/Named.antt =====
-- The identifiers of the accounts that `acquire` in internal/account/pool_acquire.go grants.
use generalcompute2api.Prelude.{
  ◌≡◌, sym, ap, subst, List, [], ◌∷◌, ◌++◌, some, All, Option-cases, Bool-cases, inl, inr, arith,
}
use generalcompute2api.Prelude.Text.{Str, str_eq, str_eq_iff}
use generalcompute2api.Config.{Account, identifier}
use generalcompute2api.Pool.{Pool, move_to_back}
use generalcompute2api.Pool.Acquire.{Takes, candidates}
use generalcompute2api.Pool.Lookup.{MemoryLookup, find_account, remove_first}

-- The identifier that a granted account is given back under: the one that was asked for, or else its own.
abbrev pub leased_id : Str → Account → Str
leased_id [] acc = identifier acc
leased_id (c ∷ s) acc = c ∷ s

-- An account of the queue is found under its own identifier.
abbrev pub IsNamed : MemoryLookup → Str → Type 0
IsNamed m id = (acc : Account) → find_account m id ≡ some acc → identifier acc ≡ id

module _ (P : Str → Type 0) where
  All-at : (before : List Str) (id : Str) (after : List Str) → All P (before ++ (id ∷ after)) → P id
  All-at [] id after h = h.0
  All-at (x ∷ before) id after h = All-at before id after h.1

  All-append_one : (xs : List Str) (id : Str) → All P xs → P id → All P (xs ++ (id ∷ []))
  All-append_one [] id h k = (k, tt)
  All-append_one (x ∷ xs) id h k = (h.0, All-append_one xs id h.1 k)

  -- What holds of all of a list holds of the one removed and of the rest.
  All-remove_first :
      (id : Str) (xs rest : List Str)
      → remove_first id xs ≡ some rest
      → All P xs
      → P id × All P rest
  unfolding remove_first
  All-remove_first id [] rest e h = absurd (ground (arith, e))
  All-remove_first id (x ∷ xs) rest e h = elim (Bool-cases (str_eq x id)) [
    | inl same ↦
        (subst P ((str_eq_iff x id).0 same) h.0, subst (All P) (ground (arith, e, same)) h.1)
    | inr other ↦ elim (Option-cases (remove_first id xs)) [
      | inl missing ↦ absurd (ground (arith, e, other, missing))
      | inr (kept, found) ↦
          let (k, ks) = All-remove_first id xs kept found h.1 in
          (k, subst (All P) {x = x ∷ kept} {y = rest} (ground (arith, e, other, found)) (h.0, ks))
    ]
  ]

  All-move_to_back :
      (id : Str) (queue : List Str)
      → All P queue
      → All P (move_to_back id queue (remove_first id queue))
  All-move_to_back id queue h = elim (Option-cases (remove_first id queue)) [
    | inl missing ↦ rw missing h
    | inr (rest, found) ↦
        let (k, ks) = All-remove_first id queue rest found h in
        rw found (All-append_one rest id ks k)
  ]

-- The names stay when a slot is taken, which only moves an identifier to the back of the queue.
pub taken-named :
    (p q : Pool) (id : Str)
    → Takes p q id
    → All (IsNamed p.lookup) p.queue
    → All (IsNamed q.lookup) q.queue
taken-named p q id t h =
    subst (λ m. All (IsNamed m) q.queue) (sym (ap (λ (r : Pool). r.lookup) t.rest))
      (subst (All (IsNamed p.lookup)) (sym t.rotated)
        (All-move_to_back (IsNamed p.lookup) id p.queue h))

only_one : (x id : Str) (before after : List Str) → x ∷ [] ≡ before ++ (id ∷ after) → x ≡ id
only_one x id [] after e = ground (arith, e)
only_one x id (y ∷ []) after e = absurd (ground (arith, e))
only_one x id (y ∷ z ∷ before) after e = absurd (ground (arith, e))

-- The slot that was taken is the one of the lease.
pub granted_id :
    (p : Pool) (target id : Str) (acc : Account) (before after : List Str)
    → candidates p target ≡ before ++ (id ∷ after)
    → All (IsNamed p.lookup) p.queue
    → find_account p.lookup id ≡ some acc
    → leased_id target acc ≡ id
granted_id p [] id acc before after e h f =
    All-at (IsNamed p.lookup) before id after (subst (All (IsNamed p.lookup)) e h) acc f
granted_id p (c ∷ s) id acc before after e h f = only_one (c ∷ s) id before after e
