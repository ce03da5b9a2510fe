-- ===== src/Auth/Discards.antt =====
-- Banned accounts that are met while a request acquires one.
use generalcompute2api.Prelude.{
  ◌≡◌, refl, sym, ◌&&◌, List, [], ◌∷◌, ◌++◌, Option, none, some, if◌then◌else◌, leb, length,
  both_branches, subst,
}
use generalcompute2api.Prelude.Text.{Str}
use generalcompute2api.Config.{Account, identifier}
use generalcompute2api.Auth.{
  Attempt, AuthError, Ensured, Managed, PoolCall, Refreshed, acquire_managed, acquired, add_tried,
  ensure_managed_token, is_blank, new_auth, or_no_account, refused, released, removed, settle,
}
use generalcompute2api.Auth.Turns.{ensure_managed_token-IsQuiet}

-- No account is taken out of the pool.
abbrev pub NoneRemoved : List PoolCall → Type 0
NoneRemoved [] = Unit {0}
NoneRemoved (acquired id ∷ cs) = NoneRemoved cs
NoneRemoved (released id ∷ cs) = NoneRemoved cs
NoneRemoved (removed id ∷ cs) = ⊥

settle-NoneRemoved :
    (target id : Str) (r : Ensured) (next : Refreshed → List Str → AuthError → Managed)
    → r.calls ≡ []
    → ((m : Refreshed) (tried : List Str) (e : AuthError) → NoneRemoved (next m tried e).calls)
    → NoneRemoved (settle target id r next).calls
settle-NoneRemoved target id r next q k = go r.error
  where
    go : (o : Option AuthError) → NoneRemoved (settle target id (record r { error = o }) next).calls
    go none = subst NoneRemoved (sym q) tt
    go (some e) =
        subst
          (λ cs. NoneRemoved (
            (cs ++ (released id ∷ []))
            ++ (if is_blank target
                then next r.refreshed (add_tried id r.auth.tried_accounts) e
                else record { refreshed = r.refreshed; calls = []; outcome = refused e }).calls))
          (sym q)
          (both_branches (λ (t : Managed). NoneRemoved t.calls) (is_blank target)
            (k r.refreshed (add_tried id r.auth.tried_accounts) e) tt)

-- While a request acquires an account it takes none out of the pool, even where the error of a login tells of
-- a ban that the database would record: the key of the request is filled in only afterwards.
pub acquire_managed_never_discards :
    (caller target : Str) (m : Refreshed) (tried : List Str) (last_err : Option AuthError)
    (xs : List Attempt)
    → NoneRemoved (acquire_managed caller target m tried last_err xs).calls
unfolding acquire_managed
acquire_managed_never_discards caller target m tried last_err [] = tt
acquire_managed_never_discards caller target m tried last_err (x ∷ xs) =
    both_branches (λ (r : Managed). NoneRemoved r.calls)
      (is_blank target && leb x.account_count (length tried)) tt
      (go x.granted
        (λ m' tried' e. acquire_managed_never_discards caller target m' tried' (some e) xs))
  where
    go :
        (o : Option Account)
        → ((m' : Refreshed) (tried' : List Str) (e : AuthError)
            → NoneRemoved (acquire_managed caller target m' tried' (some e) xs).calls)
        → NoneRemoved
            (elim o as (λ _. Managed) [
              | none ↦ record {
                refreshed = m;
                calls = [];
                outcome = refused (or_no_account last_err);
              }
              | some acc ↦
                  settle target
                    (identifier acc)
                    (ensure_managed_token m (new_auth caller acc tried) x.outside)
                    (λ m' tried' e. acquire_managed caller target m' tried' (some e) xs)
            ]).calls
    go none k = tt
    go (some acc) k =
        settle-NoneRemoved target (identifier acc)
          (ensure_managed_token m (new_auth caller acc tried) x.outside)
          (λ m' tried' e. acquire_managed caller target m' tried' (some e) xs)
          (ensure_managed_token-IsQuiet m (new_auth caller acc tried) x.outside refl).no_calls k
