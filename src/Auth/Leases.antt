-- ===== src/Auth/Leases.antt =====
-- The leases that a request holds.
use generalcompute2api.Prelude.{
  ◌≡◌, refl, ap, sym, ◌∙◌, Bool, true, false, not, ◌||◌, ◌&&◌, List, [], ◌∷◌, ◌++◌, Option, none,
  some, if◌then◌else◌, leb, length, both_branches,
}
use generalcompute2api.Prelude.Text.{Str, str_eq, str_eq_refl, trim_space}
use generalcompute2api.Config.{Account, identifier}
use generalcompute2api.Auth.{
  Attempt, AuthError, Ensured, Login, Managed, Outcome, Outside, PoolCall, Refreshed, RequestAuth,
  discarded, acquire_managed, acquired, add_tried, apply_auto_discard, before, ensure_managed_token,
  is_blank, leased, logged_in, login_and_persist, login_error, new_auth, or_no_account, refused,
  released, removed, settle, should_force_refresh, still_running, token, unless_stale,
}

-- One lease of an account less, if there is one.
abbrev pub drop_lease : Str → List Str → List Str
drop_lease id [] = []
drop_lease id (x ∷ xs) = let rest = drop_lease id xs in if str_eq x id then xs else x ∷ rest

-- The leases held after some calls.
abbrev pub held : List PoolCall → List Str → List Str
held [] leases = leases
held (acquired id ∷ cs) leases = held cs (id ∷ leases)
held (released id ∷ cs) leases = held cs (drop_lease id leases)
held (removed id ∷ cs) leases = held cs leases

pub held-append :
    (cs ds : List PoolCall) (leases : List Str) → held (cs ++ ds) leases ≡ held ds (held cs leases)
held-append [] ds leases = refl
held-append (acquired id ∷ cs) ds leases = held-append cs ds (id ∷ leases)
held-append (released id ∷ cs) ds leases = held-append cs ds (drop_lease id leases)
held-append (removed id ∷ cs) ds leases = held-append cs ds leases

pub drop_lease_own : (id : Str) (leases : List Str) → drop_lease id (id ∷ leases) ≡ leases
drop_lease_own id leases = rw (str_eq_refl id) refl

-- Getting a token leaves the account and takes no lease.
pub record KeepsLeases (a : RequestAuth) (r : Ensured) : Type 0 where
  pub same_account : r.auth.account_id ≡ a.account_id
  pub no_lease : (leases : List Str) → held r.calls leases ≡ leases

login_and_persist-KeepsLeases :
    (m : Refreshed) (a : RequestAuth) (w : Outside) → KeepsLeases a (login_and_persist m a w)
unfolding login_and_persist apply_auto_discard
login_and_persist-KeepsLeases m a w = go w.login
  where
    go : (l : Login) → KeepsLeases a (logged_in m a w l)
    go (token t) = record { same_account = refl; no_lease = λ leases. refl }
    go (login_error e) =
        both_branches (λ p. KeepsLeases a (discarded m e p))
          (not a.use_config_token
            || not a.pool_managed
            || is_blank (trim_space a.gateway_api_key)
            || is_blank (trim_space a.account_id)
            || not w.discards)
          (record { same_account = refl; no_lease = λ leases. refl })
          (record { same_account = refl; no_lease = λ leases. refl })

pub ensure_managed_token-KeepsLeases :
    (m : Refreshed) (a : RequestAuth) (w : Outside) → KeepsLeases a (ensure_managed_token m a w)
unfolding ensure_managed_token
ensure_managed_token-KeepsLeases m a w =
    both_branches (KeepsLeases a) (is_blank (trim_space a.account.token))
      (login_and_persist-KeepsLeases m a w)
      (go (should_force_refresh m a.account_id w.interval_hours w.now))
  where
    go : (p : Refreshed × Bool) → KeepsLeases a (unless_stale a w p)
    go (n, true) = login_and_persist-KeepsLeases n a w
    go (n, false) = record { same_account = refl; no_lease = λ leases. refl }

-- The leases after the loop has ended, or as far as it has run, over those held before.
abbrev pub Outstanding : Outcome → List Str → List Str → Type 0
Outstanding still_running leases now_held = now_held ≡ leases
Outstanding (refused e) leases now_held = now_held ≡ leases
Outstanding (leased a) leases now_held = now_held ≡ a.account_id ∷ leases

abbrev Settles : Managed → List Str → Type 0
Settles r leases = Outstanding r.outcome leases (held r.calls leases)

before-Settles :
    (id : Str) (calls : List PoolCall) (r : Managed) (leases : List Str)
    → ((leases : List Str) → held calls leases ≡ leases)
    → Settles r leases
    → Settles (before (acquired id ∷ (calls ++ (released id ∷ []))) r) leases
before-Settles id calls r leases h k = rw (same) k
  where
    same :
        held (acquired id ∷ ((calls ++ (released id ∷ [])) ++ r.calls)) leases ≡ held r.calls leases
    same =
        held-append (calls ++ (released id ∷ [])) r.calls (id ∷ leases)
        ∙ ap (held r.calls) (
            held-append calls (released id ∷ []) (id ∷ leases)
            ∙ ap (drop_lease id) (h (id ∷ leases))
            ∙ drop_lease_own id leases)

settle-Settles :
    (target id : Str) (a : RequestAuth) (r : Ensured) (leases : List Str)
    (next : Refreshed → List Str → AuthError → Managed)
    → a.account_id ≡ id
    → KeepsLeases a r
    → ((m : Refreshed) (tried : List Str) (e : AuthError) → Settles (next m tried e) leases)
    → Settles (settle target id r next) leases
settle-Settles target id a r leases next same h k = go r.error
  where
    go : (o : Option AuthError) → Settles (settle target id (record r { error = o }) next) leases
    go none = h.no_lease (id ∷ leases) ∙ ap (λ i. i ∷ leases) (sym (h.same_account ∙ same))
    go (some e) =
        before-Settles id r.calls
          (if is_blank target
            then next r.refreshed (add_tried id r.auth.tried_accounts) e
            else record { refreshed = r.refreshed; calls = []; outcome = refused e })
          leases h.no_lease
          (both_branches (λ t. Settles t leases) (is_blank target)
            (k r.refreshed (add_tried id r.auth.tried_accounts) e) refl)

-- However the pool and the outside answer and however far the loop has run, a request that was given an
-- account holds just one lease more, of that account, and any other holds none more: each account whose
-- token could not be had was given back.
pub acquire_managed-Settles :
    (caller target : Str) (m : Refreshed) (tried : List Str) (last_err : Option AuthError)
    (xs : List Attempt) (leases : List Str)
    → Outstanding
        (acquire_managed caller target m tried last_err xs).outcome
        leases
        (held (acquire_managed caller target m tried last_err xs).calls leases)
unfolding acquire_managed
acquire_managed-Settles caller target m tried last_err [] leases = refl
acquire_managed-Settles caller target m tried last_err (x ∷ xs) leases =
    both_branches (λ r. Settles r leases) (is_blank target && leb x.account_count (length tried))
      refl
      (go x.granted
        (λ m' tried' e. acquire_managed-Settles caller target m' tried' (some e) xs leases))
  where
    go :
        (o : Option Account)
        → ((m' : Refreshed) (tried' : List Str) (e : AuthError)
            → Settles (acquire_managed caller target m' tried' (some e) xs) leases)
        → Settles
            (elim o [
              | none ↦ record {
                refreshed = m;
                calls = [];
                outcome = refused (or_no_account last_err);
              }
              | some acc ↦
                  settle target
                    (identifier acc)
                    (ensure_managed_token m (new_auth caller acc tried) x.outside)
                    (λ m' tried' e. acquire_managed caller target m' tried' (some e) xs)
            ])
            leases
    go none k = refl
    go (some acc) k =
        settle-Settles target (identifier acc) (new_auth caller acc tried)
          (ensure_managed_token m (new_auth caller acc tried) x.outside) leases
          (λ m' tried' e. acquire_managed caller target m' tried' (some e) xs) refl
          (ensure_managed_token-KeepsLeases m (new_auth caller acc tried) x.outside) k
