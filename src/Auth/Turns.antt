-- ===== src/Auth/Turns.antt =====
-- How long the loop that acquires runs, and what it leaves undone.
use generalcompute2api.Prelude.{
  ℕ, ◌+◌, ◌≤◌, ◌<◌, ◌≡◌, refl, ap, sym, ◌∙◌, Bool, true, false, not, ◌||◌, List, [], ◌∷◌, Option,
  none, some, arith, if◌then◌else◌, leb, length, both_branches, All, Bool-cases, inl, inr,
  leb_false→lt, subst,
}
use generalcompute2api.Prelude.Text.{Str, trim_space}
use generalcompute2api.Pool.Lookup.{contains}
use generalcompute2api.Config.{Account, identifier}
use generalcompute2api.Auth.{
  Attempt, AuthError, Ensured, Login, Managed, Outcome, Outside, PoolCall, Refreshed, RequestAuth,
  acquire_managed, add_tried, apply_auto_discard, discarded, ensure_managed_token, is_blank, leased,
  logged_in, login_and_persist, login_error, new_auth, or_no_account, refused, removed, settle,
  should_force_refresh, still_running, token, unless_stale,
}

-- Getting a token for a request whose key is not known calls the pool not at all, and tries no account.
pub record IsQuiet (a : RequestAuth) (r : Ensured) : Type 0 where
  pub same_tried : r.auth.tried_accounts ≡ a.tried_accounts
  pub no_calls : r.calls ≡ []

apply_auto_discard_keyless :
    (a : RequestAuth) (discards : Bool)
    → a.gateway_api_key ≡ []
    → apply_auto_discard a discards ≡ (a, [])
unfolding apply_auto_discard trim_space
apply_auto_discard_keyless a discards h = go a.use_config_token a.pool_managed a.gateway_api_key h
  where
    go :
        (u p : Bool) (key : Str)
        → key ≡ []
        → ◌≡◌ {A = RequestAuth × List PoolCall}
            (if not u
                || not p
                || is_blank (trim_space key)
                || is_blank (trim_space a.account_id)
                || not discards
              then (a, [])
              else (
                record a { tried_accounts = add_tried (trim_space a.account_id) a.tried_accounts },
                removed (trim_space a.account_id) ∷ [],
              ))
            (a, [])
    go false p key h = refl
    go true false key h = refl
    go true true [] h = refl
    go true true (c ∷ k) h = absurd (cc)

login_and_persist-IsQuiet :
    (m : Refreshed) (a : RequestAuth) (w : Outside)
    → a.gateway_api_key ≡ []
    → IsQuiet a (login_and_persist m a w)
unfolding login_and_persist
login_and_persist-IsQuiet m a w h = go w.login
  where
    go : (l : Login) → IsQuiet a (logged_in m a w l)
    go (token t) = record { same_tried = refl; no_calls = refl }
    go (login_error e) =
        subst (λ p. IsQuiet a (discarded m e p)) (sym (apply_auto_discard_keyless a w.discards h))
          (record { same_tried = refl; no_calls = refl })

pub ensure_managed_token-IsQuiet :
    (m : Refreshed) (a : RequestAuth) (w : Outside)
    → a.gateway_api_key ≡ []
    → IsQuiet a (ensure_managed_token m a w)
unfolding ensure_managed_token
ensure_managed_token-IsQuiet m a w h =
    both_branches (IsQuiet a) (is_blank (trim_space a.account.token))
      (login_and_persist-IsQuiet m a w h)
      (go (should_force_refresh m a.account_id w.interval_hours w.now))
  where
    go : (p : Refreshed × Bool) → IsQuiet a (unless_stale a w p)
    go (n, true) = login_and_persist-IsQuiet n a w h
    go (n, false) = record { same_tried = refl; no_calls = refl }

-- Each account that the pool grants has not been tried before.
abbrev pub IsFresh : List Str → List Attempt → Type 0
IsFresh tried [] = Unit {0}
IsFresh tried (x ∷ xs) = elim x.granted [
  | none ↦ Unit {0}
  | some acc ↦ (contains (identifier acc) tried ≡ false) × IsFresh (identifier acc ∷ tried) xs
]

abbrev pub AtMost : ℕ → List Attempt → Type 0
AtMost n xs = All (λ (x : Attempt). x.account_count ≤ n) xs

abbrev pub is_running : Outcome → Bool
is_running still_running = true
is_running (refused e) = false
is_running (leased a) = false

add_tried_new :
    (id : Str) (tried : List Str) → contains id tried ≡ false → add_tried id tried ≡ id ∷ tried
unfolding add_tried
add_tried_new id tried h = rw h refl

settle_ends :
    (id : Str) (a : RequestAuth) (r : Ensured) (next : Refreshed → List Str → AuthError → Managed)
    → IsQuiet a r
    → contains id a.tried_accounts ≡ false
    → ((m : Refreshed) (e : AuthError)
        → is_running (next m (id ∷ a.tried_accounts) e).outcome ≡ false)
    → is_running (settle [] id r next).outcome ≡ false
settle_ends id a r next q h k = go r.error
  where
    go :
        (o : Option AuthError)
        → is_running (settle [] id (record r { error = o }) next).outcome ≡ false
    go none = refl
    go (some e) =
        ap (λ t. is_running (next r.refreshed t e).outcome)
          (ap (add_tried id) q.same_tried ∙ add_tried_new id a.tried_accounts h)
        ∙ k r.refreshed e

-- Where the pool has at most `n` accounts in each turn and never grants one that was tried, a request for
-- any account is answered after at most `n + 1` turns less the accounts tried already.
pub acquire_managed_ends :
    (caller : Str) (m : Refreshed) (tried : List Str) (last_err : Option AuthError)
    (xs : List Attempt) (n : ℕ)
    → AtMost n xs
    → IsFresh tried xs
    → length tried ≤ n
    → n < length tried + length xs
    → is_running (acquire_managed caller [] m tried last_err xs).outcome ≡ false
unfolding acquire_managed
acquire_managed_ends caller m tried last_err [] n b f small enough = absurd (omega arith)
acquire_managed_ends caller m tried last_err (x ∷ xs) n b f small enough =
    elim (Bool-cases (leb x.account_count (length tried))) [
      | inl over ↦ rw over refl
      | inr more ↦ rw more (
          go x.granted f (λ acc m' e g.
            acquire_managed_ends caller m' (identifier acc ∷ tried) (some e) xs n b.1 g
              (omega (arith, leb_false→lt _ _ more, b.0)) (omega (arith, enough))))
    ]
  where
    go :
        (o : Option Account)
        → (elim o as (λ _. Type 0) [
          | none ↦ Unit {0}
          | some acc ↦
              (contains (identifier acc) tried ≡ false) × IsFresh (identifier acc ∷ tried) xs
        ])
        → ((acc : Account) (m' : Refreshed) (e : AuthError)
            → IsFresh (identifier acc ∷ tried) xs
            → is_running (acquire_managed caller [] m' (identifier acc ∷ tried) (some e) xs).outcome
              ≡ false)
        → is_running
            (elim o as (λ _. Managed) [
              | none ↦ record {
                refreshed = m;
                calls = [];
                outcome = refused (or_no_account last_err);
              }
              | some acc ↦
                  settle []
                    (identifier acc)
                    (ensure_managed_token m (new_auth caller acc tried) x.outside)
                    (λ m' tried' e. acquire_managed caller [] m' tried' (some e) xs)
            ]).outcome
          ≡ false
    go none f k = refl
    go (some acc) f k =
        settle_ends (identifier acc) (new_auth caller acc tried)
          (ensure_managed_token m (new_auth caller acc tried) x.outside)
          (λ m' tried' e. acquire_managed caller [] m' tried' (some e) xs)
          (ensure_managed_token-IsQuiet m (new_auth caller acc tried) x.outside refl) f.0
          (λ m' e. k acc m' e f.1)
