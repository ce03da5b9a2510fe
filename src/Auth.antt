-- ===== src/Auth.antt =====
-- internal/auth/request.go and discard.go: how a request gets an account of the pool, and gives it back. What
-- the pool and the upstream service answer is the input of each loop, a turn at a time, and the calls on
-- the pool are its output; so other requests may do anything between two turns. A resolver has its
-- database, and a request that is managed has its pool.
pub mod Changes
pub mod Leases
pub mod Switch
pub mod Turns
pub mod Discards
pub mod Cooldown
pub mod Tests
use generalcompute2api.Prelude.{
  ℕ, zero, suc, ◌-◌, ◌*◌, ◌+◌, Bool, true, false, not, ◌&&◌, ◌||◌, List, [], ◌∷◌, ◌++◌, Option,
  none, some, if◌then◌else◌, leb, ltb, length,
}
use generalcompute2api.Prelude.Maps.{erase, insert, lookup}
use generalcompute2api.Prelude.Text.{Str, codes, str_eq, trim_space}
use generalcompute2api.Config.{Account, identifier}
use generalcompute2api.Pool.Lookup.{contains}

pub record RequestAuth : Type 0 where
  pub use_config_token : Bool
  pub deepseek_token : Str
  pub caller_id : Str
  pub gateway_api_key : Str
  pub account_id : Str
  pub account : Account
  pub tried_accounts : List Str
  pub pool_managed : Bool

pub data AuthError : Type 0 where
  no_account : AuthError
  login_failed persist_failed : Str → AuthError

-- What `Login` answers.
pub data Login : Type 0 where
  token : Str → Login
  login_error : Str → Login

-- The upstream service, the database and the clock in one turn: what a login would answer, whether its error
-- tells of a ban that the database then records, the error of storing a token, the refresh interval in
-- hours and the time in seconds.
pub record Outside : Type 0 where
  pub login : Login
  pub discards : Bool
  pub persist : Option Str
  pub interval_hours : ℕ
  pub now : ℕ

-- The calls on the pool.
pub data PoolCall : Type 0 where
  acquired released removed : Str → PoolCall

-- When each account's token was refreshed.
abbrev pub Refreshed : Type 0
Refreshed = List (Str × ℕ)

pub record Ensured : Type 0 where
  pub refreshed : Refreshed
  pub auth : RequestAuth
  pub calls : List PoolCall
  pub error : Option AuthError

-- `tried[id] = true`.
unfoldable pub add_tried : Str → List Str → List Str
unfolding contains
add_tried id tried = if contains id tried then tried else id ∷ tried

abbrev pub is_blank : Str → Bool
is_blank [] = true
is_blank (c ∷ s) = false

unfoldable pub mark_token_refreshed_now : Refreshed → Str → ℕ → Refreshed
unfolding insert
mark_token_refreshed_now m [] now = m
mark_token_refreshed_now m (c ∷ i) now = insert (c ∷ i) now m

abbrev first_seen : Refreshed → Str → ℕ → ℕ → Option ℕ → Refreshed × Bool
first_seen m id hours now none = (insert id now m, false)
first_seen m id hours now (some last) = (m, leb (hours * 3600) (now - last))

unfoldable pub should_force_refresh : Refreshed → Str → ℕ → ℕ → Refreshed × Bool
unfolding trim_space lookup insert
should_force_refresh m id hours now =
    if is_blank (trim_space id) || leb hours 0
    then (m, false)
    else first_seen m id hours now (lookup id m)

-- `applyAutoDiscard`, where the database would record it.
unfoldable pub apply_auto_discard : RequestAuth → Bool → RequestAuth × List PoolCall
unfolding trim_space add_tried
apply_auto_discard a discards =
    if not a.use_config_token
      || not a.pool_managed
      || is_blank (trim_space a.gateway_api_key)
      || is_blank (trim_space a.account_id)
      || not discards
    then (a, [])
    else (
      record a { tried_accounts = add_tried (trim_space a.account_id) a.tried_accounts },
      removed (trim_space a.account_id) ∷ [],
    )

abbrev persist_error : Option Str → Option AuthError
persist_error none = none
persist_error (some e) = some (persist_failed e)

abbrev discarded : Refreshed → Str → RequestAuth × List PoolCall → Ensured
discarded m e (a, calls) = record {
  refreshed = m;
  auth = a;
  calls = calls;
  error = some (login_failed e);
}

abbrev pub logged_in : Refreshed → RequestAuth → Outside → Login → Ensured
logged_in m a w (login_error e) = discarded m e (apply_auto_discard a w.discards)
logged_in m a w (token t) = record {
  refreshed = mark_token_refreshed_now m a.account_id w.now;
  auth = record a { account = record a.account { token = t }; deepseek_token = t };
  calls = [];
  error = persist_error w.persist;
}

unfoldable pub login_and_persist : Refreshed → RequestAuth → Outside → Ensured
unfolding apply_auto_discard mark_token_refreshed_now
login_and_persist m a w = logged_in m a w w.login

abbrev pub unless_stale : RequestAuth → Outside → Refreshed × Bool → Ensured
unless_stale a w (m, true) = login_and_persist m a w
unless_stale a w (m, false) = record {
  refreshed = m;
  auth = record a { deepseek_token = a.account.token };
  calls = [];
  error = none;
}

unfoldable pub ensure_managed_token : Refreshed → RequestAuth → Outside → Ensured
unfolding login_and_persist should_force_refresh trim_space
ensure_managed_token m a w =
    if is_blank (trim_space a.account.token)
    then login_and_persist m a w
    else unless_stale a w (should_force_refresh m a.account_id w.interval_hours w.now)

-- One turn of the loop that acquires: the number of accounts, what `AcquireWait` gave, and the outside.
pub record Attempt : Type 0 where
  pub account_count : ℕ
  pub granted : Option Account
  pub outside : Outside

pub data Outcome : Type 0 where
  still_running : Outcome
  refused : AuthError → Outcome
  leased : RequestAuth → Outcome

pub record Managed : Type 0 where
  pub refreshed : Refreshed
  pub calls : List PoolCall
  pub outcome : Outcome

abbrev pub or_no_account : Option AuthError → AuthError
or_no_account none = no_account
or_no_account (some e) = e

abbrev pub new_auth : Str → Account → List Str → RequestAuth
new_auth caller acc tried = record {
  use_config_token = true;
  deepseek_token = [];
  caller_id = caller;
  gateway_api_key = [];
  account_id = identifier acc;
  account = acc;
  tried_accounts = tried;
  pool_managed = true;
}

abbrev pub before : List PoolCall → Managed → Managed
before cs r = record r { calls = cs ++ r.calls }

-- What follows from the token of an account that was granted.
abbrev pub settle : Str → Str → Ensured → (Refreshed → List Str → AuthError → Managed) → Managed
settle target id r next = elim r.error [
  | none ↦ record {
    refreshed = r.refreshed;
    calls = acquired id ∷ r.calls;
    outcome = leased r.auth;
  }
  | some e ↦ before (acquired id ∷ (r.calls ++ (released id ∷ []))) (
      if is_blank target
      then next r.refreshed (add_tried id r.auth.tried_accounts) e
      else record { refreshed = r.refreshed; calls = []; outcome = refused e })
]

unfoldable pub acquire_managed :
    Str → Str → Refreshed → List Str → Option AuthError → List Attempt → Managed
unfolding ensure_managed_token identifier add_tried
acquire_managed caller target m tried last_err [] = record {
  refreshed = m;
  calls = [];
  outcome = still_running;
}
acquire_managed caller target m tried last_err (x ∷ xs) =
    let go_on = λ (m' : Refreshed) (tried' : List Str) (e : AuthError).
      acquire_managed caller target m' tried' (some e) xs in
    if is_blank target && leb x.account_count (length tried)
    then record { refreshed = m; calls = []; outcome = refused (or_no_account last_err) }
    else elim x.granted [
      | none ↦ record { refreshed = m; calls = []; outcome = refused (or_no_account last_err) }
      | some acc ↦
          settle target (identifier acc)
            (ensure_managed_token m (new_auth caller acc tried) x.outside) go_on
    ]
