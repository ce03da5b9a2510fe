-- ===== src/Auth/Changes.antt =====
-- internal/auth/request.go: a request changes its account, gives it back or refreshes its token.
use generalcompute2api.Prelude.{
  Bool, true, false, not, ◌||◌, List, [], ◌∷◌, ◌++◌, Option, none, some, if◌then◌else◌,
}
use generalcompute2api.Prelude.Maps.{erase}
use generalcompute2api.Prelude.Text.{Str}
use generalcompute2api.Config.{Account, identifier}
use generalcompute2api.Auth.{
  RequestAuth, Outside, PoolCall, Refreshed, Ensured, add_tried, is_blank, login_and_persist,
  ensure_managed_token, acquired, released,
}

-- A turn of the loop that switches: what `Acquire` gave, and the outside.
pub record SwitchTurn : Type 0 where
  pub granted : Option Account
  pub outside : Outside

pub record Switched : Type 0 where
  pub refreshed : Refreshed
  pub auth : RequestAuth
  pub calls : List PoolCall
  -- `none` while the loop runs.
  pub result : Option Bool

abbrev pub before_switch : List PoolCall → Switched → Switched
before_switch cs r = record r { calls = cs ++ r.calls }

abbrev pub settle_switch : Str → Ensured → (Refreshed → RequestAuth → Switched) → Switched
settle_switch id r next = elim r.error [
  | none ↦ record {
    refreshed = r.refreshed;
    auth = r.auth;
    calls = acquired id ∷ r.calls;
    result = some true;
  }
  | some e ↦
      before_switch (acquired id ∷ (r.calls ++ (released id ∷ [])))
        (next r.refreshed (record r.auth { tried_accounts = add_tried id r.auth.tried_accounts }))
]

unfoldable pub switch_loop : Refreshed → RequestAuth → List SwitchTurn → Switched
unfolding ensure_managed_token identifier add_tried
switch_loop m a [] = record { refreshed = m; auth = a; calls = []; result = none }
switch_loop m a (x ∷ xs) =
    let go_on = λ (m' : Refreshed) (a' : RequestAuth). switch_loop m' a' xs in
    elim x.granted [
      | none ↦ record { refreshed = m; auth = a; calls = []; result = some false }
      | some acc ↦
          settle_switch (identifier acc)
            (ensure_managed_token m (record a { account = acc; account_id = identifier acc })
              x.outside)
            go_on
    ]

-- The lease that the request had.
abbrev pub give_up : Str → RequestAuth → RequestAuth
give_up id a = record a { tried_accounts = add_tried id a.tried_accounts }

unfoldable pub switch_account : Refreshed → RequestAuth → List SwitchTurn → Switched
unfolding switch_loop add_tried
switch_account m a turns =
    if not a.use_config_token
    then record { refreshed = m; auth = a; calls = []; result = some false }
    else if is_blank a.account_id
    then switch_loop m a turns
    else before_switch (released a.account_id ∷ []) (switch_loop m (give_up a.account_id a) turns)

unfoldable pub release_auth : RequestAuth → List PoolCall
release_auth a =
    if not a.use_config_token || is_blank a.account_id then [] else released a.account_id ∷ []

unfoldable pub mark_token_invalid : Refreshed → RequestAuth → Refreshed × RequestAuth
unfolding erase
mark_token_invalid m a = if not a.use_config_token || is_blank a.account_id then (m, a) else (
  erase a.account_id m,
  record a { account = record a.account { token = [] }; deepseek_token = [] },
)

-- `RefreshToken`, and whether it succeeded.
unfoldable pub refresh_token : Refreshed → RequestAuth → Outside → Ensured × Bool
unfolding login_and_persist
refresh_token m a w =
    let r = login_and_persist m (record a { account = record a.account { token = [] } }) w in
    if not a.use_config_token || is_blank a.account_id
    then (record { refreshed = m; auth = a; calls = []; error = none }, false)
    else (r, elim r.error [ none ↦ true | some _ ↦ false ])
