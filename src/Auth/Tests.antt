-- ===== src/Auth/Tests.antt =====
-- A request that finds one account without a token, and then another.
use generalcompute2api.Prelude.{
  ◌≢◌, sym, ◌∙◌, ◌≡◌, refl, true, false, List, [], ◌∷◌, ◌++◌, some, none, arith,
}
use generalcompute2api.Prelude.Text.{str_eq, trim_space, Str, codes}
use generalcompute2api.Pool.Lookup.{contains}
use generalcompute2api.Config.{Account, identifier}
use generalcompute2api.Auth.{
  identifier, contains, Attempt, Outside, RequestAuth, acquire_managed, acquired, login_error,
  new_auth, released, token,
}
use generalcompute2api.Auth.Changes.{SwitchTurn, release_auth, switch_account}
use generalcompute2api.Auth.Cooldown.{healthy, mark_account_cooldown}
use generalcompute2api.Prelude.Maps.{insert, lookup}
use generalcompute2api.Auth.Discards.{NoneRemoved, acquire_managed_never_discards}
use generalcompute2api.Auth.Leases.{Outstanding, acquire_managed-Settles, held}
use generalcompute2api.Auth.Switch.{
  Exchanged, failed_switch_releases_twice, switch_account-Exchanges,
}
use generalcompute2api.Auth.Turns.{acquire_managed_ends, is_running}

abbrev named_by : Str → Account
named_by email = record {
  name = [];
  remark = [];
  email = email;
  mobile = [];
  password = [];
  token = [];
  proxy_id = [];
  cookie = [];
  session_id = [];
  organization_id = [];
}

abbrev refuses : Outside
refuses = record {
  login = login_error (codes "muted");
  discards = true;
  persist = none;
  interval_hours = 6;
  now = 100;
}

abbrev answers : Outside
answers = record refuses { login = token (codes "t") }

abbrev two_attempts : List Attempt
two_attempts =
    record { account_count = 2; granted = some (named_by (codes "a@x")); outside = refuses }
    ∷ record { account_count = 2; granted = some (named_by (codes "b@x")); outside = answers }
    ∷ []

-- The first is given back, the second is kept.
second_is_kept :
    (acquire_managed (codes "me") [] [] [] none two_attempts).calls
    ≡ acquired (codes "a@x") ∷ released (codes "a@x") ∷ acquired (codes "b@x") ∷ []
unfolding acquire_managed
second_is_kept = refl

acquire_managed-Settles_example :
    Outstanding
      (acquire_managed (codes "me") [] [] [] none two_attempts).outcome
      []
      (held (acquire_managed (codes "me") [] [] [] none two_attempts).calls [])
acquire_managed-Settles_example = acquire_managed-Settles (codes "me") [] [] [] none two_attempts []

acquire_managed_never_discards_example :
    NoneRemoved (acquire_managed (codes "me") [] [] [] none two_attempts).calls
acquire_managed_never_discards_example =
    acquire_managed_never_discards (codes "me") [] [] [] none two_attempts

-- One account, and a second turn that finds it tried.
abbrev one_account : List Attempt
one_account =
    record { account_count = 1; granted = some (named_by (codes "a@x")); outside = refuses }
    ∷ record { account_count = 1; granted = none; outside = refuses }
    ∷ []

acquire_managed_ends_example :
    is_running (acquire_managed (codes "me") [] [] [] none one_account).outcome ≡ false
unfolding contains
acquire_managed_ends_example =
    acquire_managed_ends (codes "me") [] [] none one_account 1 (omega arith, (omega arith, tt))
      (refl, tt) (omega arith) (omega arith)

abbrev the_auth : RequestAuth
the_auth = record (new_auth (codes "me") (named_by (codes "a@x")) []) { account_id = codes "a@x" }

abbrev no_other : List SwitchTurn
no_other = record { granted = none; outside = refuses } ∷ []

switch_account-Exchanges_example :
    Exchanged
      (switch_account [] the_auth no_other).result
      (switch_account [] the_auth no_other).auth
      (codes "b@x" ∷ [])
      (held (switch_account [] the_auth no_other).calls (codes "a@x" ∷ codes "b@x" ∷ []))
switch_account-Exchanges_example =
    switch_account-Exchanges [] the_auth no_other (codes "b@x" ∷ []) refl refl

failed_switch_releases_twice_example :
    held
      ((switch_account [] the_auth no_other).calls
        ++ release_auth (switch_account [] the_auth no_other).auth)
      (codes "a@x" ∷ codes "a@x" ∷ [])
    ≡ []
failed_switch_releases_twice_example =
    failed_switch_releases_twice [] the_auth refuses [] [] refl refl

-- One account cools down and another is offered.
abbrev both_accounts : List Account
both_accounts = named_by (codes "a@x") ∷ named_by (codes "b@x") ∷ []

b_is_healthy :
    healthy (mark_account_cooldown [] none (codes "a@x") 60 100).0 130 both_accounts
    ≡ named_by (codes "b@x") ∷ []
unfolding mark_account_cooldown insert lookup str_eq identifier trim_space
b_is_healthy = refl

some_is_healthy :
    healthy (mark_account_cooldown [] none (codes "a@x") 60 100).0 130 both_accounts ≢ []
some_is_healthy e = clash (sym b_is_healthy ∙ e)
  where
    clash : named_by (codes "b@x") ∷ [] ≢ []
    clash e = cc
