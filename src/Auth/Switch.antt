-- ===== src/Auth/Switch.antt =====
-- A request that changes its account.
use generalcompute2api.Prelude.{
  subst, ◌≡◌, refl, ap, sym, ◌∙◌, Bool, true, false, not, ◌||◌, List, [], ◌∷◌, ◌++◌, Option, none,
  some, if◌then◌else◌,
}
use generalcompute2api.Prelude.Text.{Str}
use generalcompute2api.Config.{Account, identifier}
use generalcompute2api.Auth.{
  AuthError, Ensured, Outside, PoolCall, Refreshed, RequestAuth, acquired, add_tried,
  ensure_managed_token, is_blank, released,
}
use generalcompute2api.Auth.Changes.{
  SwitchTurn, Switched, before_switch, give_up, release_auth, settle_switch, switch_account,
  switch_loop,
}
use generalcompute2api.Auth.Leases.{
  KeepsLeases, drop_lease, drop_lease_own, ensure_managed_token-KeepsLeases, held, held-append,
}

-- The leases after the loop: one of the new account if it succeeded, and none otherwise, over the others.
abbrev pub Exchanged : Option Bool → RequestAuth → List Str → List Str → Type 0
Exchanged none a others now_held = now_held ≡ others
Exchanged (some false) a others now_held = now_held ≡ others
Exchanged (some true) a others now_held = now_held ≡ a.account_id ∷ others

abbrev pub Exchanges : Switched → List Str → List Str → Type 0
Exchanges r leases others = Exchanged r.result r.auth others (held r.calls leases)

before_switch-Exchanges :
    (cs : List PoolCall) (r : Switched) (leases mid others : List Str)
    → held cs leases ≡ mid
    → Exchanges r mid others
    → Exchanges (before_switch cs r) leases others
before_switch-Exchanges cs r leases mid others h k = rw (held-append cs r.calls leases, h) k

settle_switch-Exchanges :
    (id : Str) (a : RequestAuth) (r : Ensured) (others : List Str)
    (next : Refreshed → RequestAuth → Switched)
    → a.account_id ≡ id
    → KeepsLeases a r
    → ((m : Refreshed) (b : RequestAuth) → Exchanges (next m b) others others)
    → Exchanges (settle_switch id r next) others others
settle_switch-Exchanges id a r others next same h k = go r.error
  where
    go :
        (o : Option AuthError)
        → Exchanges (settle_switch id (record r { error = o }) next) others others
    go none = h.no_lease (id ∷ others) ∙ ap (λ i. i ∷ others) (sym (h.same_account ∙ same))
    go (some e) =
        before_switch-Exchanges (acquired id ∷ (r.calls ++ (released id ∷ [])))
          (next r.refreshed (record r.auth { tried_accounts = add_tried id r.auth.tried_accounts }))
          others others others
          (held-append r.calls (released id ∷ []) (id ∷ others)
            ∙ ap (drop_lease id) (h.no_lease (id ∷ others))
            ∙ drop_lease_own id others)
          (k r.refreshed (record r.auth { tried_accounts = add_tried id r.auth.tried_accounts }))

switch_loop-Exchanges :
    (m : Refreshed) (a : RequestAuth) (xs : List SwitchTurn) (others : List Str)
    → Exchanges (switch_loop m a xs) others others
unfolding switch_loop
switch_loop-Exchanges m a [] others = refl
switch_loop-Exchanges m a (x ∷ xs) others =
    go x.granted (λ m' a'. switch_loop-Exchanges m' a' xs others)
  where
    go :
        (o : Option Account)
        → ((m' : Refreshed) (a' : RequestAuth) → Exchanges (switch_loop m' a' xs) others others)
        → Exchanges
            (elim o [
              | none ↦ record { refreshed = m; auth = a; calls = []; result = some false }
              | some acc ↦
                  settle_switch
                    (identifier acc)
                    (ensure_managed_token m
                      (record a { account = acc; account_id = identifier acc })
                      x.outside)
                    (λ m' a'. switch_loop m' a' xs)
            ])
            others
            others
    go none k = refl
    go (some acc) k =
        settle_switch-Exchanges (identifier acc)
          (record a { account = acc; account_id = identifier acc })
          (ensure_managed_token m (record a { account = acc; account_id = identifier acc })
            x.outside)
          others (λ m' a'. switch_loop m' a' xs) refl
          (ensure_managed_token-KeepsLeases m
            (record a { account = acc; account_id = identifier acc }) x.outside)
          k

switch_account_managed :
    (m : Refreshed) (a : RequestAuth) (xs : List SwitchTurn)
    → a.use_config_token ≡ true
    → is_blank a.account_id ≡ false
    → switch_account m a xs
      ≡ before_switch (released a.account_id ∷ []) (switch_loop m (give_up a.account_id a) xs)
unfolding switch_account
switch_account_managed m a xs h k =
    ap (λ (b : Bool). if not b then refusal else if is_blank a.account_id then plain else switched)
      h
    ∙ ap (λ (b : Bool). if b then plain else switched) k
  where
    refusal : Switched
    refusal = record { refreshed = m; auth = a; calls = []; result = some false }

    plain : Switched
    plain = switch_loop m a xs

    switched : Switched
    switched =
        before_switch (released a.account_id ∷ []) (switch_loop m (give_up a.account_id a) xs)

release_auth_managed :
    (a : RequestAuth)
    → a.use_config_token ≡ true
    → is_blank a.account_id ≡ false
    → release_auth a ≡ released a.account_id ∷ []
unfolding release_auth
release_auth_managed a h k =
    ap (λ (b : Bool). if not b || is_blank a.account_id then [] else released a.account_id ∷ []) h
    ∙ ap (λ (b : Bool). if b then [] else released a.account_id ∷ []) k

-- A managed request that holds a lease of its account and changes it holds just a lease of the new account if
-- that succeeds, and none if it does not, whatever the pool and the outside answer in each turn.
pub switch_account-Exchanges :
    (m : Refreshed) (a : RequestAuth) (xs : List SwitchTurn) (others : List Str)
    → a.use_config_token ≡ true
    → is_blank a.account_id ≡ false
    → Exchanged
        (switch_account m a xs).result
        (switch_account m a xs).auth
        others
        (held (switch_account m a xs).calls (a.account_id ∷ others))
switch_account-Exchanges m a xs others h k =
    subst (λ r. Exchanges r (a.account_id ∷ others) others)
      (sym (switch_account_managed m a xs h k))
      (before_switch-Exchanges (released a.account_id ∷ [])
        (switch_loop m (give_up a.account_id a) xs) (a.account_id ∷ others) others others
        (drop_lease_own a.account_id others)
        (switch_loop-Exchanges m (give_up a.account_id a) xs others))

-- Where no other account can be had, the request has given its lease back and still names the account, so
-- the release that its handler defers gives back a second lease of that account: that of another request,
-- if one holds it.
pub failed_switch_releases_twice :
    (m : Refreshed) (a : RequestAuth) (w : Outside) (xs : List SwitchTurn) (others : List Str)
    → a.use_config_token ≡ true
    → is_blank a.account_id ≡ false
    → held
        ((switch_account m a (record { granted = none; outside = w } ∷ xs)).calls
          ++ release_auth (switch_account m a (record { granted = none; outside = w } ∷ xs)).auth)
        (a.account_id ∷ a.account_id ∷ others)
      ≡ others
unfolding switch_loop
failed_switch_releases_twice m a w xs others h k =
    ap (λ r. held (r.calls ++ release_auth r.auth) (a.account_id ∷ a.account_id ∷ others))
      (switch_account_managed m a (record { granted = none; outside = w } ∷ xs) h k)
    ∙ ap (λ cs. held (released a.account_id ∷ cs) (a.account_id ∷ a.account_id ∷ others))
        (release_auth_managed (give_up a.account_id a) h k)
    ∙ ap (drop_lease a.account_id) (drop_lease_own a.account_id (a.account_id ∷ others))
    ∙ drop_lease_own a.account_id others
