-- ===== src/Responses.antt =====
-- internal/httpapi/openai/responses/response_store.go: responses kept for a while, each for its owner.
-- The time is an argument, a nil map is `none`, and copying a map is the identity.
pub mod Keys
pub mod Owners
pub mod Tests
use generalcompute2api.Prelude.{
  ℕ, zero, suc, ◌+◌, Bool, true, false, not, ◌&&◌, List, [], ◌∷◌, ◌++◌, Option, none, some,
  if◌then◌else◌, ltb, select,
}
use generalcompute2api.Prelude.Maps.{lookup, insert}
use generalcompute2api.Prelude.Text.{Str, str_eq}

pub record StoredResponse (V : Type 0) : Type 0 where
  pub owner : Str
  pub value : V
  pub expires_at : ℕ

pub record ResponseStore (V : Type 0) : Type 0 where
  pub ttl : ℕ
  pub items : List (Str × StoredResponse V)

-- 15 minutes where the duration is not positive.
abbrev pub default_ttl : ℕ
default_ttl = 900

abbrev pub ttl_or_default : ℕ → ℕ
ttl_or_default zero = default_ttl
ttl_or_default (suc n) = suc n

abbrev pub new_response_store : (V : Type 0) → ℕ → ResponseStore V
new_response_store V ttl = record { ttl = ttl_or_default ttl; items = [] }

unfoldable pub response_store_key : Str → Str → Str
response_store_key owner id = owner ++ (0 ∷ id)

module _ {V : Type 0} where
  abbrev pub is_live : ℕ → Str × StoredResponse V → Bool
  is_live now (key, item) = not (ltb item.expires_at now)

  unfoldable pub sweep : ResponseStore V → ℕ → ResponseStore V
  sweep s now = record s { items = select (is_live now) s.items }

  abbrev pub store_at : ResponseStore V → Str → Str → V → ℕ → ResponseStore V
  store_at s owner id v now = record s {
    items =
        insert (response_store_key owner id)
          (record { owner = owner; value = v; expires_at = now + s.ttl }) s.items;
  }

  unfoldable pub put : ResponseStore V → Str → Str → Option V → ℕ → ResponseStore V
  put s [] id v now = s
  put s (c ∷ o) [] v now = s
  put s (c ∷ o) (d ∷ i) none now = s
  put s (c ∷ o) (d ∷ i) (some v) now = store_at (sweep s now) (c ∷ o) (d ∷ i) v now

  abbrev pub owned : Str → Option (StoredResponse V) → Option V
  owned owner none = none
  owned owner (some item) = if str_eq item.owner owner then some item.value else none

  unfoldable pub get : ResponseStore V → Str → Str → ℕ → ResponseStore V × Option V
  get s [] id now = (s, none)
  get s (c ∷ o) [] now = (s, none)
  get s (c ∷ o) (d ∷ i) now =
      let swept = sweep s now in
      (swept, owned (c ∷ o) (lookup (response_store_key (c ∷ o) (d ∷ i)) swept.items))
