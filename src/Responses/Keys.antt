-- ===== src/Responses/Keys.antt =====
-- Lookups in a swept store, and what the key of a stored response tells.
use generalcompute2api.Prelude.{
  ℕ, ◌+◌, ◌≤◌, ◌≡◌, ◌∙◌, not, List, [], ◌∷◌, Option, none, some, arith, if◌then◌else◌, ltb, select,
}
use generalcompute2api.Prelude.Maps.{
  lookup, lookup-insert, IsMap, only, insert-IsMap, select-IsMap, lookup-select-only,
}
use generalcompute2api.Prelude.Text.{Str, str_eq, str_eq_refl}
use generalcompute2api.Responses.{
  ResponseStore, StoredResponse, get, is_live, put, response_store_key, sweep,
}

module _ {V : Type 0} where
  -- What is found after a sweep has not expired.
  pub lookup-swept :
      (now : ℕ) (k : Str) (m : List (Str × StoredResponse V)) (item : StoredResponse V)
      → lookup k (select (is_live now) m) ≡ some item
      → now ≤ item.expires_at
  unfolding lookup
  lookup-swept now k [] item h = absurd (cc)
  lookup-swept now k ((j, w) ∷ m) item h = ground (arith, lookup-swept now k m item)

  -- What is put under a key.
  abbrev pub stored : ResponseStore V → Str → V → ℕ → StoredResponse V
  stored s owner v now = record { owner = owner; value = v; expires_at = now + s.ttl }

  sweep-IsMap : (s : ResponseStore V) (now : ℕ) → IsMap s.items → IsMap (sweep s now).items
  unfolding sweep
  sweep-IsMap s now h =
      select-IsMap (λ (item : StoredResponse V). not (ltb item.expires_at now)) s.items h

  lookup-sweep :
      (s : ResponseStore V) (k : Str) (now : ℕ)
      → IsMap s.items
      → lookup k (sweep s now).items
        ≡ only (λ (item : StoredResponse V). not (ltb item.expires_at now)) (lookup k s.items)
  unfolding sweep
  lookup-sweep s k now h =
      lookup-select-only (λ (item : StoredResponse V). not (ltb item.expires_at now)) k s.items h

  pub put-IsMap :
      (s : ResponseStore V) (owner id : Str) (v : Option V) (now : ℕ)
      → IsMap s.items
      → IsMap (put s owner id v now).items
  unfolding put
  put-IsMap s [] id v now h = h
  put-IsMap s (c ∷ o) [] v now h = h
  put-IsMap s (c ∷ o) (d ∷ i) none now h = h
  put-IsMap s (c ∷ o) (d ∷ i) (some v) now h =
      insert-IsMap (response_store_key (c ∷ o) (d ∷ i)) (stored (sweep s now) (c ∷ o) v now)
        (sweep s now).items (sweep-IsMap s now h)

  lookup-put :
      (s : ResponseStore V) (c d : ℕ) (o i : Str) (v : V) (now : ℕ)
      → lookup (response_store_key (c ∷ o) (d ∷ i)) (put s (c ∷ o) (d ∷ i) (some v) now).items
        ≡ some (stored s (c ∷ o) v now)
  unfolding put sweep
  lookup-put s c d o i v now =
      lookup-insert key key (stored s (c ∷ o) v now) (sweep s now).items ∙ rw (str_eq_refl key)
    where
      key : Str
      key = response_store_key (c ∷ o) (d ∷ i)

  get-lookup :
      (s : ResponseStore V) (c d : ℕ) (o i : Str) (item : StoredResponse V) (now : ℕ)
      → IsMap s.items
      → lookup (response_store_key (c ∷ o) (d ∷ i)) s.items ≡ some item
      → (get s (c ∷ o) (d ∷ i) now).1 ≡ (
          if ltb item.expires_at now
          then none
          else if str_eq item.owner (c ∷ o)
          then some item.value
          else none)
  unfolding get
  get-lookup s c d o i item now h e =
      rw (lookup-sweep s (response_store_key (c ∷ o) (d ∷ i)) now h, e) (ground arith)

  -- In a store that holds each key once, a response that was put is there for its owner until it expires,
  -- and not after.
  pub get-put :
      (s : ResponseStore V) (c d : ℕ) (o i : Str) (v : V) (now later : ℕ)
      → IsMap s.items
      → (get (put s (c ∷ o) (d ∷ i) (some v) now) (c ∷ o) (d ∷ i) later).1
        ≡ (if ltb (now + s.ttl) later then none else some v)
  get-put s c d o i v now later h =
      get-lookup (put s (c ∷ o) (d ∷ i) (some v) now) c d o i (stored s (c ∷ o) v now) later
        (put-IsMap s (c ∷ o) (d ∷ i) (some v) now h) (lookup-put s c d o i v now)
      ∙ rw (str_eq_refl (c ∷ o))
