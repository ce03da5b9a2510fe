-- ===== src/Responses/Owners.antt =====
-- Whose responses a store gives out.
use generalcompute2api.Prelude.{
  ℕ, ◌≡◌, refl, ap, sym, subst, ◌∙◌, List, [], ◌∷◌, ◌++◌, Option, none, some, select, Bool-cases,
  inl, inr, both_branches,
}
use generalcompute2api.Prelude.Maps.{insert, lookup}
use generalcompute2api.Prelude.Text.{Str, str_eq, str_eq_iff}
use generalcompute2api.Responses.{
  ResponseStore, StoredResponse, get, is_live, new_response_store, owned, put, response_store_key,
  sweep,
}

-- A call of `put`.
pub record Put (V : Type 0) : Type 0 where
  pub owner : Str
  pub id : Str
  pub value : Option V
  pub now : ℕ

abbrev pub put_call : {V : Type 0} → ResponseStore V → Put V → ResponseStore V
put_call s p = put s p.owner p.id p.value p.now

-- The store after some puts, the last one first.
abbrev pub after_puts : {V : Type 0} → ResponseStore V → List (Put V) → ResponseStore V
after_puts s [] = s
after_puts s (p ∷ ps) = put_call (after_puts s ps) p

-- A response was put for this owner under this identifier.
pub data WasPut {V : Type 0} (owner id : Str) (v : V) : List (Put V) → Type 0 where
  now_put :
      {p : Put V} {ps : List (Put V)}
      → p.owner ≡ owner
      → p.id ≡ id
      → p.value ≡ some v
      → WasPut owner id v (p ∷ ps)
  put_before : {p : Put V} {ps : List (Put V)} → WasPut owner id v ps → WasPut owner id v (p ∷ ps)

-- What is known of an entry: it was put under an identifier that its key spells.
pub record Known {V : Type 0} (ps : List (Put V)) (k : Str) (item : StoredResponse V) : Type 0 where
  pub id : Str
  pub spelled : k ≡ response_store_key item.owner id
  pub was_put : WasPut item.owner id item.value ps

abbrev AllKnown : {V : Type 0} → List (Put V) → List (Str × StoredResponse V) → Type 0
AllKnown ps [] = Unit {0}
AllKnown ps ((k, item) ∷ m) = Known ps k item × AllKnown ps m

append_cancel : (xs ys zs : Str) → xs ++ ys ≡ xs ++ zs → ys ≡ zs
append_cancel [] ys zs h = h
append_cancel (x ∷ xs) ys zs h = append_cancel xs ys zs (cc)

response_store_key_inj :
    (owner a b : Str) → response_store_key owner a ≡ response_store_key owner b → a ≡ b
unfolding response_store_key
response_store_key_inj owner a b h = tails (append_cancel owner (0 ∷ a) (0 ∷ b) h)
  where
    tails : ◌≡◌ {A = Str} (0 ∷ a) (0 ∷ b) → a ≡ b
    tails e = cc

module _ {V : Type 0} where
  later-AllKnown :
      (p : Put V) (ps : List (Put V)) (m : List (Str × StoredResponse V))
      → AllKnown ps m
      → AllKnown (p ∷ ps) m
  later-AllKnown p ps [] h = tt
  later-AllKnown p ps ((k, item) ∷ m) h = (
    record { id = h.0.id; spelled = h.0.spelled; was_put = put_before h.0.was_put },
    later-AllKnown p ps m h.1,
  )

  select-AllKnown :
      (now : ℕ) (ps : List (Put V)) (m : List (Str × StoredResponse V))
      → AllKnown ps m
      → AllKnown ps (select (is_live now) m)
  select-AllKnown now ps [] h = tt
  select-AllKnown now ps ((k, item) ∷ m) h =
      both_branches (AllKnown ps) (is_live now (k, item)) (h.0, select-AllKnown now ps m h.1)
        (select-AllKnown now ps m h.1)

  insert-AllKnown :
      (k : Str) (item : StoredResponse V) (ps : List (Put V)) (m : List (Str × StoredResponse V))
      → Known ps k item
      → AllKnown ps m
      → AllKnown ps (insert k item m)
  unfolding insert
  insert-AllKnown k item ps [] h g = (h, tt)
  insert-AllKnown k item ps ((j, old) ∷ m) h g =
      both_branches (AllKnown ps) (str_eq j k) (h, g.1) (g.0, insert-AllKnown k item ps m h g.1)

  some_inj : {a b : StoredResponse V} → some a ≡ some b → a ≡ b
  some_inj e = cc

  lookup-Known :
      (k : Str) (item : StoredResponse V) (ps : List (Put V)) (m : List (Str × StoredResponse V))
      → AllKnown ps m
      → lookup k m ≡ some item
      → Known ps k item
  unfolding lookup
  lookup-Known k item ps [] h e = absurd (cc)
  lookup-Known k item ps ((j, old) ∷ m) h e = elim (Bool-cases (str_eq j k)) [
    | inl same ↦
        subst (λ i. Known ps k i) (some_inj (rw same at e))
          (subst (λ i. Known ps i old) ((str_eq_iff j k).0 same) h.0)
    | inr other ↦ lookup-Known k item ps m h.1 (rw other at e)
  ]

  put-AllKnown :
      (s : ResponseStore V) (p : Put V) (ps : List (Put V))
      → AllKnown ps s.items
      → AllKnown (p ∷ ps) (put_call s p).items
  unfolding put sweep
  put-AllKnown s p ps h = go p.owner p.id p.value refl refl refl
    where
      go :
          (o i : Str) (v : Option V)
          → p.owner ≡ o
          → p.id ≡ i
          → p.value ≡ v
          → AllKnown (p ∷ ps) (put s o i v p.now).items
      go [] i v a b e = later-AllKnown p ps s.items h
      go (c ∷ o) [] v a b e = later-AllKnown p ps s.items h
      go (c ∷ o) (d ∷ i) none a b e = later-AllKnown p ps s.items h
      go (c ∷ o) (d ∷ i) (some v) a b e =
          insert-AllKnown (response_store_key (c ∷ o) (d ∷ i)) _ (p ∷ ps)
            (select (is_live p.now) s.items)
            (record { id = d ∷ i; spelled = refl; was_put = now_put a b e })
            (later-AllKnown p ps (select (is_live p.now) s.items)
              (select-AllKnown p.now ps s.items h))

  after_puts-AllKnown :
      (ttl : ℕ) (ps : List (Put V)) → AllKnown ps (after_puts (new_response_store V ttl) ps).items
  after_puts-AllKnown ttl [] = tt
  after_puts-AllKnown ttl (p ∷ ps) =
      put-AllKnown (after_puts (new_response_store V ttl) ps) p ps (after_puts-AllKnown ttl ps)

  owned-WasPut :
      (owner id : Str) (o : Option (StoredResponse V)) (v : V) (ps : List (Put V))
      → ((item : StoredResponse V) → o ≡ some item → Known ps (response_store_key owner id) item)
      → owned owner o ≡ some v
      → WasPut owner id v ps
  owned-WasPut owner id none v ps h e = absurd (cc)
  owned-WasPut owner id (some item) v ps h e = elim (Bool-cases (str_eq item.owner owner)) [
    | inr other ↦ absurd (clash (rw other at e))
    | inl same ↦
        from_known (h item refl) ((str_eq_iff item.owner owner).0 same) (value_inj (rw same at e))
  ]
    where
      clash : ◌≡◌ {A = Option V} none (some v) → ⊥
      clash e = cc

      value_inj : some item.value ≡ some v → item.value ≡ v
      value_inj e = cc

      from_known :
          Known ps (response_store_key owner id) item
          → item.owner ≡ owner
          → item.value ≡ v
          → WasPut owner id v ps
      from_known k a b =
          subst (λ i. WasPut owner i v ps)
            (sym (
              response_store_key_inj owner id k.id
                (k.spelled ∙ ap (λ o. response_store_key o k.id) a)))
            (subst (λ w. WasPut owner k.id w ps) b
              (subst (λ o. WasPut o k.id item.value ps) a k.was_put))

  -- From a new store and any puts, whatever the times and however owners and identifiers are spelled, a
  -- response that is given out to an owner for an identifier was put for just that owner and identifier.
  pub get-WasPut :
      (ttl : ℕ) (ps : List (Put V)) (owner id : Str) (v : V) (now : ℕ)
      → (get (after_puts (new_response_store V ttl) ps) owner id now).1 ≡ some v
      → WasPut owner id v ps
  unfolding get sweep
  get-WasPut ttl ps [] id v now e = absurd (cc)
  get-WasPut ttl ps (c ∷ o) [] v now e = absurd (cc)
  get-WasPut ttl ps (c ∷ o) (d ∷ i) v now e =
      owned-WasPut (c ∷ o) (d ∷ i)
        (lookup (response_store_key (c ∷ o) (d ∷ i))
          (select (is_live now) (after_puts (new_response_store V ttl) ps).items))
        v ps
        (λ item k.
          lookup-Known (response_store_key (c ∷ o) (d ∷ i)) item ps _
            (select-AllKnown now ps (after_puts (new_response_store V ttl) ps).items
              (after_puts-AllKnown ttl ps))
            k)
        e
