-- ===== src/Auth/Cooldown.antt =====
-- internal/auth/request.go: the accounts that cool down after the upstream service refused them. The lock is
-- left out, and times are in the unit of the clock.
use generalcompute2api.Prelude.{
  ℕ, ◌+◌, ◌<◌, ◌≡◌, ◌≢◌, refl, ap, sym, ◌∙◌, Bool, true, false, not, List, [], ◌∷◌, Option, none,
  some, if◌then◌else◌, ltb, select, All, lt→ltb,
}
use generalcompute2api.Prelude.Maps.{insert, lookup, lookup-insert}
use generalcompute2api.Prelude.Text.{Str, str_eq, str_eq_refl}
use generalcompute2api.Config.{Account, identifier}
use generalcompute2api.Pool.{Pool}
use generalcompute2api.Pool.Changes.{remove_account}

-- `cooldownUntil`.
abbrev pub Cooldowns : Type 0
Cooldowns = List (Str × ℕ)

-- The pool is there once a request has come.
abbrev pub remove_from : Option Pool → Str → Option Pool
remove_from none id = none
remove_from (some p) id = some (remove_account p id)

unfoldable pub mark_account_cooldown :
    Cooldowns → Option Pool → Str → ℕ → ℕ → Cooldowns × Option Pool
unfolding insert
mark_account_cooldown m p [] duration now = (m, p)
mark_account_cooldown m p (c ∷ i) duration now =
    (insert (c ∷ i) (now + duration) m, remove_from p (c ∷ i))

abbrev pub is_before : ℕ → Option ℕ → Bool
is_before now none = false
is_before now (some until) = ltb now until

abbrev pub is_cooling : Cooldowns → ℕ → Account → Bool
is_cooling m now acc = is_before now (lookup (identifier acc) m)

abbrev pub healthy : Cooldowns → ℕ → List Account → List Account
healthy m now accounts = select (λ acc. not (is_cooling m now acc)) accounts

abbrev or_all : List Account → List Account → List Account
or_all [] accounts = accounts
or_all (x ∷ xs) accounts = x ∷ xs

unfoldable pub filter_cooldowned_accounts : Cooldowns → ℕ → List Account → List Account
unfolding lookup identifier
filter_cooldowned_accounts [] now accounts = accounts
filter_cooldowned_accounts (c ∷ m) now accounts = or_all (healthy (c ∷ m) now accounts) accounts

healthy-All :
    (m : Cooldowns) (now : ℕ) (accounts : List Account)
    → All (λ acc. is_cooling m now acc ≡ false) (healthy m now accounts)
healthy-All m now [] = tt
healthy-All m now (acc ∷ accounts) = go (is_cooling m now acc) refl (healthy-All m now accounts)
  where
    go :
        (b : Bool)
        → is_cooling m now acc ≡ b
        → All (λ a. is_cooling m now a ≡ false) (healthy m now accounts)
        → All
            (λ a. is_cooling m now a ≡ false)
            (if not b then acc ∷ healthy m now accounts else healthy m now accounts)
    go true h k = k
    go false h k = (h, k)

or_all-All :
    (P : Account → Type 0) (xs accounts : List Account)
    → xs ≢ []
    → All P xs
    → All P (or_all xs accounts)
or_all-All P [] accounts h k = absurd (h refl)
or_all-All P (x ∷ xs) accounts h k = k

filtered_is_healthy :
    (m : Cooldowns) (now : ℕ) (accounts : List Account)
    → m ≢ []
    → healthy m now accounts ≢ []
    → All (λ acc. is_cooling m now acc ≡ false) (filter_cooldowned_accounts m now accounts)
unfolding filter_cooldowned_accounts
filtered_is_healthy [] now accounts h k = absurd (h refl)
filtered_is_healthy (c ∷ m) now accounts h k =
    or_all-All (λ acc. is_cooling (c ∷ m) now acc ≡ false) (healthy (c ∷ m) now accounts) accounts k
      (healthy-All (c ∷ m) now accounts)

insert-ne-nil : (k : Str) (v : ℕ) (m : Cooldowns) → insert k v m ≢ []
unfolding insert
insert-ne-nil k v [] e = cc
insert-ne-nil k v ((j, w) ∷ m) e = go (str_eq j k) e
  where
    go : (b : Bool) → (if b then (k, v) ∷ m else (j, w) ∷ insert k v m) ≢ []
    go true e = cc
    go false e = cc

All-map {ℓ} :
    {P Q : Account → Type ℓ} (xs : List Account)
    → ((acc : Account) → P acc → Q acc)
    → All P xs
    → All Q xs
All-map [] f h = tt
All-map (x ∷ xs) f h = (f x h.0, All-map xs f h.1)

-- An account that was sent to cool down is not offered before its time is over, as long as some account that
-- is not cooling down can be.
pub cooled_account_waits :
    (m : Cooldowns) (p : Option Pool) (c : ℕ) (i : Str) (duration now later : ℕ)
    (accounts : List Account)
    → later < now + duration
    → healthy (mark_account_cooldown m p (c ∷ i) duration now).0 later accounts ≢ []
    → All
        (λ acc. identifier acc ≢ c ∷ i)
        (filter_cooldowned_accounts
          (mark_account_cooldown m p (c ∷ i) duration now).0
          later
          accounts)
unfolding mark_account_cooldown
cooled_account_waits m p c i duration now later accounts soon some_healthy =
    All-map (filter_cooldowned_accounts cooled later accounts) other (
      filtered_is_healthy cooled later accounts (insert-ne-nil (c ∷ i) (now + duration) m)
        some_healthy)
  where
    cooled : Cooldowns
    cooled = insert (c ∷ i) (now + duration) m

    other : (acc : Account) → is_cooling cooled later acc ≡ false → identifier acc ≢ c ∷ i
    other acc h e =
        clash (sym (ap (is_before later) until) ∙ h) (lt→ltb later (now + duration) soon)
      where
        until : lookup (identifier acc) cooled ≡ some (now + duration)
        until =
            ap (λ k. lookup k cooled) e
            ∙ lookup-insert (c ∷ i) (c ∷ i) (now + duration) m
            ∙ rw (str_eq_refl (c ∷ i)) refl

        clash : ltb later (now + duration) ≡ false → ltb later (now + duration) ≡ true → ⊥
        clash a b = cc
