-- ===== src/Pool/Waiting.antt =====
-- `AcquireWait` in internal/account/pool_acquire.go: what a turn of its loop answers, who is woken by a
-- release, and what becomes of a wake-up whose waiter has given up.
use generalcompute2api.Prelude.{
  ℕ, zero, suc, ◌+◌, ◌≤◌, ◌<◌, ◌≡◌, refl, ap, subst, sym, ◌∙◌, ◌≢◌, Bool, true, false, List, [],
  ◌∷◌, ◌++◌, Option, none, some, inl, inr, Option-cases, arith, length, length-append, All,
}
use generalcompute2api.Prelude.Text.{Str}
use generalcompute2api.Config.{Account}
use generalcompute2api.Pool.{
  Pool, Attempt, waits_on, granted, refused, in_use_of, acquire, acquire_wait, release,
  remove_waiter, remove_number, notify, notify_waiter, release_count, enqueue, after_acquire,
  after_failure, can_queue, has_room, target_known,
}
use generalcompute2api.Pool.Waiters.{IsOrderly, count}
use generalcompute2api.Pool.Release.{release_counts}
use generalcompute2api.Prelude.Text.{str_eq_refl}
use generalcompute2api.Pool.Lookup.{find_account}
use generalcompute2api.Pool.Acquire.{
  Answers, Grant, IsIneligible, grants, refuses, acquire-Answers, acquire-Grant, candidates,
}

-- A caller may wait: it asks for no account of its own, or for one that is known and not excluded, and
-- fewer wait than the queue takes.
pub record MayWait (p : Pool) (target : Str) (exclude : Str → Bool) : Type 0 where
  pub target_is_there :
      target ≢ []
      → (exclude target ≡ false) × ((acc : Account) × (find_account p.lookup target ≡ some acc))
  pub room : (n : ℕ) → p.max_queue_size ≡ some n → length p.waiters < n

has_room-lt : (o : Option ℕ) (waiting n : ℕ) → has_room o waiting ≡ true → o ≡ some n → waiting < n
has_room-lt none waiting n h e = cc
has_room-lt (some limit) waiting n h e = ground (arith, h, e)

lt-has_room :
    (o : Option ℕ) (waiting : ℕ) → ((n : ℕ) → o ≡ some n → waiting < n) → has_room o waiting ≡ true
lt-has_room none waiting h = refl
lt-has_room (some limit) waiting h = ground (arith, h limit refl)

known-there :
    (p : Pool) (target : Str) (exclude : Str → Bool)
    → target_known p target exclude ≡ true
    → target ≢ []
    → (exclude target ≡ false) × ((acc : Account) × (find_account p.lookup target ≡ some acc))
known-there p [] exclude h ne = absurd (ne refl)
known-there p (c ∷ s) exclude h ne = elim (Option-cases (find_account p.lookup (c ∷ s))) [
  | inl missing ↦ absurd (ground (arith, h, missing))
  | inr (acc, found) ↦ (ground (arith, h), (acc, found))
]

there-known :
    (p : Pool) (target : Str) (exclude : Str → Bool)
    → (target ≢ []
        → (exclude target ≡ false) × ((acc : Account) × (find_account p.lookup target ≡ some acc)))
    → target_known p target exclude ≡ true
there-known p [] exclude h = refl
there-known p (c ∷ s) exclude h = let (shown, (acc, found)) = h (λ e. cc) in rw (shown, found) refl

can_queue-MayWait :
    (p : Pool) (target : Str) (exclude : Str → Bool)
    → can_queue p target exclude ≡ true
    → MayWait p target exclude
unfolding can_queue
can_queue-MayWait p target exclude h = record {
  target_is_there = known-there p target exclude (ground (arith, h));
  room = λ n. has_room-lt p.max_queue_size (length p.waiters) n (ground (arith, h));
}

MayWait-can_queue :
    (p : Pool) (target : Str) (exclude : Str → Bool)
    → MayWait p target exclude
    → can_queue p target exclude ≡ true
unfolding can_queue
MayWait-can_queue p target exclude w =
    rw
      (
        there-known p target exclude w.target_is_there,
        lt-has_room p.max_queue_size (length p.waiters) w.room,
      )
      refl

-- A turn on a context that is not done.
pub data WaitTurn (p : Pool) (target : Str) (exclude : Str → Bool) : Pool × Attempt → Type 0 where
  gets :
      {r : Pool × Attempt} (q : Pool) (acc : Account)
      → Grant p q exclude acc
      → r ≡ (q, granted acc)
      → WaitTurn p target exclude r
  gives_up :
      {r : Pool × Attempt}
      → All (IsIneligible p exclude) (candidates p target)
      → ¬ MayWait p target exclude
      → r ≡ (p, refused)
      → WaitTurn p target exclude r
  queues :
      {r : Pool × Attempt} (q : Pool)
      → All (IsIneligible p exclude) (candidates p target)
      → MayWait p target exclude
      → q
        ≡ record p { waiters = p.waiters ++ (p.next_waiter ∷ []); next_waiter = p.next_waiter + 1 }
      → ((n : ℕ) → p.max_queue_size ≡ some n → length q.waiters ≤ n)
      → r ≡ (q, waits_on p.next_waiter)
      → WaitTurn p target exclude r

clash : true ≡ false → ⊥
clash e = ground arith

room_left :
    (p : Pool) (target : Str) (exclude : Str → Bool)
    → can_queue p target exclude ≡ true
    → (n : ℕ) → p.max_queue_size ≡ some n
    → length (p.waiters ++ (p.next_waiter ∷ [])) ≤ n
unfolding can_queue
room_left p target exclude h n e = ground (arith, length-append p.waiters (p.next_waiter ∷ []))

-- A turn of the loop grants an eligible account, or else no candidate was eligible. Then the caller joins the
-- end of the queue under a fresh channel, if it asks for no account of its own or for one that is known and
-- not excluded, and fewer callers wait than the limit of the queue, within which the queue stays. Otherwise
-- it is refused with the pool unchanged.
pub acquire_wait-WaitTurn :
    (p : Pool) (target : Str) (exclude : Str → Bool)
    → WaitTurn p target exclude (acquire_wait false p target exclude)
unfolding acquire_wait
acquire_wait-WaitTurn p target exclude = go (acquire-Answers p target exclude) refl
  where
    fail :
        (b : Bool)
        → All (IsIneligible p exclude) (candidates p target)
        → can_queue p target exclude ≡ b
        → WaitTurn p target exclude (after_failure p b)
    fail true others e =
        queues (enqueue p) others (can_queue-MayWait p target exclude e) refl
          (room_left p target exclude e) refl
    fail false others e =
        gives_up others (λ w. clash (sym (MayWait-can_queue p target exclude w) ∙ e)) refl

    go :
        {r : Pool × Option Account}
        → Answers p exclude (candidates p target) r
        → acquire p target exclude ≡ r
        → WaitTurn p target exclude (after_acquire r target exclude)
    go (grants _ _ id acc _ _ _ eq) e =
        subst
          (λ (s : Pool × Option Account).
            WaitTurn p target exclude (after_acquire s target exclude))
          (sym eq) (gets _ acc (acquire-Grant p _ target exclude acc (e ∙ eq)) refl)
    go (refuses others eq) e =
        subst
          (λ (s : Pool × Option Account).
            WaitTurn p target exclude (after_acquire s target exclude))
          (sym eq) (fail (can_queue p target exclude) others refl)

-- A release of a held slot wakes the caller that has waited longest, and no other.
pub release_wakes_first :
    (p : Pool) (id : Str) (w : ℕ) (ws : List ℕ)
    → id ≢ []
    → 0 < in_use_of p id
    → p.waiters ≡ w ∷ ws
    → ((release p id).waiters ≡ ws) × ((release p id).closed ≡ w ∷ p.closed)
unfolding release
release_wakes_first p [] w ws ne held e = absurd (ne refl)
release_wakes_first p (c ∷ s) w ws ne held e = go (in_use_of p (c ∷ s)) refl
  where
    go :
        (n : ℕ)
        → in_use_of p (c ∷ s) ≡ n
        → ((release_count p (c ∷ s) n).waiters ≡ ws)
          × ((release_count p (c ∷ s) n).closed ≡ w ∷ p.closed)
    go zero z = absurd (omega arith)
    go (suc zero) z = unfold notify_waiter in rw (e, notify) (refl, refl)
    go (suc (suc n)) z = unfold notify_waiter in rw (e, notify) (refl, refl)

absent_number : (w : ℕ) (ws : List ℕ) → count w ws ≡ 0 → remove_number w ws ≡ ws
unfolding remove_number count
absent_number w [] h = refl
absent_number w (x ∷ xs) h = ground (arith, absent_number w xs)

-- If the caller woken by a release has been cancelled meanwhile, its clean-up removes nothing and wakes
-- nobody: the slot is free, and every other caller is still asleep in the queue.
pub cancelled_wakeup_lost :
    (p : Pool) (id : Str) (w : ℕ) (ws : List ℕ)
    → IsOrderly p
    → id ≢ []
    → 0 < in_use_of p id
    → p.waiters ≡ w ∷ ws
    → let q = remove_waiter (release p id) w in
      (q.waiters ≡ ws) × (q.closed ≡ w ∷ p.closed) × (in_use_of q id + 1 ≡ in_use_of p id)
unfolding remove_waiter count
cancelled_wakeup_lost p id w ws o ne held e = (
  ap (remove_number w) woken.0 ∙ absent_number w ws only,
  woken.1,
  ground (arith, release_counts p id id ne, str_eq_refl id),
)
  where
    woken : ((release p id).waiters ≡ ws) × ((release p id).closed ≡ w ∷ p.closed)
    woken = release_wakes_first p id w ws ne held e

    only : count w ws ≡ 0
    only = ground (arith, o.once w, ap (count w) e)
