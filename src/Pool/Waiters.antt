-- ===== src/Pool/Waiters.antt =====
-- The queue of waiters over any sequence of calls: a channel is closed at most once (closing it twice
-- would panic), it leaves the queue when it is closed, and the queue keeps within its limit.
use generalcompute2api.Prelude.{
  ℕ, zero, suc, ◌+◌, ◌≤◌, ◌≡◌, refl, ap, subst, sym, Bool, true, false, List, [], ◌∷◌, ◌++◌, Option,
  none, some, arith, if◌then◌else◌, ◌==◌, reverse,
}
use mathlib.Core.List.{reverse-cons}
use generalcompute2api.Prelude.Text.{Str}
use generalcompute2api.Config.{Account}
use generalcompute2api.Pool.{
  in_use_of, Pool, acquire, acquire_wait, release, remove_waiter, remove_number, notify,
  notify_waiter, drain_waiters, release_count, take_slot, enqueue, after_acquire, after_failure,
  can_queue,
}
use generalcompute2api.Pool.Acquire.{Answers, grants, refuses, acquire-Answers, candidates}

unfoldable pub count : ℕ → List ℕ → ℕ
count w [] = 0
count w (x ∷ xs) = (if x == w then 1 else 0) + count w xs

count-append : (w : ℕ) (xs ys : List ℕ) → count w (xs ++ ys) ≡ count w xs + count w ys
unfolding count
count-append w [] ys = omega arith
count-append w (x ∷ xs) ys = omega (arith, count-append w xs ys)

count-reverse : (w : ℕ) (xs : List ℕ) → count w (reverse xs) ≡ count w xs
unfolding count
count-reverse w [] = refl
count-reverse w (x ∷ xs) =
    rw (reverse-cons x xs, count-append w (reverse xs) (x ∷ [])) (omega (arith, count-reverse w xs))

count-remove_number : (w v : ℕ) (xs : List ℕ) → count w (remove_number v xs) ≤ count w xs
unfolding count remove_number
count-remove_number w v [] = omega arith
count-remove_number w v (x ∷ xs) = ground (arith, count-remove_number w v xs)

-- The channels of a pool: handed out below `next_waiter`, and each queued or closed, once.
pub record IsOrderly (p : Pool) : Type 0 where
  pub once : (w : ℕ) → count w p.waiters + count w p.closed ≤ 1
  pub fresh : (w : ℕ) → p.next_waiter ≤ w → count w p.waiters + count w p.closed ≡ 0

-- A pool with the same channels but for other fields.
abbrev pub SameChannels : Pool → Pool → Type 0
SameChannels p q = (q.waiters ≡ p.waiters) × (q.closed ≡ p.closed) × (q.next_waiter ≡ p.next_waiter)

pub SameChannels-IsOrderly : {p q : Pool} → SameChannels p q → IsOrderly p → IsOrderly q
SameChannels-IsOrderly {p} {q} (a, b, c) o = record {
  once = λ w. rw (a, b) (o.once w);
  fresh = λ w h. rw (a, b) (o.fresh w (rw c at h));
}

notify-IsOrderly : (p : Pool) (ws : List ℕ) → p.waiters ≡ ws → IsOrderly p → IsOrderly (notify p ws)
unfolding count
notify-IsOrderly p [] e o = o
notify-IsOrderly p (w ∷ ws) e o = record {
  once = λ v. omega (arith, o.once v, ap (count v) e);
  fresh = λ v h. omega (arith, o.fresh v h, ap (count v) e);
}

pub notify_waiter-IsOrderly : (p : Pool) → IsOrderly p → IsOrderly (notify_waiter p)
unfolding notify_waiter
notify_waiter-IsOrderly p o = notify-IsOrderly p p.waiters refl o

pub drain_waiters-IsOrderly : (p : Pool) → IsOrderly p → IsOrderly (drain_waiters p)
unfolding drain_waiters count
drain_waiters-IsOrderly p o = record {
  once = λ w.
      omega
        (arith, o.once w, count-append w (reverse p.waiters) p.closed, count-reverse w p.waiters);
  fresh = λ w h.
      omega (
        arith,
        o.fresh w h,
        count-append w (reverse p.waiters) p.closed,
        count-reverse w p.waiters,
      );
}

enqueue-IsOrderly : (p : Pool) → IsOrderly p → IsOrderly (enqueue p)
unfolding count
enqueue-IsOrderly p o = record {
  once = λ w. ground (arith, o.once w, o.fresh w, count-append w p.waiters (p.next_waiter ∷ []));
  fresh = λ w h. ground (arith, o.fresh w, count-append w p.waiters (p.next_waiter ∷ []));
}

pub remove_waiter-IsOrderly : (p : Pool) (v : ℕ) → IsOrderly p → IsOrderly (remove_waiter p v)
unfolding remove_waiter
remove_waiter-IsOrderly p v o = record {
  once = λ w. omega (arith, o.once w, count-remove_number w v p.waiters);
  fresh = λ w h. omega (arith, o.fresh w h, count-remove_number w v p.waiters);
}

take_slot-SameChannels : (p : Pool) (id : Str) → SameChannels p (take_slot p id)
unfolding take_slot
take_slot-SameChannels p id = (refl, refl, refl)

pub acquire-SameChannels :
    (p : Pool) (target : Str) (exclude : Str → Bool) → SameChannels p (acquire p target exclude).0
acquire-SameChannels p target exclude = go (acquire-Answers p target exclude)
  where
    go :
        {r : Pool × Option Account} → Answers p exclude (candidates p target) r → SameChannels p r.0
    go (grants _ _ id acc _ _ _ eq) =
        subst (λ (s : Pool × Option Account). SameChannels p s.0) (sym eq)
          (take_slot-SameChannels p id)
    go (refuses _ eq) =
        subst (λ (s : Pool × Option Account). SameChannels p s.0) (sym eq) (refl, refl, refl)

release_count-IsOrderly :
    (p : Pool) (id : Str) (n : ℕ) → IsOrderly p → IsOrderly (release_count p id n)
release_count-IsOrderly p id zero o = o
release_count-IsOrderly p id (suc zero) o =
    notify_waiter-IsOrderly _ (SameChannels-IsOrderly (refl, refl, refl) o)
release_count-IsOrderly p id (suc (suc n)) o =
    notify_waiter-IsOrderly _ (SameChannels-IsOrderly (refl, refl, refl) o)

after_acquire-IsOrderly :
    (r : Pool × Option Account) (target : Str) (exclude : Str → Bool)
    → IsOrderly r.0
    → IsOrderly (after_acquire r target exclude).0
after_acquire-IsOrderly (p, some acc) target exclude o = o
after_acquire-IsOrderly (p, none) target exclude o = go (can_queue p target exclude)
  where
    go : (b : Bool) → IsOrderly (after_failure p b).0
    go true = enqueue-IsOrderly p o
    go false = o

pub acquire_wait-IsOrderly :
    (done : Bool) (p : Pool) (target : Str) (exclude : Str → Bool)
    → IsOrderly p
    → IsOrderly (acquire_wait done p target exclude).0
unfolding acquire_wait
acquire_wait-IsOrderly true p target exclude o = o
acquire_wait-IsOrderly false p target exclude o =
    after_acquire-IsOrderly (acquire p target exclude) target exclude
      (SameChannels-IsOrderly (acquire-SameChannels p target exclude) o)

pub release-IsOrderly : (p : Pool) (id : Str) → IsOrderly p → IsOrderly (release p id)
unfolding release
release-IsOrderly p [] o = o
release-IsOrderly p (c ∷ s) o = release_count-IsOrderly p (c ∷ s) (in_use_of p (c ∷ s)) o
