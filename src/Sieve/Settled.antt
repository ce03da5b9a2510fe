-- ===== src/Sieve/Settled.antt =====
-- internal/toolstream: the text that the sieve holds, and what it emits.
use generalcompute2api.Prelude.{
  ℕ, suc, ◌+◌, ◌*◌, ◌<◌, ◌≡◌, refl, sym, subst, ap, ◌∙◌, true, false, List, [], ◌∷◌, ◌++◌, Option,
  none, some, if◌then◌else◌, length, arith,
}
use generalcompute2api.Prelude.Runs.{Ends}
use generalcompute2api.Prelude.Text.{Str}
use generalcompute2api.Fence.{CodeFence}
use generalcompute2api.Sieve.{State, Event, Capture, Detector}
use generalcompute2api.Sieve.Process.{calls_events, held, noted, released, text_events}
use generalcompute2api.Sieve.Subsequences.{append_assoc, append_empty}

append_nil : {C : Type 0} (cs : List C) → cs ++ [] ≡ cs
append_nil [] = refl
append_nil (c ∷ cs) = ap (λ t. c ∷ t) (append_nil cs)

-- The text of the events.
abbrev pub text_of : {C : Type 0} → List (Event C) → Str
text_of [] = []
text_of (e ∷ es) = e.content ++ text_of es

-- The calls of the events.
abbrev pub calls_of : {C : Type 0} → List (Event C) → List C
calls_of [] = []
calls_of (e ∷ es) = e.tool_calls ++ calls_of es

-- A way to compare texts that text before does not disturb.
pub record TextOrder (R : Str → Str → Type 0) : Type 0 where
  pub order_refl : (a : Str) → R a a
  pub order_trans : (a b c : Str) → R a b → R b c → R a c
  pub order_after : (p a b : Str) → R a b → R (p ++ a) (p ++ b)

-- A capture that is shorter than the captured text, and leaves of it what `R` allows.
abbrev pub LeavesOf : {C : Type 0} → (Str → Str → Type 0) → Str → Option (Capture C) → Type 0
LeavesOf R captured none = Unit {0}
LeavesOf R captured (some cap) =
    R (cap.before ++ cap.after) captured × (length cap.after < length captured)

-- What the sieve relies on: no part of the detector runs for ever, the safe text and the text that is
-- held make up the whole, and a capture leaves what `R` allows.
pub record IsLawful {C : Type 0} (R : Str → Str → Type 0) (d : Detector C) : Type 0 where
  pub find_start_ends : (f : CodeFence) (s : Str) → Ends Unit (λ _. Unit {0}) (d.find_start f s)
  pub split_safe_ends :
      (f : CodeFence) (s : Str) → Ends Unit (λ (a, b). a ++ b ≡ s) (d.split_safe f s)
  pub consume_ends : (s : Str) → Ends Unit (LeavesOf R s) (d.consume s)

pub text_of-append :
    {C : Type 0} (es fs : List (Event C)) → text_of (es ++ fs) ≡ text_of es ++ text_of fs
text_of-append [] fs = refl
text_of-append (e ∷ es) fs =
    ap (λ t. e.content ++ t) (text_of-append es fs)
    ∙ sym (append_assoc e.content (text_of es) (text_of fs))

pub text_of-text_events : (C : Type 0) (s : Str) → text_of (text_events {C = C} s) ≡ s
text_of-text_events C [] = refl
text_of-text_events C (c ∷ s) = append_empty (c ∷ s)

pub text_of-calls :
    {C : Type 0} (cs : List C) (es : List (Event C)) → text_of (calls_events cs ++ es) ≡ text_of es
text_of-calls [] es = refl
text_of-calls (c ∷ cs) es = refl

pub calls_of-text :
    {C : Type 0} (s : Str) (es : List (Event C)) → calls_of (text_events s ++ es) ≡ calls_of es
calls_of-text [] es = refl
calls_of-text (c ∷ s) es = refl

pub calls_of-calls :
    {C : Type 0} (cs : List C) (es : List (Event C))
    → calls_of es ≡ []
    → calls_of (calls_events cs ++ es) ≡ cs
calls_of-calls [] es h = h
calls_of-calls (c ∷ cs) es h = ap (λ t. (c ∷ cs) ++ t) h ∙ append_nil (c ∷ cs)

pub held-noted : {C : Type 0} (s : Str) (st : State C) → held (noted s st) ≡ held st
held-noted [] st = refl
held-noted (c ∷ s) st = refl

-- One more than what the loop still has to do.
abbrev pub work : {C : Type 0} → State C → ℕ
work st = 2 * length (held st) + (if st.capturing then 0 else 1)

-- Outside of a capture nothing is captured.
abbrev pub IsSettled : {C : Type 0} → State C → Type 0
IsSettled st = st.capturing ≡ false → st.capture ≡ []

pub work-noted : {C : Type 0} (s : Str) (st : State C) → work (noted s st) ≡ work st
work-noted [] st = refl
work-noted (c ∷ s) st = refl

pub IsSettled-noted : {C : Type 0} (s : Str) (st : State C) → IsSettled st → IsSettled (noted s st)
IsSettled-noted [] st h = h
IsSettled-noted (c ∷ s) st h = h

pub held-released :
    {C : Type 0} (st : State C) (cap : Capture C) → held (released st cap) ≡ cap.after
held-released st cap = held-noted cap.before _

pub work-released :
    {C : Type 0} (st : State C) (cap : Capture C) (n : ℕ)
    → 2 * length cap.after + 1 < n
    → work (released st cap) < n
work-released st cap n h = subst (λ w. w < n) (sym (work-noted cap.before _)) (omega (arith, h))

pub released-IsSettled : {C : Type 0} (st : State C) (cap : Capture C) → IsSettled (released st cap)
released-IsSettled st cap = IsSettled-noted cap.before _ (λ e. refl)

pub capturing_work :
    {C : Type 0} (st : State C) (fuel : ℕ) (cap : Capture C)
    → st.capturing ≡ true
    → work st < suc fuel
    → length cap.after < length (held st)
    → 2 * length cap.after + 1 < fuel
capturing_work st fuel cap e h k = ground (arith)
