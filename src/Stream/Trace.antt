-- ===== src/Stream/Trace.antt =====
-- The order of the hooks' calls over a whole run.
use generalcompute2api.Prelude.{
  ℕ, ◌≡◌, refl, Bool, true, false, List, [], ◌∷◌, none, some, arith, if◌then◌else◌,
}
use generalcompute2api.Sse.{LineResult}
use generalcompute2api.Stream.{
  Call, ConsumeConfig, Handler, Input, LoopState, Outcome, ParsedDecision, Round, Run, then_run,
  after_counting, append_calls, consume, context_done, decide, eof, goes_on, line, on_context_done,
  on_finalize, on_keep_alive, on_line, on_parsed, on_tick, receive, returns, round, tick,
}

-- The calls that end a run.
abbrev pub is_terminal : Call → Bool
is_terminal (on_parsed l) = false
is_terminal on_keep_alive = false
is_terminal (on_finalize r e) = true
is_terminal on_context_done = true

-- A terminal call stands last, and only where the run returned.
abbrev pub EndsOnce : Bool → List Call → Type 0
EndsOnce returned [] = Unit {0}
EndsOnce returned (c ∷ cs) =
    (is_terminal c ≡ true → (cs ≡ []) × (returned ≡ true)) × EndsOnce returned cs

-- No call ends the run.
abbrev NoneEnds : List Call → Type 0
NoneEnds [] = Unit {0}
NoneEnds (c ∷ cs) = (is_terminal c ≡ false) × NoneEnds cs

-- The calls that a round may make.
abbrev Fits : {H : Type 0} → Outcome H → Type 0
Fits (goes_on s cs) = NoneEnds cs
Fits (returns s cs) = EndsOnce true cs

module _ {H : Type 0} (cfg : ConsumeConfig) where
  after_counting-Fits : (s : LoopState H) (now : ℕ) → Fits (after_counting cfg s now)
  after_counting-Fits s now = ground arith

  on_tick-Fits : (s : LoopState H) (now : ℕ) → Fits (on_tick cfg s now)
  unfolding on_tick
  on_tick-Fits s now = ground arith

  decide-Fits :
      (l : LineResult) (s : LoopState H) (p : H × ParsedDecision) (now : ℕ)
      → Fits (decide cfg l s p now)
  decide-Fits l s p now = ground arith

  receive-Fits :
      (f : Handler H) (s : LoopState H) (i : Input) (now : ℕ) → Fits (receive cfg f s i now)
  unfolding on_line
  receive-Fits f s context_done now = tt
  receive-Fits f s tick now = ground (arith, on_tick-Fits s now)
  receive-Fits none s (line l) now = tt
  receive-Fits (some f) s (line l) now = decide-Fits l s (f s.handler l) now
  receive-Fits f s (eof e) now = (λ h. (refl, refl), tt)

  round-Fits : (f : Handler H) (s : LoopState H) (r : Round) → Fits (round cfg f s r)
  unfolding round
  round-Fits f s r = go r.done_before r.done_after
    where
      go :
          (b d : Bool)
          → Fits (
              if b
              then returns s (on_context_done ∷ [])
              else if d
              then returns s (on_context_done ∷ [])
              else receive cfg f s r.input r.now)
      go true d = (λ h. (refl, refl), tt)
      go false true = (λ h. (refl, refl), tt)
      go false false = receive-Fits f s r.input r.now

append_calls-EndsOnce :
    (b : Bool) (cs ds : List Call) → NoneEnds cs → EndsOnce b ds → EndsOnce b (append_calls cs ds)
append_calls-EndsOnce b [] ds h k = k
append_calls-EndsOnce b (c ∷ cs) ds h k =
    (λ e. absurd (clash e), append_calls-EndsOnce b cs ds h.1 k)
  where
    clash : is_terminal c ≡ true → ⊥
    clash e = ground (arith, h.0)

then_run-EndsOnce :
    {H : Type 0} (o : Outcome H) (next : LoopState H → Run H)
    → Fits o
    → ((t : LoopState H) → EndsOnce (next t).returned (next t).calls)
    → EndsOnce (then_run o next).returned (then_run o next).calls
then_run-EndsOnce (goes_on t cs) next h k = append_calls-EndsOnce _ cs _ h (k t)
then_run-EndsOnce (returns t cs) next h k = h

-- Whatever the rounds are, the stream is finalised or the context reported at most once, as the last
-- call that is made, and only by a run that has returned.
pub consume-EndsOnce :
    {H : Type 0} (cfg : ConsumeConfig) (f : Handler H) (s : LoopState H) (rs : List Round)
    → EndsOnce (consume cfg f s rs).returned (consume cfg f s rs).calls
unfolding consume
consume-EndsOnce cfg f s [] = tt
consume-EndsOnce cfg f s (r ∷ rs) =
    then_run-EndsOnce (round cfg f s r) (λ t. consume cfg f t rs) (round-Fits cfg f s r)
      (λ t. consume-EndsOnce cfg f t rs)
