-- ===== src/Stream/Timeouts.antt =====
-- A stream that says nothing is given up, and one that speaks is passed on line by line.
use generalcompute2api.Prelude.{
  ℕ, zero, suc, ◌+◌, ◌<◌, ◌≡◌, refl, ap, Bool, true, false, List, [], ◌∷◌, Option, none, some,
  arith, if◌then◌else◌,
}
use generalcompute2api.Prelude.Text.{Str}
use generalcompute2api.Sse.{LineResult}
use generalcompute2api.Stream.{
  Call, ConsumeConfig, Handler, Input, LoopState, ParsedDecision, Round, Run, consume, decide, eof,
  goes_on, line, no_content_timeout, on_finalize, on_keep_alive, on_line, on_parsed, on_tick,
  reason_or_requested, returns, round, saw, then_run, tick, upstream_completed,
}

-- A round on a live context.
abbrev pub live : Input → ℕ → Round
live i now = record { done_before = false; input = i; done_after = false; now = now }

-- Ticks at the given times and nothing else.
abbrev pub ticks : List ℕ → List Round
ticks [] = []
ticks (t ∷ ts) = live tick t ∷ ticks ts

-- The calls that ticks make, with this many of them left before the limit.
abbrev pub given_up_after : ℕ → List ℕ → List Call
given_up_after left [] = []
given_up_after zero (t ∷ ts) = on_finalize no_content_timeout none ∷ []
given_up_after (suc left) (t ∷ ts) = on_keep_alive ∷ given_up_after left ts

abbrev counted : {H : Type 0} → LoopState H → LoopState H
counted s = record s { keepalive_count = s.keepalive_count + 1 }

module _ {H : Type 0} (cfg : ConsumeConfig) (f : Handler H) (s : LoopState H) (now : ℕ) where
  last_tick :
      0 < cfg.keep_alive_interval
      → s.has_content ≡ false
      → s.keepalive_count + 1 ≡ cfg.max_keep_alive_no_input
      → round cfg f s (live tick now)
        ≡ returns (counted s) (on_finalize no_content_timeout none ∷ [])
  unfolding round on_tick
  last_tick i h e = ground arith

  early_tick :
      0 < cfg.keep_alive_interval
      → s.has_content ≡ false
      → s.keepalive_count + 1 < cfg.max_keep_alive_no_input
      → round cfg f s (live tick now) ≡ goes_on (counted s) (on_keep_alive ∷ [])
  unfolding round on_tick
  early_tick i h e = ground arith

-- With a ticker and a limit, a live stream that says nothing is kept alive at each tick before the limit
-- and is given up at the tick that reaches it.
pub silent_stream_gives_up :
    {H : Type 0} (cfg : ConsumeConfig) (f : Handler H) (s : LoopState H) (left : ℕ) (ts : List ℕ)
    → 0 < cfg.keep_alive_interval
    → s.has_content ≡ false
    → s.keepalive_count + left + 1 ≡ cfg.max_keep_alive_no_input
    → (consume cfg f s (ticks ts)).calls ≡ given_up_after left ts
unfolding consume
silent_stream_gives_up cfg f s left [] i h e = refl
silent_stream_gives_up cfg f s zero (t ∷ ts) i h e = rw (last_tick cfg f s t i h (omega arith))
silent_stream_gives_up cfg f s (suc left) (t ∷ ts) i h e =
    rw (early_tick cfg f s t i h (omega arith)) (
      ap (◌∷◌ on_keep_alive) (
        silent_stream_gives_up cfg f (record s { keepalive_count = s.keepalive_count + 1 }) left ts
          i h (omega arith)))

-- Lines at the given times, and then the end of the stream.
abbrev pub lines_then_eof : List (LineResult × ℕ) → Option Str → ℕ → List Round
lines_then_eof [] err now = live (eof err) now ∷ []
lines_then_eof ((l, t) ∷ ls) err now = live (line l) t ∷ lines_then_eof ls err now

-- The calls for a handler in a given state: each line, up to the first at which it stops.
abbrev pub delivered :
    {H : Type 0}
    → (H → LineResult → H × ParsedDecision)
    → H
    → List (LineResult × ℕ)
    → Option Str
    → List Call
delivered f h [] err = on_finalize upstream_completed err ∷ []
delivered f h ((l, t) ∷ ls) err =
    let next = delivered f (f h l).0 ls err in
    on_parsed l
    ∷ (if (f h l).1.stop
        then on_finalize (reason_or_requested (f h l).1.stop_reason) none ∷ []
        else next)

then_run-delivered :
    {H : Type 0} (cfg : ConsumeConfig) (l : LineResult) (s : LoopState H) (p : H × ParsedDecision)
    (now : ℕ) (next : LoopState H → Run H) (rest : H → List Call)
    → ((t : LoopState H) → (next t).calls ≡ rest t.handler)
    → (then_run (decide cfg l s p now) next).calls
      ≡ on_parsed l
        ∷ (if p.1.stop
            then on_finalize (reason_or_requested p.1.stop_reason) none ∷ []
            else rest p.0)
then_run-delivered cfg l s (h, d) now next rest k = go d.stop d.content_seen
  where
    go :
        (b c : Bool)
        → (then_run
            (if b
              then returns
                  (saw s h c now)
                  (on_parsed l ∷ on_finalize (reason_or_requested d.stop_reason) none ∷ [])
              else goes_on (saw s h c now) (on_parsed l ∷ []))
            next).calls
          ≡ on_parsed l
            ∷ (if b then on_finalize (reason_or_requested d.stop_reason) none ∷ [] else rest h)
    go true c = refl
    go false true = ap (◌∷◌ (on_parsed l)) (k (saw s h true now))
    go false false = ap (◌∷◌ (on_parsed l)) (k (saw s h false now))

-- On a live context the lines reach the handler in order, each once, up to the first at which it asks to
-- stop; then the stream is finalised with the reason that it gave, or that it asked. A handler that never
-- asks gets every line, and the stream is finalised with the scanner's error when it ends.
pub lines_delivered :
    {H : Type 0} (cfg : ConsumeConfig) (f : H → LineResult → H × ParsedDecision) (s : LoopState H)
    (ls : List (LineResult × ℕ)) (err : Option Str) (now : ℕ)
    → (consume cfg (some f) s (lines_then_eof ls err now)).calls ≡ delivered f s.handler ls err
unfolding consume round on_line
lines_delivered cfg f s [] err now = refl
lines_delivered cfg f s ((l, t) ∷ ls) err now =
    then_run-delivered cfg l s (f s.handler l) t
      (λ t'. consume cfg (some f) t' (lines_then_eof ls err now)) (λ h. delivered f h ls err)
      (λ t'. lines_delivered cfg f t' ls err now)
