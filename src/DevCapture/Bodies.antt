-- ===== src/DevCapture/Bodies.antt =====
-- A captured body over all the reads of its client.
use generalcompute2api.Prelude.{
  ℕ, ◌-◌, ◌≤◌, ◌≡◌, refl, ap, ◌∙◌, sym, Bool, true, false, List, [], ◌∷◌, ◌++◌, arith, length, ltb,
  leb, if◌then◌else◌, length-append, ltb_false→le, Bool-cases, inl, inr,
}
use mathlib.Core.List.{append-nil, append_assoc}
use generalcompute2api.Prelude.Text.{Str}
use generalcompute2api.Util.{truncate_utf8_bytes}
use generalcompute2api.Util.Cut.{truncate_utf8_bytes-Cuts}
use generalcompute2api.DevCapture.{
  CaptureBody, Entry, Session, Store, append, append_within, close, entry_of, finalize, push, read,
  wrap_body,
}

-- What the client of a body does: a read that took a chunk, at the end of the stream or not, or a close.
pub data Step : Type 0 where
  read_chunk : Str → Bool → Step
  close_body : Step

unfoldable pub run : Store × CaptureBody → List Step → Store × CaptureBody
run (s, c) [] = (s, c)
run (s, c) (read_chunk chunk eof ∷ es) = run (read s c chunk eof) es
run (s, c) (close_body ∷ es) = run (close s c) es

-- The bytes that the client took, up to the first end or close.
abbrev pub taken_until_end : List Step → Str
taken_until_end [] = []
taken_until_end (read_chunk chunk true ∷ es) = chunk
taken_until_end (read_chunk chunk false ∷ es) = chunk ++ taken_until_end es
taken_until_end (close_body ∷ es) = []

abbrev pub has_end : List Step → Bool
has_end [] = false
has_end (read_chunk chunk true ∷ es) = true
has_end (read_chunk chunk false ∷ es) = has_end es
has_end (close_body ∷ es) = true

-- A buffer within the limit that holds all that was taken, unless it is marked as cut.
pub record Holds (max_len : ℕ) (taken buf : Str) (truncated : Bool) : Type 0 where
  pub within : length buf ≤ max_len
  pub whole : truncated ≡ false → buf ≡ taken

abbrev pub BodyHolds : ℕ → Str → CaptureBody → Type 0
BodyHolds m taken c = Holds m taken c.buf c.truncated

append_within-Holds :
    (m : ℕ) (taken : Str) (c : CaptureBody) (chunk : Str)
    → BodyHolds m taken c
    → BodyHolds m (taken ++ chunk) (append_within (m - length c.buf) c chunk)
append_within-Holds m taken c chunk h = elim (Bool-cases (ltb (m - length c.buf) (length chunk))) [
  | inl long ↦ rw long (record {
    within = omega (
      arith,
      h.within,
      length-append c.buf (truncate_utf8_bytes chunk (m - length c.buf)).0,
      (truncate_utf8_bytes-Cuts chunk (m - length c.buf)).within,
    );
    whole = λ e. cc;
  })
  | inr fits ↦ rw fits (record {
    within = omega (arith, h.within, length-append c.buf chunk, ltb_false→le _ _ fits);
    whole = λ e. ap (λ t. t ++ chunk) (h.whole e);
  })
]

append-Holds :
    (m : ℕ) (taken : Str) (c : CaptureBody) (chunk : Str)
    → BodyHolds m taken c
    → BodyHolds m (taken ++ chunk) (append m c chunk)
unfolding append
append-Holds m taken c [] h = record {
  within = h.within;
  whole = λ e. h.whole e ∙ sym (append-nil taken);
}
append-Holds m taken c (x ∷ s) h = elim (Bool-cases (leb m (length c.buf))) [
  | inl full ↦ rw full (record { within = h.within; whole = λ e. cc })
  | inr room ↦ rw room (append_within-Holds m taken c (x ∷ s) h)
]

append-session :
    (m : ℕ) (c : CaptureBody) (chunk : Str)
    → ((append m c chunk).session ≡ c.session)
      × ((append m c chunk).status_code ≡ c.status_code)
      × ((append m c chunk).finalized ≡ c.finalized)
unfolding append
append-session m c [] = (refl, refl, refl)
append-session m c (x ∷ s) = ground arith

finalize-again : (s : Store) (c : CaptureBody) → c.finalized ≡ true → finalize s c ≡ (s, c)
unfolding finalize
finalize-again s c h =
    ap (λ b. if b then (s, c) else (push s (entry_of c), record c { finalized = true })) h

finalize-first :
    (s : Store) (c : CaptureBody)
    → c.finalized ≡ false
    → finalize s c ≡ (push s (entry_of c), record c { finalized = true })
unfolding finalize
finalize-first s c h =
    ap (λ b. if b then (s, c) else (push s (entry_of c), record c { finalized = true })) h

-- Once it is finalised, a body leaves the store alone.
run-finalized :
    (s : Store) (c : CaptureBody) (es : List Step) → c.finalized ≡ true → (run (s, c) es).0 ≡ s
unfolding run read close
run-finalized s c [] h = refl
run-finalized s c (read_chunk chunk true ∷ es) h =
    ap (λ p. (run p es).0) (finalize-again s (append s.max_body_bytes c chunk) still)
    ∙ run-finalized s (append s.max_body_bytes c chunk) es still
  where
    still : (append s.max_body_bytes c chunk).finalized ≡ true
    still = (append-session s.max_body_bytes c chunk).2 ∙ h
run-finalized s c (read_chunk chunk false ∷ es) h =
    run-finalized s (append s.max_body_bytes c chunk) es
      ((append-session s.max_body_bytes c chunk).2 ∙ h)
run-finalized s c (close_body ∷ es) h =
    ap (λ p. (run p es).0) (finalize-again s c h) ∙ run-finalized s c es h

-- An entry for the session and status of a body, with what was taken from it.
pub record EntryOf (m : ℕ) (session : Session) (code : ℕ) (taken : Str) (e : Entry) : Type 0 where
  pub id : e.id ≡ session.id
  pub request : e.request_body ≡ session.request_raw
  pub status : e.status_code ≡ code
  pub body : Holds m taken e.response_body e.response_truncated

-- The store after a body was read: with one more entry if the body ended, or as it was.
pub record Recorded (s after : Store) (session : Session) (status : ℕ) (ended : Bool) (taken : Str)
    : Type 0 where
  pub unless_ended : ended ≡ false → after ≡ s
  pub once_ended :
      ended ≡ true
      → (e : Entry) × (after ≡ push s e) × EntryOf s.max_body_bytes session status taken e

ended-Recorded :
    (s : Store) (session : Session) (status : ℕ) (taken : Str) (c : CaptureBody) (es : List Step)
    → c.session ≡ session
    → c.status_code ≡ status
    → c.finalized ≡ false
    → BodyHolds s.max_body_bytes taken c
    → Recorded s (run (finalize s c) es).0 session status true taken
ended-Recorded s session status taken c es e f g h = record {
  unless_ended = λ x. cc;
  once_ended = λ _. (
    entry_of c,
    ap (λ p. (run p es).0) (finalize-first s c g)
        ∙ run-finalized (push s (entry_of c)) (record c { finalized = true }) es refl,
    record { id = ap (λ x. x.id) e; request = ap (λ x. x.request_raw) e; status = f; body = h },
  );
}

run-Recorded :
    (s : Store) (session : Session) (status : ℕ) (taken : Str) (c : CaptureBody) (es : List Step)
    → c.session ≡ session
    → c.status_code ≡ status
    → c.finalized ≡ false
    → BodyHolds s.max_body_bytes taken c
    → Recorded s (run (s, c) es).0 session status (has_end es) (taken ++ taken_until_end es)
unfolding run read close
run-Recorded s session status taken c [] e f g h = record {
  unless_ended = λ x. refl;
  once_ended = λ x. cc;
}
run-Recorded s session status taken c (read_chunk chunk true ∷ es) e f g h =
    ended-Recorded s session status (taken ++ chunk) (append s.max_body_bytes c chunk) es
      (kept.0 ∙ e) (kept.1 ∙ f) (kept.2 ∙ g) (append-Holds s.max_body_bytes taken c chunk h)
  where
    kept :
        ((append s.max_body_bytes c chunk).session ≡ c.session)
        × ((append s.max_body_bytes c chunk).status_code ≡ c.status_code)
        × ((append s.max_body_bytes c chunk).finalized ≡ c.finalized)
    kept = append-session s.max_body_bytes c chunk
run-Recorded s session status taken c (read_chunk chunk false ∷ es) e f g h =
    rw (sym (append_assoc taken chunk (taken_until_end es))) (
      run-Recorded s session status (taken ++ chunk) (append s.max_body_bytes c chunk) es
        (kept.0 ∙ e) (kept.1 ∙ f) (kept.2 ∙ g) (append-Holds s.max_body_bytes taken c chunk h))
  where
    kept :
        ((append s.max_body_bytes c chunk).session ≡ c.session)
        × ((append s.max_body_bytes c chunk).status_code ≡ c.status_code)
        × ((append s.max_body_bytes c chunk).finalized ≡ c.finalized)
    kept = append-session s.max_body_bytes c chunk
run-Recorded s session status taken c (close_body ∷ es) e f g h =
    rw (append-nil taken) (ended-Recorded s session status taken c es e f g h)

-- However a wrapped body is read, the store is as it was until the body ends or is closed, and has from
-- then on just one more entry, pushed at that moment: for the session and status, with a response within
-- the limit, which is all that the client took until then unless the entry is marked as truncated.
pub capture-Recorded :
    (s : Store) (session : Session) (status : ℕ) (es : List Step)
    → Recorded s
        (run (s, wrap_body session status) es).0
        session
        status
        (has_end es)
        (taken_until_end es)
capture-Recorded s session status es =
    run-Recorded s session status [] (wrap_body session status) es refl refl refl
      (record { within = omega arith; whole = λ e. refl })
