-- ===== src/DevCapture.antt =====
-- internal/devcapture/store.go: the last exchanges with the upstream service, kept for debugging. The
-- environment, the clock, the new identifier and the payload's JSON text are arguments.
pub mod Bodies
pub mod Recent
pub mod Tests
use generalcompute2api.Prelude.{
  ℕ, zero, suc, ◌-◌, Bool, true, false, ◌||◌, List, [], ◌∷◌, ◌++◌, map, Option, none, some,
  if◌then◌else◌, ltb, leb, ◌&&◌, length, take, ◌+◌,
}
use generalcompute2api.Prelude.Int.{ℤ, pos, negsuc}
use generalcompute2api.Prelude.Text.{Str, atoi, codes, str_eq, trim_space}
use generalcompute2api.Util.{truncate_utf8_bytes}

pub record Entry : Type 0 where
  pub id : Str
  pub created_at : ℕ
  pub label : Str
  pub url : Str
  pub account_id : Str
  pub status_code : ℕ
  pub request_body : Str
  pub response_body : Str
  pub response_truncated : Bool

pub record Store : Type 0 where
  pub enabled : Bool
  pub limit : ℕ
  pub max_body_bytes : ℕ
  pub items : List Entry

pub record Session : Type 0 where
  pub id : Str
  pub created_at : ℕ
  pub label : Str
  pub url : Str
  pub account_id : Str
  pub request_raw : Str

-- The reader that wraps a response's body.
pub record CaptureBody : Type 0 where
  pub session : Session
  pub status_code : ℕ
  pub buf : Str
  pub truncated : Bool
  pub finalized : Bool

abbrev pub to_lower : Str → Str
to_lower s = map (λ c. if leb 65 c && leb c 90 then c + 32 else c) s

unfoldable pub parse_bool : Str → Bool
unfolding trim_space str_eq
parse_bool v =
    let w = to_lower (trim_space v) in
    str_eq w (codes "1")
    || str_eq w (codes "true")
    || str_eq w (codes "yes")
    || str_eq w (codes "on")

-- The number that a text spells, or the default.
abbrev spelled_or : ℕ → Option ℤ → ℤ
spelled_or d none = pos d
spelled_or d (some z) = z

unfoldable pub parse_int_with_default : Str → ℕ → ℤ
unfolding trim_space atoi
parse_int_with_default raw d = elim (trim_space raw) [
  | [] ↦ pos d
  | c ∷ s ↦ spelled_or d (atoi (c ∷ s))
]

abbrev pub entry_limit : ℤ → ℕ
entry_limit (negsuc n) = 20
entry_limit (pos zero) = 20
entry_limit (pos (suc n)) = if ltb 50 (suc n) then 50 else suc n

abbrev pub body_limit : ℤ → ℕ
body_limit (negsuc n) = 5242880
body_limit (pos n) = if ltb n 1024 then 5242880 else n

abbrev enabled_by : Option Str → Bool
enabled_by none = true
enabled_by (some raw) = parse_bool raw

unfoldable pub new_from_env : Option Str → Str → Str → Store
unfolding parse_bool parse_int_with_default
new_from_env capture limit max_body_bytes = record {
  enabled = enabled_by capture;
  limit = entry_limit (parse_int_with_default limit 20);
  max_body_bytes = body_limit (parse_int_with_default max_body_bytes 5242880);
  items = [];
}

unfoldable pub clear : Store → Store
clear s = record s { items = [] }

unfoldable pub start : Store → Str → Str → Str → Str → Str → ℕ → Option Session
unfolding trim_space
start s label url account_id payload id now =
    if s.enabled
    then some (record {
      id = id;
      created_at = now;
      label = trim_space label;
      url = trim_space url;
      account_id = trim_space account_id;
      request_raw = payload;
    })
    else none

abbrev pub wrap_body : Session → ℕ → CaptureBody
wrap_body session status_code = record {
  session = session;
  status_code = status_code;
  buf = [];
  truncated = false;
  finalized = false;
}

unfoldable pub push : Store → Entry → Store
push s e =
    let items = e ∷ s.items in
    record s { items = if ltb s.limit (length items) then take s.limit items else items }

abbrev pub append_within : ℕ → CaptureBody → Str → CaptureBody
append_within remain c chunk =
    if ltb remain (length chunk)
    then record c { buf = c.buf ++ (truncate_utf8_bytes chunk remain).0; truncated = true }
    else record c { buf = c.buf ++ chunk }

unfoldable pub append : ℕ → CaptureBody → Str → CaptureBody
append max_len c [] = c
append max_len c (x ∷ s) =
    if leb max_len (length c.buf)
    then record c { truncated = true }
    else append_within (max_len - length c.buf) c (x ∷ s)

abbrev pub entry_of : CaptureBody → Entry
entry_of c = record {
  id = c.session.id;
  created_at = c.session.created_at;
  label = c.session.label;
  url = c.session.url;
  account_id = c.session.account_id;
  status_code = c.status_code;
  request_body = c.session.request_raw;
  response_body = c.buf;
  response_truncated = c.truncated;
}

unfoldable pub finalize : Store → CaptureBody → Store × CaptureBody
unfolding push
finalize s c = if c.finalized then (s, c) else (push s (entry_of c), record c { finalized = true })

-- `Read` that took a chunk, at the end of the stream or not, and `Close`.
unfoldable pub read : Store → CaptureBody → Str → Bool → Store × CaptureBody
unfolding append finalize
read s c chunk eof =
    let taken = append s.max_body_bytes c chunk in if eof then finalize s taken else (s, taken)

unfoldable pub close : Store → CaptureBody → Store × CaptureBody
unfolding finalize
close s c = finalize s c
