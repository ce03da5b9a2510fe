-- ===== src/ChatHistory.antt =====
-- internal/chathistory/store.go: the conversations that were held, an index of them and a file for each. A
-- JSON value of `any` is of a type `J` that is a parameter; the clock and new identifiers are arguments.
pub mod Index
pub mod Disk
pub mod Calls
pub mod Keys
pub mod Pending
pub mod Saved
pub mod Files
pub mod Mirror
pub mod Methods
pub mod Deletions
pub mod Runs
pub mod Order
pub mod Listing
pub mod Rebuilt
pub mod Tests
use generalcompute2api.Prelude.{
  ℕ, zero, suc, ◌+◌, Bool, true, false, List, [], ◌∷◌, ◌++◌, Option, none, some, if◌then◌else◌, leb,
  ◌==◌, ◌||◌,
}
use generalcompute2api.Prelude.Int.{ℤ, pos, negsuc}
use generalcompute2api.Prelude.Maps.{erase, insert}
use generalcompute2api.Prelude.Text.{Str, codes, trim_space}
use generalcompute2api.Util.{truncate_runes}

pub record Message : Type 0 where
  pub role : Str
  pub content : Str

pub record Entry (J : Type 0) : Type 0 where
  pub id : Str
  pub revision : ℕ
  pub created_at : ℕ
  pub updated_at : ℕ
  pub completed_at : ℕ
  pub status : Str
  pub caller_id : Str
  pub account_id : Str
  pub surface : Str
  pub model : Str
  pub stream : Bool
  pub user_input : Str
  pub messages : List Message
  pub history_text : Str
  pub final_prompt : Str
  pub reasoning_content : Str
  pub content : Str
  pub error : Str
  pub status_code : ℕ
  pub elapsed_ms : ℕ
  pub finish_reason : Str
  pub usage : Option (List (Str × J))

pub record SummaryEntry : Type 0 where
  pub id : Str
  pub revision : ℕ
  pub created_at : ℕ
  pub updated_at : ℕ
  pub completed_at : ℕ
  pub status : Str
  pub caller_id : Str
  pub account_id : Str
  pub surface : Str
  pub model : Str
  pub stream : Bool
  pub user_input : Str
  pub preview : Str
  pub status_code : ℕ
  pub elapsed_ms : ℕ
  pub finish_reason : Str
  pub detail_revision : ℕ

-- The version is 2 in every file that is written.
pub record File : Type 0 where
  pub limit : ℕ
  pub revision : ℕ
  pub items : List SummaryEntry

-- A Go set of strings.
abbrev pub Names : Type 0
Names = List (Str × Unit {0})

-- `err` is the error that loading left behind.
pub record Store (J : Type 0) : Type 0 where
  pub state : File
  pub details : List (Str × Entry J)
  pub dirty : Names
  pub deleted : Names
  pub err : Option Str

-- A store that found no file.
abbrev pub new : (J : Type 0) → Store J
new J = record {
  state = record { limit = 20; revision = 0; items = [] };
  details = [];
  dirty = [];
  deleted = [];
  err = none;
}

unfoldable pub is_allowed_limit : ℤ → Bool
is_allowed_limit (negsuc n) = false
is_allowed_limit (pos n) = (n == 0) || (n == 10) || (n == 20) || (n == 50)

-- The first text that is not empty once trimmed.
abbrev pub or_trimmed : Str → Str → Str
or_trimmed a [] = a
or_trimmed a (c ∷ s) = c ∷ s

abbrev pub with_dots : Str × Bool → Str → Str
with_dots (cut, true) text = cut ++ codes "..."
with_dots (cut, false) text = text

unfoldable pub build_preview : {J : Type 0} → Entry J → Str
unfolding trim_space
build_preview e =
    let candidate =
      or_trimmed
        (or_trimmed (or_trimmed (trim_space e.user_input) (trim_space e.error))
          (trim_space e.reasoning_content))
        (trim_space e.content) in
    with_dots (truncate_runes candidate 160) candidate

unfoldable pub summary_from_entry : {J : Type 0} → Entry J → SummaryEntry
unfolding build_preview
summary_from_entry e = record {
  id = e.id;
  revision = e.revision;
  created_at = e.created_at;
  updated_at = e.updated_at;
  completed_at = e.completed_at;
  status = e.status;
  caller_id = e.caller_id;
  account_id = e.account_id;
  surface = e.surface;
  model = e.model;
  stream = e.stream;
  user_input = e.user_input;
  preview = build_preview e;
  status_code = e.status_code;
  elapsed_ms = e.elapsed_ms;
  finish_reason = e.finish_reason;
  detail_revision = e.revision;
}

-- `markDetailDirtyLocked` and `markDetailDeletedLocked` for an identifier that is trimmed already.
abbrev pub set_dirty : {J : Type 0} → Store J → Str → Store J
set_dirty s [] = s
set_dirty s (c ∷ i) = record s {
  dirty = insert (c ∷ i) tt s.dirty;
  deleted = erase (c ∷ i) s.deleted;
}

abbrev pub set_deleted : {J : Type 0} → Store J → Str → Store J
set_deleted s [] = s
set_deleted s (c ∷ i) = record s {
  deleted = insert (c ∷ i) tt s.deleted;
  dirty = erase (c ∷ i) s.dirty;
}

unfoldable pub mark_detail_dirty : {J : Type 0} → Store J → Str → Store J
unfolding trim_space
mark_detail_dirty s id = set_dirty s (trim_space id)

unfoldable pub mark_detail_deleted : {J : Type 0} → Store J → Str → Store J
unfolding trim_space
mark_detail_deleted s id = set_deleted s (trim_space id)

unfoldable pub next_revision : {J : Type 0} → Store J → ℕ → Store J × ℕ
next_revision s now =
    let next = if leb now s.state.revision then s.state.revision + 1 else now in
    (record s { state = record s.state { revision = next } }, next)
