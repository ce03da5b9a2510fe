-- ===== src/ChatHistory/Calls.antt =====
-- The store's methods: each changes the store in memory and then saves it. A result that the client gets
-- together with an error is the answer with its last part false.
use generalcompute2api.Prelude.{
  ℕ, zero, suc, Bool, true, false, List, [], ◌∷◌, ◌++◌, Option, none, some, if◌then◌else◌,
}
use generalcompute2api.Prelude.Int.{ℤ, pos, negsuc}
use generalcompute2api.Prelude.Maps.{erase, insert, lookup}
use generalcompute2api.Prelude.Text.{Str, codes, trim_space}
use generalcompute2api.ChatHistory.{
  Entry, File, Message, Store, is_allowed_limit, mark_detail_deleted, mark_detail_dirty,
  next_revision,
}
use generalcompute2api.ChatHistory.Index.{rebuild_index, with_limit}
use generalcompute2api.ChatHistory.Disk.{Disk, save}

pub record StartParams : Type 0 where
  pub caller_id : Str
  pub account_id : Str
  pub surface : Str
  pub model : Str
  pub stream : Bool
  pub user_input : Str
  pub messages : List Message
  pub history_text : Str
  pub final_prompt : Str

pub record UpdateParams (J : Type 0) : Type 0 where
  pub status : Str
  pub reasoning_content : Str
  pub content : Str
  pub error : Str
  pub status_code : ℕ
  pub elapsed_ms : ℕ
  pub finish_reason : Str
  pub usage : Option (List (Str × J))
  pub completed : Bool

pub data HistoryError : Type 0 where
  load_failed : Str → HistoryError
  disabled id_required not_found unsupported_limit save_failed : HistoryError

-- The clock in milliseconds and nanoseconds.
pub record Now : Type 0 where
  pub unix_milli : ℕ
  pub unix_nano : ℕ

-- What a call leaves and answers.
pub record Answer (J A : Type 0) : Type 0 where
  pub store : Store J
  pub disk : Disk J
  pub value : Option A
  pub error : Option HistoryError

abbrev pub refused : {J A : Type 0} → Store J → Disk J → HistoryError → Answer J A
refused s disk e = record { store = s; disk = disk; value = none; error = some e }

-- Go's `item.X = params.X` unless that would empty a text that is there.
abbrev pub keep_text : Str → Str → Str
keep_text new_text [] = new_text
keep_text [] (c ∷ s) = c ∷ s
keep_text (x ∷ t) (c ∷ s) = x ∷ t

abbrev pub given_or : Str → Str → Str
given_or [] old = old
given_or (c ∷ s) old = c ∷ s

abbrev pub some_or {ℓ} : {A : Type ℓ} → Option A → Option A → Option A
some_or none old = old
some_or (some a) old = some a

module _ {J : Type 0} where
  unfoldable pub started : StartParams → Str → ℕ → ℕ → Entry J
  unfolding trim_space
  started p uuid now revision = record {
    id = codes "chat_" ++ uuid;
    revision = revision;
    created_at = now;
    updated_at = now;
    completed_at = 0;
    status = codes "streaming";
    caller_id = trim_space p.caller_id;
    account_id = trim_space p.account_id;
    surface = trim_space p.surface;
    model = trim_space p.model;
    stream = p.stream;
    user_input = trim_space p.user_input;
    messages = p.messages;
    history_text = p.history_text;
    final_prompt = trim_space p.final_prompt;
    reasoning_content = [];
    content = [];
    error = [];
    status_code = 0;
    elapsed_ms = 0;
    finish_reason = [];
    usage = none;
  }

  unfoldable pub updated : UpdateParams J → Entry J → ℕ → ℕ → Entry J
  unfolding trim_space
  updated p item now revision = record item {
    revision = revision;
    updated_at = now;
    status = given_or p.status item.status;
    reasoning_content = keep_text p.reasoning_content item.reasoning_content;
    content = keep_text p.content item.content;
    error = trim_space p.error;
    status_code = p.status_code;
    elapsed_ms = p.elapsed_ms;
    finish_reason = trim_space p.finish_reason;
    usage = some_or p.usage item.usage;
    completed_at = if p.completed then now else item.completed_at;
  }

  -- Keeps an entry under its identifier.
  unfoldable pub store_detail : Store J → Str → Entry J → Store J
  unfolding mark_detail_dirty insert
  store_detail s id e = mark_detail_dirty (record s { details = insert id e s.details }) id

  -- `rebuildIndexLocked` and `saveLocked`, at the end of every method.
  abbrev pub answered : {A : Type 0} → Option A → Option A → Store J × Disk J × Bool → Answer J A
  answered value value_on_error (s, disk, true) = record {
    store = s;
    disk = disk;
    value = value;
    error = none;
  }
  answered value value_on_error (s, disk, false) = record {
    store = s;
    disk = disk;
    value = value_on_error;
    error = some save_failed;
  }

  abbrev pub commit : Store J → Disk J → ℕ → Store J × Disk J × Bool
  commit s disk works = save (rebuild_index s) disk works

  abbrev pub start_at :
      Store J → Disk J → ℕ → StartParams → Str → ℕ → Store J × ℕ → Answer J (Entry J)
  start_at s disk works p uuid now (t, revision) =
      let e = started p uuid now revision in
      answered (some e) (some e) (commit (store_detail t e.id e) disk works)

  unfoldable pub start : Store J → Disk J → ℕ → StartParams → Str → Now → Answer J (Entry J)
  unfolding save rebuild_index next_revision started store_detail
  start s disk works p uuid now = elim s.err [
    | some e ↦ refused s disk (load_failed e)
    | none ↦ elim s.state.limit [
      | zero ↦ refused s disk disabled
      | suc n ↦ start_at s disk works p uuid now.unix_milli (next_revision s now.unix_nano)
    ]
  ]

  abbrev pub update_at :
      Str → Disk J → ℕ → UpdateParams J → Entry J → ℕ → Store J × ℕ → Answer J (Entry J)
  update_at id disk works p item now (t, revision) =
      let e = updated p item now revision in
      answered (some e) none (commit (store_detail t id e) disk works)

  -- The entry that an identifier names: the identifier trimmed, and the entry.
  abbrev pub named :
      {A : Type 0} → Store J → Disk J → Str → (Str → Entry J → Answer J A) → Answer J A
  named s disk id next = elim s.err [
    | some e ↦ refused s disk (load_failed e)
    | none ↦ elim (trim_space id) [
      | [] ↦ refused s disk id_required
      | c ∷ i ↦ elim (lookup (c ∷ i) s.details) [
        | none ↦ refused s disk not_found
        | some item ↦ next (c ∷ i) item
      ]
    ]
  ]

  unfoldable pub update : Store J → Disk J → ℕ → Str → UpdateParams J → Now → Answer J (Entry J)
  unfolding save rebuild_index next_revision updated store_detail trim_space lookup
  update s disk works id p now = named s disk id (λ target item.
      update_at target disk works p item now.unix_milli (next_revision s now.unix_nano))

  unfoldable pub delete_entry : Store J → Str → Store J
  unfolding mark_detail_deleted erase
  delete_entry s id = let t = mark_detail_deleted s id in record t { details = erase id t.details }

  unfoldable pub delete : Store J → Disk J → ℕ → Str → Now → Answer J (Unit {0})
  unfolding save rebuild_index next_revision delete_entry trim_space lookup
  delete s disk works id now = named s disk id (λ target item.
      answered (some tt) none
        (commit (next_revision (delete_entry s target) now.unix_nano).0 disk works))

  unfoldable pub mark_all_deleted : List (Str × Entry J) → Store J → Store J
  unfolding mark_detail_deleted
  mark_all_deleted [] s = s
  mark_all_deleted ((id, e) ∷ es) s = mark_all_deleted es (mark_detail_deleted s id)

  unfoldable pub clear : Store J → Disk J → ℕ → Now → Answer J (Unit {0})
  unfolding save rebuild_index next_revision mark_all_deleted
  clear s disk works now = elim s.err [
    | some e ↦ refused s disk (load_failed e)
    | none ↦ answered (some tt) none (
        commit
          (next_revision (record (mark_all_deleted s.details s) { details = [] }) now.unix_nano).0
          disk works)
  ]

  abbrev pub limit_to : Store J → Disk J → ℕ → ℤ → ℕ → Answer J File
  limit_to s disk works (negsuc n) now = refused s disk unsupported_limit
  limit_to s disk works (pos n) now =
      if is_allowed_limit (pos n)
      then (let (t, d, saved) = commit (next_revision (with_limit s n) now).0 disk works in
          answered (some t.state) none (t, d, saved))
      else refused s disk unsupported_limit

  unfoldable pub set_limit : Store J → Disk J → ℕ → ℤ → Now → Answer J File
  unfolding save rebuild_index next_revision
  set_limit s disk works limit now = elim s.err [
    | some e ↦ refused s disk (load_failed e)
    | none ↦ limit_to s disk works limit now.unix_nano
  ]

  abbrev found : Option (Entry J) → Option (Entry J) × Option HistoryError
  found none = (none, some not_found)
  found (some e) = (some e, none)

  unfoldable pub get : Store J → Str → Option (Entry J) × Option HistoryError
  unfolding trim_space lookup
  get s id = elim s.err [
    | some e ↦ (none, some (load_failed e))
    | none ↦ found (lookup (trim_space id) s.details)
  ]
