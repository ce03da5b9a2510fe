-- ===== src/ChatHistory/Tests.antt =====
-- A conversation whose first save fails, and the save that mends it.
use generalcompute2api.Prelude.{All, ℕ, ◌≡◌, refl, [], ◌∷◌, ◌++◌, true, none, some}
use generalcompute2api.Prelude.Text.{codes, trim_space}
use generalcompute2api.ChatHistory.{Store, new, is_allowed_limit}
use generalcompute2api.ChatHistory.Calls.{Now, StartParams, save_failed, started}
use generalcompute2api.ChatHistory.Keys.{IsKeyed, IsId}
use generalcompute2api.ChatHistory.Index.{allowed_or_default, rebuild_index}
use generalcompute2api.ChatHistory.Rebuilt.{Lists, rebuild_index-Lists}
use generalcompute2api.ChatHistory.Mirror.{Mirrors}
use generalcompute2api.ChatHistory.Runs.{
  Call, empty_held, run, saved_call-Mirrors, start_call, step,
}

abbrev asked : StartParams
asked = record {
  caller_id = codes "me";
  account_id = [];
  surface = [];
  model = codes "m";
  stream = true;
  user_input = codes " hello ";
  messages = [];
  history_text = [];
  final_prompt = [];
}

abbrev at_time : ℕ → Now
at_time t = record { unix_milli = t; unix_nano = t }

-- The directory is made, and the file of the entry cannot be written.
abbrev first_call : Call ℕ
first_call = record { method = start_call asked (codes "a1"); works = 1; now = at_time 5 }

abbrev second_call : Call ℕ
second_call = record { method = start_call asked (codes "b2"); works = 9; now = at_time 4 }

first_call-IsId : IsId (codes "chat_" ++ codes "a1")
unfolding trim_space
first_call-IsId = (refl, λ e. cc)

second_call-IsId : IsId (codes "chat_" ++ codes "b2")
unfolding trim_space
second_call-IsId = (refl, λ e. cc)

first_fails : (step (empty_held ℕ) first_call).error ≡ some save_failed
unfolding step is_allowed_limit
first_fails = refl

second_succeeds : (step (run (empty_held ℕ) (first_call ∷ [])) second_call).error ≡ none
unfolding step run is_allowed_limit
second_succeeds = refl

saved_call-Mirrors_example :
    Mirrors
      (step (run (empty_held ℕ) (first_call ∷ [])) second_call).store
      (step (run (empty_held ℕ) (first_call ∷ [])) second_call).disk
saved_call-Mirrors_example =
    saved_call-Mirrors (first_call ∷ []) second_call (first_call-IsId, tt) second_call-IsId
      second_succeeds

abbrev listed_store : Store ℕ
listed_store = record (new ℕ) { details = (codes "chat_a1", started asked (codes "a1") 5 5) ∷ [] }

listed_store-IsKeyed : All IsKeyed listed_store.details
unfolding started
listed_store-IsKeyed = ((first_call-IsId, refl), tt)

rebuild_index-Lists_example :
    Lists (allowed_or_default listed_store.state.limit) (rebuild_index listed_store)
rebuild_index-Lists_example = rebuild_index-Lists listed_store listed_store-IsKeyed
