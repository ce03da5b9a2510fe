-- ===== src/DevCapture/Tests.antt =====
-- A body that is read, cut and closed.
use generalcompute2api.Prelude.{◌≡◌, refl, List, [], ◌∷◌, ◌++◌, true, false, some}
use generalcompute2api.Prelude.Text.{codes}
use generalcompute2api.DevCapture.{CaptureBody, Session, Store, append, new_from_env, wrap_body}
use generalcompute2api.DevCapture.Bodies.{
  Recorded, Step, capture-Recorded, close_body, has_end, read_chunk, run, taken_until_end,
}
use generalcompute2api.DevCapture.Recent.{append_after_cut}

abbrev the_store : Store
the_store = record { enabled = true; limit = 2; max_body_bytes = 4; items = [] }

abbrev the_session : Session
the_session = record {
  id = codes "cap_1";
  created_at = 1;
  label = [];
  url = [];
  account_id = [];
  request_raw = codes "{}";
}

abbrev the_body : CaptureBody
the_body = wrap_body the_session 200

abbrev the_steps : List Step
the_steps = read_chunk (codes "ab") false ∷ read_chunk (codes "c") true ∷ close_body ∷ []

-- The limit is capped at 50, and a body limit below 1024 is the default.
from_env :
    new_from_env (some (codes "On")) (codes "70") (codes "100")
    ≡ record { enabled = true; limit = 50; max_body_bytes = 5242880; items = [] }
unfolding new_from_env
from_env = refl

capture-Recorded_example :
    Recorded the_store
      (run (the_store, the_body) the_steps).0
      the_session
      200
      (has_end the_steps)
      (taken_until_end the_steps)
capture-Recorded_example = capture-Recorded the_store the_session 200 the_steps

append_after_cut_example :
    (append 4
      (append 4 (record the_body { buf = codes "abc" }) (195 ∷ 169 ∷ 122 ∷ []))
      (120 ∷ [])).buf
    ≡ codes "abc" ++ (120 ∷ [])
append_after_cut_example =
    append_after_cut (record the_body { buf = codes "abc" }) 4 195 169 (122 ∷ []) 120 refl refl
