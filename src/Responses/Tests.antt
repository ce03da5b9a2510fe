-- ===== src/Responses/Tests.antt =====
-- A response put and asked for again.
use generalcompute2api.Prelude.{List, ◌+◌, ℕ, ◌≡◌, refl, [], ◌∷◌, some, none, if◌then◌else◌, ltb}
use generalcompute2api.Prelude.Text.{codes, str_eq}
use generalcompute2api.Responses.{
  ResponseStore, get, new_response_store, put, response_store_key, sweep,
}
use generalcompute2api.Prelude.Maps.{insert, lookup}
use generalcompute2api.Responses.Owners.{Put, WasPut, after_puts, get-WasPut}
use generalcompute2api.Responses.Keys.{get-put}

abbrev empty_store : ResponseStore ℕ
empty_store = new_response_store ℕ 60

-- It is there within the minute, for its owner only.
kept_and_gone :
    ((get (put empty_store (codes "me") (codes "r1") (some 7) 100) (codes "me") (codes "r1") 160).1
      ≡ some 7)
    × ((get
          (put empty_store (codes "me") (codes "r1") (some 7) 100)
          (codes "me")
          (codes "r1")
          161).1
        ≡ none)
    × ((get
          (put empty_store (codes "me") (codes "r1") (some 7) 100)
          (codes "you")
          (codes "r1")
          160).1
        ≡ none)
unfolding get put lookup insert sweep str_eq response_store_key
kept_and_gone = (refl, refl, refl)

get-put_example :
    (get (put empty_store (codes "me") (codes "r1") (some 7) 100) (codes "me") (codes "r1") 160).1
    ≡ (if ltb (100 + 60) 160 then none else some 7)
get-put_example = get-put empty_store 109 114 (101 ∷ []) (49 ∷ []) 7 100 160 tt

abbrev the_puts : List (Put ℕ)
the_puts = record { owner = codes "me"; id = codes "r1"; value = some 7; now = 100 } ∷ []

given_out :
    (get (after_puts (new_response_store ℕ 60) the_puts) (codes "me") (codes "r1") 160).1 ≡ some 7
unfolding get put lookup insert sweep str_eq response_store_key
given_out = refl

get-WasPut_example : WasPut (codes "me") (codes "r1") 7 the_puts
get-WasPut_example = get-WasPut 60 the_puts (codes "me") (codes "r1") 7 160 given_out
