-- ===== src/ChatHistory/Index.antt =====
-- `rebuildIndexLocked`: the summaries, newest first, and the conversations beyond the limit deleted. Go's sort
-- leaves summaries of the same times and revision in any order; here they keep that of the map.
use generalcompute2api.Prelude.{
  ℕ, zero, suc, Bool, false, List, [], ◌∷◌, map, if◌then◌else◌, ltb, ◌==◌, length, take, ◌||◌,
}
use generalcompute2api.Prelude.Int.{pos}
use generalcompute2api.Prelude.Maps.{erase}
use generalcompute2api.Prelude.Text.{Str, str_eq}
use generalcompute2api.ChatHistory.{
  Entry, Store, SummaryEntry, is_allowed_limit, mark_detail_deleted, summary_from_entry,
}

-- The order of the index.
unfoldable pub newer : SummaryEntry → SummaryEntry → Bool
newer a b =
    if a.created_at == b.created_at
    then (if a.revision == b.revision
        then ltb b.updated_at a.updated_at
        else ltb b.revision a.revision)
    else ltb b.created_at a.created_at

-- Before the first that it is newer than.
unfoldable pub insert_newest : SummaryEntry → List SummaryEntry → List SummaryEntry
unfolding newer
insert_newest a [] = a ∷ []
insert_newest a (b ∷ bs) =
    let rest = insert_newest a bs in if newer a b then a ∷ b ∷ bs else b ∷ rest

unfoldable pub sort_newest : List SummaryEntry → List SummaryEntry
unfolding insert_newest
sort_newest [] = []
sort_newest (a ∷ rest) = insert_newest a (sort_newest rest)

abbrev pub ids_of : List SummaryEntry → List Str
ids_of items = map (λ i. i.id) items

unfoldable pub contains : Str → List Str → Bool
unfolding str_eq
contains id [] = false
contains id (x ∷ xs) = str_eq x id || contains id xs

-- The loop that deletes what is not kept.
unfoldable pub delete_detail : {J : Type 0} → Store J → Str → Store J
unfolding mark_detail_deleted
delete_detail s id = let t = mark_detail_deleted s id in record t { details = erase id t.details }

unfoldable pub prune : {J : Type 0} → List Str → List (Str × Entry J) → Store J → Store J
unfolding contains delete_detail
prune keep [] s = s
prune keep ((id, e) ∷ es) s = prune keep es (if contains id keep then s else delete_detail s id)

abbrev pub summaries_of : {J : Type 0} → List (Str × Entry J) → List SummaryEntry
summaries_of details = sort_newest (map (λ (p : Str × Entry _). summary_from_entry p.1) details)

abbrev pub with_items : {J : Type 0} → Store J → List SummaryEntry → Store J
with_items s items = record s { state = record s.state { items = items } }

-- The part after the sort, for a limit that is allowed.
abbrev pub index_within : {J : Type 0} → ℕ → Store J → List SummaryEntry → Store J
index_within zero s summaries = with_items s summaries
index_within (suc n) s summaries =
    if ltb (suc n) (length summaries)
    then with_items (prune (ids_of (take (suc n) summaries)) s.details s) (take (suc n) summaries)
    else with_items s summaries

abbrev pub allowed_or_default : ℕ → ℕ
allowed_or_default n = if is_allowed_limit (pos n) then n else 20

abbrev pub with_limit : {J : Type 0} → Store J → ℕ → Store J
with_limit s n = record s { state = record s.state { limit = n } }

unfoldable pub rebuild_index : {J : Type 0} → Store J → Store J
unfolding sort_newest summary_from_entry prune
rebuild_index s =
    let limit = allowed_or_default s.state.limit in
    index_within limit (with_limit s limit) (summaries_of s.details)
