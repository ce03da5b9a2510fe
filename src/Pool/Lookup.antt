-- ===== src/Pool/Lookup.antt =====
-- internal/account/lookup.go, and the helpers of pool_core.go that order accounts and read their
-- identifiers.
use generalcompute2api.Prelude.{
  Bool, true, false, not, ◌&&◌, ◌||◌, List, [], ◌∷◌, Option, none, some, if◌then◌else◌, select, ltb,
  ◌==◌,
}
use mathlib.Core.Option
use generalcompute2api.Prelude.Maps.{lookup, insert}
use generalcompute2api.Prelude.Text.{Str, str_eq, trim_space}
use generalcompute2api.Config.{Account, identifier}

pub record MemoryLookup : Type 0 where
  pub accounts : List Account
  pub by_id : List (Str × Account)

abbrev pub is_empty : Str → Bool
is_empty [] = true
is_empty (c ∷ s) = false

-- The loop of `NewMemoryLookup` over the map filled so far.
unfoldable pub index_accounts : List (Str × Account) → List Account → List (Str × Account)
index_accounts m [] = m
index_accounts m (a ∷ rest) =
    index_accounts (if is_empty (identifier a) then m else insert (identifier a) a m) rest

unfoldable pub new_memory_lookup : List Account → MemoryLookup
unfolding index_accounts
new_memory_lookup accounts = record {
  accounts = select (λ a. not (is_empty (identifier a))) accounts;
  by_id = index_accounts [] accounts;
}

unfoldable pub find_account : MemoryLookup → Str → Option Account
find_account m id = lookup (trim_space id) m.by_id

abbrev pub has_token : Account → Bool
has_token a = not (is_empty a.token)

-- The comparison of `sortedAccountsForQueue` on a later and an earlier element.
abbrev pub goes_before : Account → Account → Bool
goes_before a b = has_token a && not (has_token b)

unfoldable pub insert_sorted : Account → List Account → List Account
insert_sorted a [] = a ∷ []
insert_sorted a (b ∷ bs) = if goes_before a b then a ∷ b ∷ bs else b ∷ insert_sorted a bs

unfoldable pub insert_all : List Account → List Account → List Account
insert_all done [] = done
insert_all done (a ∷ rest) = insert_all (insert_sorted a done) rest

-- `sort.SliceStable` as the insertion sort that it documents.
unfoldable pub sorted_accounts_for_queue : List Account → List Account
unfolding insert_all insert_sorted
sorted_accounts_for_queue accounts = insert_all [] accounts

unfoldable pub account_ids : List Account → List Str
account_ids [] = []
account_ids (a ∷ rest) =
    if is_empty (identifier a) then account_ids rest else identifier a ∷ account_ids rest

unfoldable pub contains : Str → List Str → Bool
contains id [] = false
contains id (x ∷ xs) = str_eq x id || contains id xs

-- The list without the first occurrence; none if there is none.
unfoldable pub remove_first : Str → List Str → Option (List Str)
remove_first id [] = none
remove_first id (x ∷ xs) =
    if str_eq x id then some xs else Option.map (λ rest. x ∷ rest) (remove_first id xs)

-- Go's order on strings, by bytes.
unfoldable pub str_less : Str → Str → Bool
str_less _ [] = false
str_less [] (y ∷ b) = true
str_less (x ∷ a) (y ∷ b) = ltb x y || (x == y && str_less a b)

unfoldable pub insert_string : Str → List Str → List Str
insert_string s [] = s ∷ []
insert_string s (t ∷ ts) = if str_less s t then s ∷ t ∷ ts else t ∷ insert_string s ts

-- `sort.Strings`.
unfoldable pub sort_strings : List Str → List Str
unfolding insert_string str_less
sort_strings [] = []
sort_strings (s ∷ rest) = insert_string s (sort_strings rest)
