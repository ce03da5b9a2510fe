-- ===== src/ChatHistory/Order.antt =====
-- The order of the index: newest first.
use generalcompute2api.Prelude.{
  ℕ, zero, suc, ◌≡◌, true, false, List, [], ◌∷◌, ◌==◌, arith, Bool-cases, inl, inr, both_branches,
  take, All, ◌<◌, ◌≤◌,
}
use generalcompute2api.ChatHistory.{SummaryEntry}
use generalcompute2api.ChatHistory.Index.{insert_newest, newer, sort_newest}

-- A summary stands before another: it was created later, or at the same time and it has the greater
-- revision, or that too is the same and it was not updated earlier.
pub data StandsBefore (a b : SummaryEntry) : Type 0 where
  created_later : b.created_at < a.created_at → StandsBefore a b
  revised_more : b.created_at ≡ a.created_at → b.revision < a.revision → StandsBefore a b
  updated_no_earlier :
      b.created_at ≡ a.created_at
      → b.revision ≡ a.revision
      → b.updated_at ≤ a.updated_at
      → StandsBefore a b

-- Newest first: each stands before all that follow it.
abbrev pub NewestFirst : List SummaryEntry → Type 0
NewestFirst [] = Unit {0}
NewestFirst (a ∷ bs) = All (StandsBefore a) bs × NewestFirst bs

not_newer-StandsBefore : (a b : SummaryEntry) → newer b a ≡ false → StandsBefore a b
unfolding newer
not_newer-StandsBefore a b h = elim (Bool-cases (b.created_at == a.created_at)) [
  | inr other ↦ created_later (ground arith)
  | inl same ↦ elim (Bool-cases (b.revision == a.revision)) [
    | inr other ↦ revised_more (ground arith) (ground arith)
    | inl equal ↦ updated_no_earlier (ground arith) (ground arith) (ground arith)
  ]
]

-- No summary of the list is newer than `a`, by the comparison of the code.
abbrev NoneNewer : SummaryEntry → List SummaryEntry → Type 0
NoneNewer a bs = All (λ b. newer b a ≡ false) bs

abbrev IsSorted : List SummaryEntry → Type 0
IsSorted [] = Unit {0}
IsSorted (a ∷ bs) = NoneNewer a bs × IsSorted bs

NoneNewer-StandsBefore :
    (a : SummaryEntry) (bs : List SummaryEntry) → NoneNewer a bs → All (StandsBefore a) bs
NoneNewer-StandsBefore a [] h = tt
NoneNewer-StandsBefore a (b ∷ bs) h =
    (not_newer-StandsBefore a b h.0, NoneNewer-StandsBefore a bs h.1)

IsSorted-NewestFirst : (as' : List SummaryEntry) → IsSorted as' → NewestFirst as'
IsSorted-NewestFirst [] h = tt
IsSorted-NewestFirst (a ∷ bs) h = (NoneNewer-StandsBefore a bs h.0, IsSorted-NewestFirst bs h.1)

newer_asym : (a b : SummaryEntry) → newer a b ≡ true → newer b a ≡ false
unfolding newer
newer_asym a b h = ground arith

newer_trans : (a b c : SummaryEntry) → newer b a ≡ false → newer c b ≡ false → newer c a ≡ false
unfolding newer
newer_trans a b c h k = ground arith

NoneNewer-transport :
    (a b : SummaryEntry) (cs : List SummaryEntry)
    → newer b a ≡ false
    → NoneNewer b cs
    → NoneNewer a cs
NoneNewer-transport a b [] h k = tt
NoneNewer-transport a b (c ∷ cs) h k = (newer_trans a b c h k.0, NoneNewer-transport a b cs h k.1)

insert_newest-NoneNewer :
    (a x : SummaryEntry) (bs : List SummaryEntry)
    → newer x a ≡ false
    → NoneNewer a bs
    → NoneNewer a (insert_newest x bs)
unfolding insert_newest
insert_newest-NoneNewer a x [] h k = (h, tt)
insert_newest-NoneNewer a x (b ∷ bs) h k =
    both_branches (NoneNewer a) (newer x b) (h, k) (k.0, insert_newest-NoneNewer a x bs h k.1)

insert_newest-IsSorted :
    (x : SummaryEntry) (bs : List SummaryEntry) → IsSorted bs → IsSorted (insert_newest x bs)
unfolding insert_newest
insert_newest-IsSorted x [] h = (tt, tt)
insert_newest-IsSorted x (b ∷ bs) h = elim (Bool-cases (newer x b)) [
  | inl before ↦
      rw before ((newer_asym x b before, NoneNewer-transport x b bs (newer_asym x b before) h.0), h)
  | inr after ↦ rw after (insert_newest-NoneNewer b x bs after h.0, insert_newest-IsSorted x bs h.1)
]

sort_newest-IsSorted : (as' : List SummaryEntry) → IsSorted (sort_newest as')
unfolding sort_newest
sort_newest-IsSorted [] = tt
sort_newest-IsSorted (a ∷ rest) =
    insert_newest-IsSorted a (sort_newest rest) (sort_newest-IsSorted rest)

pub sort_newest-NewestFirst : (as' : List SummaryEntry) → NewestFirst (sort_newest as')
sort_newest-NewestFirst as' = IsSorted-NewestFirst (sort_newest as') (sort_newest-IsSorted as')

take-StandsBefore :
    (n : ℕ) (a : SummaryEntry) (bs : List SummaryEntry)
    → All (StandsBefore a) bs
    → All (StandsBefore a) (take n bs)
take-StandsBefore zero a bs h = tt
take-StandsBefore (suc n) a [] h = tt
take-StandsBefore (suc n) a (b ∷ bs) h = (h.0, take-StandsBefore n a bs h.1)

pub take-NewestFirst : (n : ℕ) (bs : List SummaryEntry) → NewestFirst bs → NewestFirst (take n bs)
take-NewestFirst zero bs h = tt
take-NewestFirst (suc n) [] h = tt
take-NewestFirst (suc n) (b ∷ bs) h = (take-StandsBefore n b bs h.0, take-NewestFirst n bs h.1)
