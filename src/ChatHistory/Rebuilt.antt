-- ===== src/ChatHistory/Rebuilt.antt =====
-- `rebuildIndexLocked`: the index against the details.
use generalcompute2api.Prelude.{
  ℕ, zero, suc, ◌≤◌, ◌<◌, ◌≡◌, refl, ap, sym, ◌∙◌, Bool, true, false, List, map, Option, none, some,
  arith, Bool-cases, inl, inr, Option-cases, length, take, length-take, All, ltb, ltb_false→le,
}
use generalcompute2api.Prelude.Maps.{has_key, lookup}
use generalcompute2api.Prelude.Text.{Str}
use generalcompute2api.ChatHistory.{Entry, Store, SummaryEntry, summary_from_entry}
use generalcompute2api.ChatHistory.Index.{
  allowed_or_default, contains, ids_of, index_within, prune, rebuild_index, summaries_of,
  with_limit,
}
use generalcompute2api.ChatHistory.Keys.{IsKeyed}
use generalcompute2api.ChatHistory.Listing.{
  contains-sort_newest, contains-summaries, contains-take, prune-gone, prune-kept, prune-none,
}
use generalcompute2api.ChatHistory.Order.{NewestFirst, sort_newest-NewestFirst, take-NewestFirst}

-- An index that is newest first, within a limit unless that is 0, and of just the conversations kept.
pub record Lists {J : Type 0} (limit : ℕ) (t : Store J) : Type 0 where
  pub ordered : NewestFirst t.state.items
  pub within : 0 < limit → length t.state.items ≤ limit
  pub listed : (id : Str) → contains id (ids_of t.state.items) ≡ has_key id t.details

module _ {J : Type 0} where
  contains-summaries_of :
      (id : Str) (m : List (Str × Entry J))
      → All IsKeyed m
      → contains id (ids_of (summaries_of m)) ≡ has_key id m
  contains-summaries_of id m h =
      contains-sort_newest id (map (λ (p : Str × Entry J). summary_from_entry p.1) m)
      ∙ contains-summaries id m h

  -- The details after all but the first summaries are deleted.
  has_key-pruned :
      (id : Str) (n : ℕ) (s t : Store J)
      → All IsKeyed s.details
      → t.details ≡ s.details
      → contains id (ids_of (take n (summaries_of s.details)))
        ≡ has_key id (prune (ids_of (take n (summaries_of s.details))) s.details t).details
  has_key-pruned id n s t h same = elim (Bool-cases (contains id keep)) [
    | inl kept ↦
        kept
        ∙ sym (contains-take id n (summaries_of s.details) kept)
        ∙ contains-summaries_of id s.details h
        ∙ sym (ap shown (prune-kept id keep s.details t kept ∙ ap (lookup id) same))
    | inr cut ↦ cut ∙ sym (ap shown (gone cut))
  ]
    where
      keep : List Str
      keep = ids_of (take n (summaries_of s.details))

      shown : Option (Entry J) → Bool
      shown o = elim o [ none ↦ false | some _ ↦ true ]

      gone : contains id keep ≡ false → lookup id (prune keep s.details t).details ≡ none
      gone cut = elim (Option-cases (lookup id s.details)) [
        | inl absent ↦ prune-none id keep s.details t (ap (lookup id) same ∙ absent)
        | inr (e, there) ↦ prune-gone id keep s.details t cut (λ k. cc)
      ]

  -- Where every entry is under its own identifier, the index that is rebuilt is newest first, within the
  -- limit unless that is 0, which keeps all, and it lists just the conversations that the store keeps.
  pub rebuild_index-Lists :
      (s : Store J)
      → All IsKeyed s.details
      → Lists (allowed_or_default s.state.limit) (rebuild_index s)
  unfolding rebuild_index
  rebuild_index-Lists s h = go (allowed_or_default s.state.limit)
    where
      all : List SummaryEntry
      all = summaries_of s.details

      ordered : NewestFirst all
      ordered =
          sort_newest-NewestFirst (map (λ (p : Str × Entry J). summary_from_entry p.1) s.details)

      go : (n : ℕ) → Lists n (index_within n (with_limit s n) all)
      go zero = record {
        ordered = ordered;
        within = λ k. absurd (omega (arith, k));
        listed = λ id. contains-summaries_of id s.details h;
      }
      go (suc n) = elim (Bool-cases (ltb (suc n) (length all))) [
        | inl long ↦ rw long (record {
          ordered = take-NewestFirst (suc n) all ordered;
          within = λ _. omega (arith, length-take (suc n) all);
          listed = λ id. has_key-pruned id (suc n) s (with_limit s (suc n)) h refl;
        })
        | inr fits ↦ rw fits (record {
          ordered = ordered;
          within = λ _. ltb_false→le _ _ fits;
          listed = λ id. contains-summaries_of id s.details h;
        })
      ]
