-- ===== src/Sse/Dedupe.antt =====
-- What `TrimContinuationOverlap` makes of a chunk.
use generalcompute2api.Prelude.{
  ◌≤◌, ◌<◌, ◌≡◌, refl, ap, ◌∙◌, ◌≢◌, true, [], ◌∷◌, ◌++◌, arith, if◌then◌else◌, ltb, length, drop,
  length-append, lt→ltb, le→ltb_false,
}
use generalcompute2api.Prelude.Text.{Str, has_prefix}
use generalcompute2api.Util.{rune_count}
use generalcompute2api.Sse.{
  min_continuation_snapshot_len, trim_continuation_overlap, trim_continuation_overlap_from_builder,
  trim_snapshot, trim_from_builder,
}

-- `existing` goes on to `incoming`.
pub has_prefix-append : (p s : Str) → has_prefix (p ++ s) p ≡ true
unfolding has_prefix
has_prefix-append [] s = refl
has_prefix-append (x ∷ p) s = ground (arith, has_prefix-append p s)

pub has_prefix-split : (s p : Str) → has_prefix s p ≡ true → s ≡ p ++ drop (length p) s
unfolding has_prefix
has_prefix-split s [] h = refl
has_prefix-split [] (y ∷ p) h = absurd (cc)
has_prefix-split (x ∷ s) (y ∷ p) h = ground (arith, has_prefix-split s p)

trim_from_builder_lem :
    (existing incoming : Str)
    → trim_from_builder existing incoming ≡ trim_snapshot existing incoming
trim_from_builder_lem existing incoming = ground arith

drop-append : (xs ys : Str) → drop (length xs) (xs ++ ys) ≡ ys
drop-append [] ys = refl
drop-append (x ∷ xs) ys = drop-append xs ys

-- The version over a builder makes the same of every chunk as the version over two strings.
pub trim_continuation_overlap_builders :
    (existing incoming : Str)
    → trim_continuation_overlap_from_builder existing incoming
      ≡ trim_continuation_overlap existing incoming
unfolding trim_continuation_overlap trim_continuation_overlap_from_builder
trim_continuation_overlap_builders existing [] = refl
trim_continuation_overlap_builders [] (c ∷ s) = refl
trim_continuation_overlap_builders (e ∷ t) (c ∷ s) =
    ap (λ r. if ltb (rune_count (c ∷ s)) min_continuation_snapshot_len then c ∷ s else r)
      (trim_from_builder_lem (e ∷ t) (c ∷ s))

-- A chunk long enough to be a snapshot, against a text.
trim_long :
    (existing incoming : Str)
    → existing ≢ []
    → incoming ≢ []
    → 32 ≤ rune_count incoming
    → trim_continuation_overlap existing incoming ≡ trim_snapshot existing incoming
unfolding trim_continuation_overlap
trim_long existing [] h k n = absurd (k refl)
trim_long [] (c ∷ s) h k n = absurd (h refl)
trim_long (e ∷ t) (c ∷ s) h k n = rw (le→ltb_false (rune_count (c ∷ s)) 32 n)

trim_snapshot-longer :
    (existing more : Str) → more ≢ [] → trim_snapshot existing (existing ++ more) ≡ more
trim_snapshot-longer existing more h =
    rw
      (
        lt→ltb (length existing) (length (existing ++ more)) (longer more h),
        has_prefix-append existing more,
      )
      (drop-append existing more)
  where
    longer : (m : Str) → m ≢ [] → length existing < length (existing ++ m)
    longer [] h = absurd (h refl)
    longer (x ∷ m) h = omega (arith, length-append existing (x ∷ m))

trim_snapshot-shorter :
    (incoming more : Str) → more ≢ [] → trim_snapshot (incoming ++ more) incoming ≡ []
trim_snapshot-shorter incoming more h = rw (
  le→ltb_false (length (incoming ++ more)) (length incoming) (omega (arith, longer more h)),
  lt→ltb (length incoming) (length (incoming ++ more)) (longer more h),
  has_prefix-append incoming more,
)
  where
    longer : (m : Str) → m ≢ [] → length incoming < length (incoming ++ m)
    longer [] h = absurd (h refl)
    longer (x ∷ m) h = omega (arith, length-append incoming (x ∷ m))

append-ne-nil : (xs ys : Str) → xs ≢ [] → xs ++ ys ≢ []
append-ne-nil [] ys h e = h refl
append-ne-nil (x ∷ xs) ys h e = cc

trim_short :
    (existing incoming : Str)
    → rune_count incoming < 32
    → trim_continuation_overlap existing incoming ≡ incoming
unfolding trim_continuation_overlap
trim_short existing [] n = refl
trim_short [] (c ∷ s) n = refl
trim_short (e ∷ t) (c ∷ s) n = rw (lt→ltb (rune_count (c ∷ s)) 32 n)

-- A replay of at least 32 runes that goes on from a text that is not empty adds just what is new, a
-- replay of at least 32 runes that falls short of the text adds nothing, and a chunk of fewer runes is
-- added whole.
pub trim_continuation_overlap_replays :
    (text more : Str)
    → text ≢ []
    → more ≢ []
    → (32 ≤ rune_count (text ++ more) → trim_continuation_overlap text (text ++ more) ≡ more)
      × (32 ≤ rune_count text → trim_continuation_overlap (text ++ more) text ≡ [])
      × (rune_count more < 32 → trim_continuation_overlap text more ≡ more)
trim_continuation_overlap_replays text more h k = (
  λ n.
      trim_long text (text ++ more) h (append-ne-nil text more h) n
      ∙ trim_snapshot-longer text more k,
  λ n.
      trim_long (text ++ more) text (append-ne-nil text more h) h n
      ∙ trim_snapshot-shorter text more k,
  trim_short text more,
)
