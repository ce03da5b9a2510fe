-- ===== src/Sse.antt =====
-- internal/sse: what one line of the stream says (line.go, parser.go), and (dedupe.go) what is new in a chunk of a stream that may replay what it has sent.
pub mod Dedupe
pub mod Json
pub mod Tags
pub mod Chunk
pub mod Kinds
pub mod Filter
pub mod Filtered
pub mod Choices
pub mod Parse
pub mod Pieces
pub mod Parts
pub mod Hidden
pub mod Lines
pub mod Lifted
pub mod Read
pub mod Collect
pub mod Silent
pub mod Citations
pub mod Indexed
pub mod Cited
pub mod Pump
pub mod Pumped
pub mod Mentions
pub mod Held
pub mod Mentioned
pub mod Settled
pub mod Linked
pub mod Tests
use generalcompute2api.Prelude.{
  ℕ, ◌-◌, Bool, true, false, ◌&&◌, List, [], ◌∷◌, if◌then◌else◌, ltb, length, drop,
}
use generalcompute2api.Prelude.Text.{Str, codes, has_prefix, trim_space}
use generalcompute2api.Util.{rune_count}

-- parser.go: a piece of content; its type is "thinking" or "text".
pub record ContentPart : Type 0 where
  pub text : Str
  pub type : Str

-- line.go: what one line of the stream says.
pub record LineResult : Type 0 where
  pub parsed : Bool
  pub stop : Bool
  pub content_filter : Bool
  pub error_message : Str
  pub parts : List ContentPart
  pub tool_detection_thinking_parts : List ContentPart
  pub next_type : Str
  pub response_message_id : ℕ

abbrev pub min_continuation_snapshot_len : ℕ
min_continuation_snapshot_len = 32

-- Both texts are there, and the chunk is long enough to be a snapshot.
abbrev pub trim_snapshot : Str → Str → Str
trim_snapshot existing incoming =
    if ltb (length existing) (length incoming)
    then (if has_prefix incoming existing then drop (length existing) incoming else incoming)
    else if ltb (length incoming) (length existing) && has_prefix existing incoming
    then []
    else incoming

unfoldable pub trim_continuation_overlap : Str → Str → Str
unfolding has_prefix
trim_continuation_overlap existing [] = []
trim_continuation_overlap [] (c ∷ s) = c ∷ s
trim_continuation_overlap (e ∷ t) (c ∷ s) =
    if ltb (rune_count (c ∷ s)) min_continuation_snapshot_len
    then c ∷ s
    else trim_snapshot (e ∷ t) (c ∷ s)

-- The same over a builder that may be nil; the prefix test is made only where the lengths differ.
abbrev pub trim_from_builder : Str → Str → Str
trim_from_builder existing incoming =
    if ltb (length existing) (length incoming)
    then (if has_prefix incoming existing then drop (length existing) incoming else incoming)
    else if ltb (length incoming) (length existing)
    then (if has_prefix existing incoming then [] else incoming)
    else incoming

unfoldable pub trim_continuation_overlap_from_builder : Str → Str → Str
unfolding has_prefix
trim_continuation_overlap_from_builder existing [] = []
trim_continuation_overlap_from_builder [] (c ∷ s) = c ∷ s
trim_continuation_overlap_from_builder (e ∷ t) (c ∷ s) =
    if ltb (rune_count (c ∷ s)) min_continuation_snapshot_len
    then c ∷ s
    else trim_from_builder (e ∷ t) (c ∷ s)

-- `IsCitation` of parser.go.
unfoldable pub is_citation : Str → Bool
unfolding has_prefix trim_space
is_citation text = has_prefix (trim_space text) (codes "[citation:")
