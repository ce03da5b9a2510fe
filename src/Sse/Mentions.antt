-- ===== src/Sse/Mentions.antt =====
-- internal/sse/citation_links.go, without its maps: what the values of a stream cite, in the order in which
-- they stand there, and the links that follow from that.
use generalcompute2api.Prelude.{
  ℕ, zero, suc, Bool, true, false, List, [], ◌∷◌, ◌++◌, Option, none, some, if◌then◌else◌, ◌==◌,
}
use generalcompute2api.Prelude.Int.{ℤ, pos}
use generalcompute2api.Prelude.Text.{Str, codes, str_eq, trim_space}
use generalcompute2api.Sse.Json.{
  Fields, Items, Json, array, field, get_field, item, no_fields, no_items, object, string_field,
}
use generalcompute2api.Sse.Citations.{citation_index_from_any, is_web_url}
use generalcompute2api.Sse.Lines.{Line, chunk, parse_deepseek_sse_line}
use generalcompute2api.Sse.Collect.{is_done}

-- An object with the URL of a web page, and its index, if it has one.
pub record Mention : Type 0 where
  pub url : Str
  pub index : Option ℤ

abbrev pub has_index : ℕ → Option ℤ → Bool
has_index i (some (pos k)) = k == i
has_index i _ = false

-- The URL that was first mentioned with the index.
unfoldable pub first_with : ℕ → List Mention → Option Str
first_with i [] = none
first_with i (m ∷ ms) =
    let rest = first_with i ms in if has_index i m.index then some m.url else rest

-- The URL of the mention with this many before it.
unfoldable pub mentioned_at : ℕ → List Mention → Option Str
mentioned_at i [] = none
mentioned_at zero (m ∷ ms) = some m.url
mentioned_at (suc i) (m ∷ ms) = mentioned_at i ms

abbrev pub is_there : Option Str → Bool
is_there none = false
is_there (some u) = true

abbrev pub is_link : Str → Option Str → Bool
is_link s none = false
is_link s (some u) = str_eq u s

-- The link of an index, from the URL with the index, the one with the index before where the indexes count
-- from 0, and the one that stands at the place of the index.
abbrev pub settle : Option Str → Option Str → Option Str → Option Str
settle none none placed = placed
settle (some direct) none placed = some direct
settle none (some shifted) placed = some shifted
settle (some direct) (some shifted) placed =
    if is_link shifted placed then some shifted else some direct

unfoldable pub cited_link : List Mention → ℕ → Option Str
unfolding first_with mentioned_at str_eq
cited_link ms zero = none
cited_link ms (suc j) =
    settle (first_with (suc j) ms) (if is_there (first_with 0 ms) then first_with j ms else none)
      (mentioned_at j ms)

module _ (to_lower : Str → Str) (int_of : Str → ℤ) where
  -- What an object cites itself.
  unfoldable pub own_mention : Fields → List Mention
  unfolding is_web_url citation_index_from_any string_field get_field trim_space
  own_mention m =
      let url = trim_space (string_field (codes "url") m) in
      if is_web_url to_lower int_of url
      then record {
        url = url;
        index = citation_index_from_any int_of (get_field (codes "cite_index") m);
      }
        ∷ []
      else []

  unfoldable mutual
    unfolding own_mention

    pub mentions : Json → List Mention
    mentions (array items) = item_mentions items
    mentions (object m) = own_mention m ++ field_mentions m
    mentions _ = []

    pub item_mentions : Items → List Mention
    item_mentions no_items = []
    item_mentions (item v items) = mentions v ++ item_mentions items

    pub field_mentions : Fields → List Mention
    field_mentions no_fields = []
    field_mentions (field key v m) = mentions v ++ field_mentions m

  abbrev pub line_mentions : Line → List Mention
  line_mentions (chunk m) = mentions (object m)
  line_mentions _ = []

  -- What the lines of a stream cite, up to the line that ends it.
  unfoldable pub stream_mentions : (Str → Option Fields) → List Str → List Mention
  unfolding mentions parse_deepseek_sse_line
  stream_mentions unmarshal [] = []
  stream_mentions unmarshal (raw ∷ lines) =
      let line = parse_deepseek_sse_line unmarshal raw in
      let rest = stream_mentions unmarshal lines in
      if is_done line then [] else line_mentions line ++ rest
