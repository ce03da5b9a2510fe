-- ===== src/Sse/Citations.antt =====
-- internal/sse/citation_links.go: the links that the chunks of a stream cite. strings.ToLower and the whole
-- number that a JSON number is cut to are arguments. A Go map from numbers is a function, or a list of
-- entries where the code runs over it; the order in which Go does that is not fixed.
use generalcompute2api.Prelude.{
  ℕ, zero, suc, Bool, false, not, ◌&&◌, ◌||◌, List, [], ◌∷◌, ◌++◌, Option, none, some,
  if◌then◌else◌, ◌==◌,
}
use generalcompute2api.Prelude.Int.{ℤ, pos}
use generalcompute2api.Prelude.Text.{Str, atoi, codes, has_prefix, str_eq, trim_space}
use generalcompute2api.Sse.Json.{
  Fields, Items, Json, array, field, get_field, item, no_fields, no_items, number, object, string,
  string_field,
}

pub record Collector : Type 0 where
  pub ordered : List Str
  pub explicit_raw : List (ℕ × Str)
  pub has_zero_idx : Bool

abbrev pub new_collector : Collector
new_collector = record { ordered = []; explicit_raw = []; has_zero_idx = false }

abbrev pub Links : Type 0
Links = ℕ → Option Str

abbrev pub no_links : Links
no_links j = none

abbrev pub put_link : ℕ → Str → Links → Links
put_link i u out j = if j == i then some u else out j

unfoldable pub is_blank_text : Str → Bool
unfolding trim_space str_eq
is_blank_text u = str_eq (trim_space u) []

unfoldable pub raw_link : ℕ → List (ℕ × Str) → Option Str
raw_link i [] = none
raw_link i ((j, u) ∷ es) = if j == i then some u else raw_link i es

unfoldable pub set_raw_link : ℕ → Str → List (ℕ × Str) → List (ℕ × Str)
set_raw_link i u [] = (i, u) ∷ []
set_raw_link i u ((j, v) ∷ es) = if j == i then (i, u) ∷ es else (j, v) ∷ set_raw_link i u es

-- The URL that stands at an index that counts from 1.
unfoldable pub ordered_at : ℕ → List Str → Option Str
ordered_at i [] = none
ordered_at zero us = none
ordered_at (suc zero) (u ∷ us) = some u
ordered_at (suc (suc i)) (u ∷ us) = ordered_at (suc i) us

unfoldable pub prefer_url_for_index : List Str → ℕ → Str → Str → Str
unfolding ordered_at is_blank_text str_eq
prefer_url_for_index us idx current candidate = elim (ordered_at idx us) [
  | none ↦ current
  | some expected ↦
      if is_blank_text expected
      then current
      else if str_eq candidate expected && not (str_eq current expected)
      then candidate
      else current
]

-- The loops of `buildNormalizedExplicit`.
unfoldable pub keep_positive : List (ℕ × Str) → Links → Links
unfolding is_blank_text
keep_positive [] out = out
keep_positive ((idx, u) ∷ es) out =
    keep_positive es (if idx == 0 || is_blank_text u then out else put_link idx u out)

unfoldable pub put_preferred : List Str → ℕ → Str → Option Str → Links → Links
unfolding prefer_url_for_index
put_preferred us idx u none out = put_link idx u out
put_preferred us idx u (some existing) out =
    if str_eq (prefer_url_for_index us idx existing u) u then put_link idx u out else out

unfoldable pub add_shifted : List Str → List (ℕ × Str) → Links → Links
unfolding put_preferred is_blank_text
add_shifted us [] out = out
add_shifted us ((raw, u) ∷ es) out =
    add_shifted us es
      (if is_blank_text u then out else put_preferred us (suc raw) u (out (suc raw)) out)

unfoldable pub build_normalized_explicit : Collector → Links
unfolding keep_positive add_shifted
build_normalized_explicit c =
    let out = keep_positive c.explicit_raw no_links in
    if c.has_zero_idx then add_shifted c.ordered c.explicit_raw out else out

abbrev pub put_missing : ℕ → Str → Option Str → Links → Links
put_missing idx u none out = put_link idx u out
put_missing idx u (some _) out = out

-- The loop of `build`, from the number of URLs before.
unfoldable pub add_ordered_from : ℕ → List Str → Links → Links
add_ordered_from i [] out = out
add_ordered_from i (u ∷ us) out =
    add_ordered_from (suc i) us (put_missing (suc i) u (out (suc i)) out)

unfoldable pub build : Collector → Links
unfolding build_normalized_explicit add_ordered_from
build c = add_ordered_from 0 c.ordered (build_normalized_explicit c)

unfoldable pub index_of_text : Str → Option ℤ
unfolding trim_space atoi
index_of_text s = elim (trim_space s) [ [] ↦ none | c ∷ t ↦ atoi (c ∷ t) ]

unfoldable pub citation_index_from_any : (Str → ℤ) → Option Json → Option ℤ
unfolding index_of_text
citation_index_from_any int_of (some (number n)) = some (int_of n)
citation_index_from_any int_of (some (string s)) = index_of_text s
citation_index_from_any int_of _ = none

unfoldable pub has_kept_link : Option Str → Bool
unfolding is_blank_text
has_kept_link none = false
has_kept_link (some u) = not (is_blank_text u)

unfoldable pub add_explicit : Str → Option ℤ → Collector → Collector
unfolding has_kept_link raw_link set_raw_link
add_explicit url (some (pos idx)) c =
    let noted = record c { has_zero_idx = c.has_zero_idx || idx == 0 } in
    if has_kept_link (raw_link idx c.explicit_raw)
    then noted
    else record noted { explicit_raw = set_raw_link idx url c.explicit_raw }
add_explicit url _ c = c

module _ (to_lower : Str → Str) (int_of : Str → ℤ) where
  unfoldable pub is_web_url : Str → Bool
  unfolding has_prefix trim_space
  is_web_url v =
      let s = to_lower (trim_space v) in
      has_prefix s (codes "http://") || has_prefix s (codes "https://")

  unfoldable pub capture_url_and_index : Fields → Collector → Collector
  unfolding is_web_url add_explicit citation_index_from_any string_field get_field trim_space
  capture_url_and_index m c =
      let url = trim_space (string_field (codes "url") m) in
      if not (is_web_url url)
      then c
      else add_explicit url (citation_index_from_any int_of (get_field (codes "cite_index") m))
          (record c { ordered = c.ordered ++ (url ∷ []) })

  unfoldable mutual
    pub walk_value : Json → Collector → Collector
    walk_value (array items) c = walk_items items c
    walk_value (object m) c = walk_fields m (capture_url_and_index m c)
    walk_value _ c = c

    pub walk_items : Items → Collector → Collector
    walk_items no_items c = c
    walk_items (item v items) c = walk_items items (walk_value v c)

    pub walk_fields : Fields → Collector → Collector
    walk_fields no_fields c = c
    walk_fields (field key v m) c = walk_fields m (walk_value v c)

  unfoldable pub ingest_chunk : Fields → Collector → Collector
  unfolding walk_value
  ingest_chunk chunk c = walk_value (object chunk) c
