-- ===== src/Markup/Skips.antt =====
-- The sections that the scanner skips: the loops end, and a section ends after it begins.
use generalcompute2api.Prelude.{
  ℕ, zero, suc, ◌+◌, ◌-◌, ◌≤◌, ◌<◌, ◌≡◌, Option, none, some, leb, ltb, length, drop, take, arith,
  leb_false→lt,
}
use generalcompute2api.Prelude.Runs.{
  Ends, Ends-bind, Ends-bool, Ends-if, Ends-ok, Ends-option, slice_to,
}
use generalcompute2api.Prelude.Strings.{has_prefix-length, index, index-le}
use generalcompute2api.Prelude.Text.{Str, codes, has_prefix}
use generalcompute2api.Markup.Bounds.{Differ, reach, slice_from-Ends}
use generalcompute2api.Markup.Ignored.{
  Skip, advanced, blocked, nothing, cdata_end_loop, find_tool_cdata_end, skip_xml_ignored_section,
  cdata_end_looks_structural, cdata_offset_is_inside_markdown_fence,
}

-- A position that is found is at `from` or after it.
abbrev pub AtOrAfter : ℕ → Option ℕ → Type 0
AtOrAfter from none = Unit {0}
AtOrAfter from (some end) = from ≤ end

slice_to-Ends :
    (lower text : Str) (i : ℕ)
    → i ≤ length lower
    → Ends (Differ lower text) (λ s. s ≡ take i text) (slice_to i text)
unfolding Ends
slice_to-Ends lower text i h = ground arith

known-AtOrAfter :
    (from : ℕ) (first : Option ℕ) (end : ℕ)
    → from ≤ end
    → AtOrAfter from first
    → AtOrAfter from (elim first as (λ _. Option ℕ) [ none ↦ some end | some f ↦ some f ])
known-AtOrAfter from none end h k = h
known-AtOrAfter from (some f) end h k = k

cdata_end_loop-Ends :
    (fuel : ℕ) (lower text : Str) (from search_from : ℕ) (first : Option ℕ)
    → length text - search_from < fuel
    → from ≤ search_from
    → AtOrAfter from first
    → Ends
        (Differ lower text)
        (AtOrAfter from)
        (cdata_end_loop fuel text lower from search_from first)
unfolding cdata_end_loop
cdata_end_loop-Ends zero lower text from search_from first h k f = absurd (omega (arith, h))
cdata_end_loop-Ends (suc fuel) lower text from search_from first h k f =
    Ends-if _ _ (leb (length text) search_from) _ _ (λ e. Ends-ok _ (AtOrAfter from) first f)
      (λ e.
        Ends-bind _ _ _ _ _
          (slice_from-Ends search_from lower text (omega (arith, leb_false→lt _ _ e)))
          (λ tail m.
            Ends-option _ _ (index tail (codes "]]>")) _ _ (λ n. Ends-ok _ (AtOrAfter from) first f)
              (λ rel o.
                Ends-bind _ _ _ _ _
                  (slice_to-Ends lower text (search_from + rel)
                    (omega (arith, m, index-le tail (codes "]]>") rel o)))
                  (λ _ _.
                    Ends-bool _ _
                      (cdata_offset_is_inside_markdown_fence
                        (drop from (take (search_from + rel) text)))
                      _ _
                      (cdata_end_loop-Ends fuel lower text from (search_from + rel + 3) first
                        (omega (arith, h, leb_false→lt (length text) search_from e))
                        (omega (arith, k)) f)
                      (Ends-bool _ _ (cdata_end_looks_structural lower (search_from + rel + 3)) _ _
                        (Ends-ok _ (AtOrAfter from) (some (search_from + rel)) (omega (arith, k)))
                        (cdata_end_loop-Ends fuel lower text from (search_from + rel + 3) _
                          (omega (arith, h, leb_false→lt (length text) search_from e))
                          (omega (arith, k))
                          (known-AtOrAfter from first (search_from + rel) (omega (arith, k))
                            f)))))))

pub find_tool_cdata_end-Ends :
    (lower text : Str) (from : ℕ)
    → Ends (Differ lower text) (AtOrAfter from) (find_tool_cdata_end text lower from)
unfolding find_tool_cdata_end
find_tool_cdata_end-Ends lower text from =
    Ends-if _ _ (ltb (length text) from) _ _ (λ e. Ends-ok _ (AtOrAfter from) none tt)
      (λ e.
        cdata_end_loop-Ends (suc (length text)) lower text from from none (omega arith)
          (omega arith) tt)

-- The scan goes on after `i`.
abbrev pub GoesPast : ℕ → Skip → Type 0
GoesPast i blocked = Unit {0}
GoesPast i (advanced next) = i < next
GoesPast i nothing = Unit {0}

cdata-GoesPast :
    (i : ℕ) (o : Option ℕ)
    → AtOrAfter (i + 9) o
    → GoesPast i (elim o as (λ _. Skip) [ none ↦ blocked | some end ↦ advanced (end + 3) ])
cdata-GoesPast i none h = tt
cdata-GoesPast i (some end) h = omega (arith, h)

comment-GoesPast :
    (i : ℕ) (o : Option ℕ)
    → GoesPast i (elim o as (λ _. Skip) [ none ↦ blocked | some end ↦ advanced (i + 4 + end + 3) ])
comment-GoesPast i none = tt
comment-GoesPast i (some end) = omega arith

pub skip_xml_ignored_section-Ends :
    (lower text : Str) (i : ℕ)
    → i ≤ reach lower text
    → Ends (Differ lower text) (GoesPast i) (skip_xml_ignored_section text lower i)
unfolding skip_xml_ignored_section
skip_xml_ignored_section-Ends lower text i h =
    Ends-bind _ _ _ _ _ (slice_from-Ends i lower text h) (λ tail m.
      Ends-if _ _ (has_prefix tail (codes "<![cdata[")) _ _
        (λ e.
          Ends-bind _ _ _ _ _ (find_tool_cdata_end-Ends lower text (i + 9))
            (λ o a. Ends-ok _ (GoesPast i) _ (cdata-GoesPast i o a)))
        (λ e.
          Ends-if _ _ (has_prefix tail (codes "<!--")) _ _
            (λ c.
              Ends-bind _ _ _ _ _
                (slice_from-Ends (i + 4) lower text
                  (omega (arith, m, has_prefix-length tail (codes "<!--") c)))
                (λ rest _.
                  Ends-ok _ (GoesPast i) _ (comment-GoesPast i (index rest (codes "-->")))))
            (λ c. Ends-ok _ (GoesPast i) nothing tt)))
