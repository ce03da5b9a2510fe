-- ===== src/Markup/Panics.antt =====
-- The scanner: a text whose lower case form is too short.
use generalcompute2api.Prelude.{
  inl, inr, if_true, if_false, Bool-cases, leb→le, leb_false→lt, ℕ, zero, suc, ◌+◌, ◌-◌, ◌≤◌, ◌<◌,
  ◌≡◌, refl, ap, ◌∙◌, false, not, [], ◌∷◌, none, All, leb, length, drop, arith, lt→leb_false,
  le→leb,
}
use generalcompute2api.Prelude.Runs.{ok, panics, bind_ok, bind_panics}
use generalcompute2api.Prelude.Strings.{head_is}
use generalcompute2api.Prelude.Text.{Str, codes, has_prefix}
use generalcompute2api.Util.Lower.{to_lower}
use generalcompute2api.Markup.Ignored.{nothing, skip_xml_ignored_section}
use generalcompute2api.Markup.Scan.{is_less_than, scan_tool_markup_tag_at}
use generalcompute2api.Markup.Find.{find_loop, find_tool_markup_tag_outside_ignored}

-- A text without `<`.
abbrev pub IsTagless : Str → Type 0
IsTagless s = All (λ c. is_less_than c ≡ false) s

drop-IsTagless : (i : ℕ) (s : Str) → IsTagless s → IsTagless (drop i s)
drop-IsTagless zero s h = h
drop-IsTagless (suc i) [] h = tt
drop-IsTagless (suc i) (c ∷ s) h = drop-IsTagless i s h.1

head_is-tagless : (s : Str) → IsTagless s → head_is is_less_than s ≡ false
head_is-tagless [] h = refl
head_is-tagless (c ∷ s) h = h.0

has_prefix-tagless : (s p : Str) → IsTagless s → has_prefix s (b'<' ∷ p) ≡ false
unfolding has_prefix
has_prefix-tagless [] p h = refl
has_prefix-tagless (c ∷ s) p h = ground arith

skips_nothing :
    (text lower : Str) (i : ℕ)
    → i ≤ length lower
    → IsTagless lower
    → skip_xml_ignored_section text lower i ≡ ok nothing
unfolding skip_xml_ignored_section
skips_nothing text lower i h t =
    let tail = drop i lower in
    let tagless = drop-IsTagless i lower t in
    bind_ok _ _ tail (if_true _ _ _ (le→leb _ _ h))
    ∙ if_false _ _ _ (has_prefix-tagless tail (codes "![cdata[") tagless)
    ∙ if_false _ _ _ (has_prefix-tagless tail (codes "!--") tagless)

skip_panics :
    (text lower : Str) (i : ℕ) → length lower < i → skip_xml_ignored_section text lower i ≡ panics
unfolding skip_xml_ignored_section
skip_panics text lower i h = bind_panics _ _ (if_false _ _ _ (lt→leb_false _ _ h))

module _ (lower_rune : ℕ → ℕ) where
  scans_nothing :
      (text : Str) (i : ℕ) → IsTagless text → scan_tool_markup_tag_at lower_rune text i ≡ ok none
  unfolding scan_tool_markup_tag_at
  scans_nothing text i t =
      if_true _ _ _ (ap not (head_is-tagless (drop i text) (drop-IsTagless i text t)))

  find_loop_panics :
      (fuel : ℕ) (text : Str) (i : ℕ)
      → length text - i < fuel
      → i ≤ suc (length (to_lower lower_rune text))
      → suc (length (to_lower lower_rune text)) < length text
      → IsTagless text
      → IsTagless (to_lower lower_rune text)
      → find_loop lower_rune fuel text (to_lower lower_rune text) i ≡ panics
  unfolding find_loop
  find_loop_panics zero text i f h k t l = absurd (omega (arith, f))
  find_loop_panics (suc fuel) text i f h k t l =
      if_false _ _ _ (lt→leb_false (length text) i (omega (arith, h, k)))
      ∙ elim (Bool-cases (leb i (length (to_lower lower_rune text)))) [
        | inl e ↦
            bind_ok _ _ nothing (
              skips_nothing text (to_lower lower_rune text) i
                (leb→le i (length (to_lower lower_rune text)) e) l)
            ∙ bind_ok _ _ none (scans_nothing text i t)
            ∙ find_loop_panics fuel text (i + 1) (omega (arith, f, h, k))
                (omega (arith, leb→le i (length (to_lower lower_rune text)) e)) k t l
        | inr e ↦
            bind_panics _ _ (skip_panics text (to_lower lower_rune text) i (leb_false→lt _ _ e))
      ]

  -- A text without `<` whose lower case form is shorter by at least two bytes makes the search for a tag
  -- panic.
  pub find_tool_markup_tag_panics :
      (text : Str)
      → suc (length (to_lower lower_rune text)) < length text
      → IsTagless text
      → IsTagless (to_lower lower_rune text)
      → find_tool_markup_tag_outside_ignored lower_rune text 0 ≡ panics
  unfolding find_tool_markup_tag_outside_ignored
  find_tool_markup_tag_panics text k t l =
      find_loop_panics (suc (length text)) text 0 (omega arith) (omega arith) k t l
