-- ===== src/Markup/Found.antt =====
-- The scanner: where a tag that is found stands in the text.
use generalcompute2api.Prelude.{
  both_branches, ℕ, zero, suc, ◌+◌, ◌-◌, ◌≤◌, ◌<◌, ◌≡◌, subst, Bool, true, false, not, Option, none,
  some, leb, ltb, ◌==◌, length, drop, length-drop, arith, leb_false→lt,
}
use generalcompute2api.Prelude.Runs.{
  Ends, Ends-bind, Ends-if, Ends-map, Ends-ok, Ends-option, Run, ok, ◌>>=◌,
}
use generalcompute2api.Prelude.Strings.{byte_is, byte_is-lt, run_length-le}
use generalcompute2api.Prelude.Text.{Str}
use generalcompute2api.Util.Lower.{to_lower}
use generalcompute2api.Markup.Names.{pipes_length, has_tool_markup_boundary}
use generalcompute2api.Markup.Ignored.{Skip, advanced, blocked, nothing}
use generalcompute2api.Markup.Scan.{
  ToolMarkupTag, after_less_thans, after_slash, slash_at, finished_tag, is_less_than,
  scan_tool_markup_tag_at,
}
use generalcompute2api.Markup.Find.{find_loop, find_tool_markup_tag_outside_ignored}
use generalcompute2api.Markup.Bounds.{
  Differ, consume_tool_markup_name_prefix-Ends, match_tool_markup_name-Ends, pipes_length-le,
}
use generalcompute2api.Markup.Skips.{GoesPast, skip_xml_ignored_section-Ends}
use generalcompute2api.Markup.TagEnds.{
  AllLieIn, AllLieIn-from, Between, markup_tag_end-Ends, slice-Ends,
}

piped-le :
    (text : Str) (i : ℕ)
    → ltb i (i + pipes_length (drop i text)) ≡ true
    → i + pipes_length (drop i text) ≤ length text
piped-le text i e = ground (arith, pipes_length-le (drop i text), length-drop i text)

pub not-false : (b : Bool) → not b ≡ false → b ≡ true
not-false b e = ground arith

positive : (n : ℕ) → (n == 0) ≡ false → 0 < n
positive n e = ground arith

finished_tag-Ends :
    (lower text : Str) (start i : ℕ) (found : Str × ℕ) (closing dsml_like : Bool)
    → start < i
    → Ends
        (Differ lower text)
        (AllLieIn text start)
        (finished_tag text start i found closing dsml_like)
unfolding finished_tag
finished_tag-Ends lower text start i (name, len) closing dsml_like h =
    let name_end = i + len + pipes_length (drop (i + len) text) in
    Ends-if _ _ (len == 0) _ _ (λ e. Ends-ok _ (AllLieIn text start) none tt)
      (λ e.
        Ends-if _ _ (not (has_tool_markup_boundary text name_end)) _ _
          (λ b. Ends-ok _ (AllLieIn text start) none tt)
          (λ b.
            Ends-bind _ _ _ _ _
              (markup_tag_end-Ends lower text name_end (ltb (i + len) name_end) (omega (arith, h))
                (piped-le text (i + len)))
              (λ o m.
                Ends-option _ _ o _ _ (λ n. Ends-ok _ (AllLieIn text start) none tt)
                  (λ end s.
                    (let c = subst (Between (name_end - 1) (length text)) s m in
                      Ends-bind _ _ _ _ _
                        (slice-Ends lower text start (end + 1) (omega (arith, h, c.0))
                          (omega (arith, c.1)))
                        (λ whole _. Ends-ok _ (AllLieIn text start) _ (
                          omega arith,
                          h,
                          omega (arith, positive len e),
                          omega (arith, h, c.0),
                          c.1,
                        )))))))

pub after_slash-lt :
    (text : Str) (start : ℕ) → start < after_slash text (after_less_thans text start)
unfolding after_less_thans
after_slash-lt text start =
    both_branches (λ n. start < n) (slash_at text (after_less_thans text start)) (omega arith)
      (omega arith)

pub after_slash-le :
    (text : Str) (start : ℕ)
    → suc start ≤ length text
    → after_slash text (after_less_thans text start) ≤ length text
unfolding after_less_thans
after_slash-le text start h = ground (
  arith,
  run_length-le is_less_than (drop (start + 1) text),
  length-drop (start + 1) text,
  byte_is-lt (λ c. c == b'/') (after_less_thans text start) text,
)

module _ (lower_rune : ℕ → ℕ) where
  pub scan_tool_markup_tag_at-Ends :
      (text : Str) (start : ℕ)
      → Ends
          (Differ (to_lower lower_rune text) text)
          (AllLieIn text start)
          (scan_tool_markup_tag_at lower_rune text start)
  unfolding scan_tool_markup_tag_at
  scan_tool_markup_tag_at-Ends text start =
      let lower = to_lower lower_rune text in
      let i = after_less_thans text start in
      Ends-if _ _ (not (byte_is is_less_than start text)) _ _
        (λ e. Ends-ok _ (AllLieIn text start) none tt)
        (λ e.
          Ends-bind _ _ _ _ _
            (consume_tool_markup_name_prefix-Ends lower text (after_slash text i) (
              omega (
                arith,
                after_slash-le text start (byte_is-lt is_less_than start text (not-false _ e)),
              )))
            (λ r a.
              Ends-bind _ _ _ _ _ (match_tool_markup_name-Ends lower text r.0 r.1 a.1) (λ found _.
                finished_tag-Ends lower text start r.0 found _ r.1
                  (omega (arith, a.0, after_slash-lt text start)))))

  -- What the loop does after the skip, if it goes on as it should.
  after_skip :
      (fuel : ℕ) (text : Str) (i : ℕ) (skip : Skip)
      → ((j : ℕ)
          → length text - j < fuel
          → Ends
              (Differ (to_lower lower_rune text) text)
              (AllLieIn text j)
              (find_loop lower_rune fuel text (to_lower lower_rune text) j))
      → GoesPast i skip
      → length text - (i + 1) < fuel
      → Ends
          (Differ (to_lower lower_rune text) text)
          (AllLieIn text i)
          (elim skip as (λ _. Run (Option ToolMarkupTag)) [
            | blocked ↦ ok none
            | advanced next ↦ find_loop lower_rune fuel text (to_lower lower_rune text) next
            | nothing ↦ scan_tool_markup_tag_at lower_rune text i >>= λ o. elim o [
              | some tag ↦ ok (some tag)
              | none ↦ find_loop lower_rune fuel text (to_lower lower_rune text) (i + 1)
            ]
          ])
  after_skip fuel text i blocked go_on g h = Ends-ok _ (AllLieIn text i) none tt
  after_skip fuel text i (advanced next) go_on g h =
      Ends-map _ _ _ _ (go_on next (omega (arith, h, g)))
        (λ o a. AllLieIn-from text i next o (omega (arith, g)) a)
  after_skip fuel text i nothing go_on g h =
      Ends-bind _ _ _ _ _ (scan_tool_markup_tag_at-Ends text i) (λ o a.
        Ends-option _ _ o _ _
          (λ n.
            Ends-map _ _ _ _ (go_on (i + 1) h)
              (λ p b. AllLieIn-from text i (i + 1) p (omega arith) b))
          (λ tag e. Ends-ok _ (AllLieIn text i) (some tag) (subst (AllLieIn text i) e a)))

  find_loop-Ends :
      (fuel : ℕ) (text : Str) (i : ℕ)
      → length text - i < fuel
      → Ends
          (Differ (to_lower lower_rune text) text)
          (AllLieIn text i)
          (find_loop lower_rune fuel text (to_lower lower_rune text) i)
  unfolding find_loop
  find_loop-Ends zero text i h = absurd (omega (arith, h))
  find_loop-Ends (suc fuel) text i h =
      Ends-if _ _ (leb (length text) i) _ _ (λ e. Ends-ok _ (AllLieIn text i) none tt)
        (λ e.
          Ends-bind _ _ _ _ _
            (skip_xml_ignored_section-Ends (to_lower lower_rune text) text i
              (omega (arith, leb_false→lt _ _ e)))
            (λ skip g.
              after_skip fuel text i skip (find_loop-Ends fuel text) g
                (omega (arith, h, leb_false→lt _ _ e))))

  -- The search for a tag ends. The tag that it finds begins at `start` or after it and lies within the
  -- text, with its name within it. It panics only if the lower case text is longer or shorter than the
  -- text.
  pub find_tool_markup_tag-Ends :
      (text : Str) (start : ℕ)
      → Ends
          (Differ (to_lower lower_rune text) text)
          (AllLieIn text start)
          (find_tool_markup_tag_outside_ignored lower_rune text start)
  unfolding find_tool_markup_tag_outside_ignored
  find_tool_markup_tag-Ends text start = find_loop-Ends (suc (length text)) text start (omega arith)
