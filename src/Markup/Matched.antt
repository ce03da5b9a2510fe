-- ===== src/Markup/Matched.antt =====
-- The scanner: the tag that closes another, and the tests for tool call syntax.
use generalcompute2api.Prelude.{
  ℕ, zero, suc, ◌+◌, ◌-◌, ◌≤◌, ◌<◌, ◌≡◌, subst, true, not, ◌||◌, [], Option, none, some, leb,
  length, arith,
}
use generalcompute2api.Prelude.Runs.{Ends, Ends-bind, Ends-if, Ends-map, Ends-ok, Ends-option, Run}
use generalcompute2api.Prelude.Text.{Str, str_eq, str_eq_iff}
use generalcompute2api.Util.Lower.{to_lower}
use generalcompute2api.Markup.Scan.{ToolMarkupTag}
use generalcompute2api.Markup.Find.{find_matching_tool_markup_close, matching_loop}
use generalcompute2api.Markup.Bounds.{Differ}
use generalcompute2api.Markup.Found.{not-false, find_tool_markup_tag-Ends}
use generalcompute2api.Markup.TagEnds.{AllLieIn, LiesIn}

-- A tag of this name that closes and lies at `from` or after it.
abbrev pub ClosesIn : Str → ℕ → Str → Option ToolMarkupTag → Type 0
ClosesIn text from name none = Unit {0}
ClosesIn text from name (some tag) = LiesIn text from tag × (tag.name ≡ name) × (tag.closing ≡ true)

ClosesIn-from :
    (text : Str) (i j : ℕ) (name : Str) (o : Option ToolMarkupTag)
    → i ≤ j
    → ClosesIn text j name o
    → ClosesIn text i name o
ClosesIn-from text i j name none h a = tt
ClosesIn-from text i j name (some tag) h (l, a, b) =
    ((omega (arith, h, l.0), l.1, l.2, l.3, l.4), a, b)

module _ (lower_rune : ℕ → ℕ) where
  at_close :
      (X : Type 0) (Q : Option ToolMarkupTag → Type 0) (found : Run (Option ToolMarkupTag))
      (further : ℕ → Run (Option ToolMarkupTag)) (depth : ℕ)
      → Ends X Q found
      → ((d : ℕ) → Ends X Q (further d))
      → Ends X Q (elim depth as (λ _. Run (Option ToolMarkupTag)) [
        | zero ↦ found
        | suc less ↦ further less
      ])
  at_close X Q found further zero h k = h
  at_close X Q found further (suc less) h k = k less

  matching_loop-Ends :
      (fuel : ℕ) (text name : Str) (depth pos : ℕ)
      → length text - pos < fuel
      → Ends
          (Differ (to_lower lower_rune text) text)
          (ClosesIn text pos name)
          (matching_loop lower_rune fuel text name depth pos)
  unfolding matching_loop
  matching_loop-Ends zero text name depth pos h = absurd (omega (arith, h))
  matching_loop-Ends (suc fuel) text name depth pos h =
      Ends-if _ _ (leb (length text) pos) _ _ (λ e. Ends-ok _ (ClosesIn text pos name) none tt)
        (λ e. Ends-bind _ _ _ _ _ (find_tool_markup_tag-Ends lower_rune text pos) (λ o a.
          Ends-option _ _ o _ _ (λ n. Ends-ok _ (ClosesIn text pos name) none tt)
            (λ tag s.
              (let l = subst (AllLieIn text pos) s a in
                let later = λ (d : ℕ).
                  Ends-map _ _ _ _
                    (matching_loop-Ends fuel text name d (tag.end + 1)
                      (omega (arith, h, l.0, l.1, l.2, l.3, l.4)))
                    (λ p b.
                      ClosesIn-from text pos (tag.end + 1) name p
                        (omega (arith, l.0, l.1, l.2, l.3)) b) in
                Ends-if _ _ (not (str_eq tag.name name)) _ _ (λ b. later depth)
                  (λ b.
                    Ends-if _ _ tag.closing _ _
                      (λ c.
                        at_close _ _ _ _ depth
                          (Ends-ok _ (ClosesIn text pos name) (some tag)
                            (l, (str_eq_iff tag.name name).0 (not-false _ b), c))
                          later)
                      (λ c.
                        Ends-if _ _ (not tag.self_closing) _ _ (λ _. later (suc depth))
                          (λ _. later depth)))))))

  -- The search for the tag that closes another ends. The tag that it finds closes, has the name of the
  -- other, and begins after its end. It panics only if the lower case text is longer or shorter than the
  -- text.
  pub find_matching_close-Ends :
      (text : Str) (opener : ToolMarkupTag)
      → Ends
          (Differ (to_lower lower_rune text) text)
          (ClosesIn text (opener.end + 1) opener.name)
          (find_matching_tool_markup_close lower_rune text opener)
  unfolding find_matching_tool_markup_close
  find_matching_close-Ends text opener =
      Ends-if _ _ (str_eq text [] || str_eq opener.name [] || opener.closing) _ _
        (λ e. Ends-ok _ (ClosesIn text (opener.end + 1) opener.name) none tt)
        (λ e.
          matching_loop-Ends (suc (length text)) text opener.name 0 (opener.end + 1) (omega arith))
