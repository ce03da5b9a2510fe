-- ===== src/ToolNames/Offered.antt =====
-- internal/toolcall/tool_name_alias.go: a call of a tool that is offered is kept.
use generalcompute2api.Prelude.{
  ℕ, Bool, true, false, ◌||◌, ◌≡◌, refl, sym, ap, ◌∙◌, subst, ◌⊎◌, inl, inr, List, [], ◌∷◌, Option,
  none, some, Bool-cases, if_true, if_false,
}
use generalcompute2api.Prelude.Text.{Str, str_eq, str_eq_iff, str_eq_refl, trim_space}
use generalcompute2api.ToolNames.{from_qwen_tool_name, to_qwen_tool_name}
use generalcompute2api.ToolNames.Canonical.{
  among_tools, answer_of, answer_or, any_tool, candidate_answer, canonical_tool_name, first_answer,
  tool_name_key,
}

-- The name is among those.
abbrev pub Offers : Str → List Str → Type 0
Offers name [] = ⊥
Offers name (n ∷ names) = (n ≡ name) ⊎ Offers name names

module _ (lower_rune : ℕ → ℕ) where
  -- The tool itself, or one among those offered whose name upstream has its key.
  abbrev pub Finds : Str → List Str → Str → Type 0
  Finds name names answer =
      (answer ≡ name)
      ⊎ ((candidate : Str) × Offers candidate names
          × (answer ≡ trim_space candidate)
          × (tool_name_key lower_rune (to_qwen_tool_name lower_rune answer)
              ≡ tool_name_key lower_rune name))

  -- The answers that a candidate can give.
  abbrev Answer : Str → Str → Option Str → Type 0
  Answer name candidate none =
      str_eq (tool_name_key lower_rune candidate) (tool_name_key lower_rune name) ≡ false
  Answer name candidate (some answer) =
      (answer ≡ name)
      ⊎ ((answer ≡ candidate)
          × (tool_name_key lower_rune (to_qwen_tool_name lower_rune answer)
              ≡ tool_name_key lower_rune name))

  or_false : (a b : Bool) → (a || b) ≡ false → b ≡ false
  or_false true b e = cc
  or_false false b e = e

  candidate_answer-Answer :
      (name candidate : Str) → Answer name candidate (candidate_answer lower_rune name candidate)
  unfolding candidate_answer
  candidate_answer-Answer name candidate =
      elim (Bool-cases (
        str_eq candidate any_tool
        || str_eq (tool_name_key lower_rune candidate) (tool_name_key lower_rune name))) [
          | inl same ↦ subst (Answer name candidate) (sym (if_true _ _ _ same)) (inl refl)
          | inr other ↦
              subst (Answer name candidate) (sym (if_false _ _ _ other))
                (elim (Bool-cases (
                  str_eq (tool_name_key lower_rune (to_qwen_tool_name lower_rune candidate))
                    (tool_name_key lower_rune name))) [
                      | inl upstream ↦
                          subst (Answer name candidate) (sym (if_true _ _ _ upstream))
                            (inr (refl, (str_eq_iff _ _).0 upstream))
                      | inr none_of_them ↦
                          subst (Answer name candidate) (sym (if_false _ _ _ none_of_them))
                            (or_false _ _ other)
                    ])
        ]

  -- A name that is trimmed and not empty.
  abbrev pub IsTrimmed : Str → Type 0
  IsTrimmed [] = ⊥
  IsTrimmed (c ∷ s) = trim_space (c ∷ s) ≡ c ∷ s

  abbrev AnswerOf : Str → Str → Option Str → Type 0
  AnswerOf name [] o = o ≡ none
  AnswerOf name (c ∷ s) o = Answer name (c ∷ s) o

  answer_of-AnswerOf :
      (name candidate : Str) → AnswerOf name candidate (answer_of lower_rune name candidate)
  unfolding answer_of
  answer_of-AnswerOf name [] = refl
  answer_of-AnswerOf name (c ∷ s) = candidate_answer-Answer name (c ∷ s)

  later :
      (name n : Str) (names : List Str) (answer : Str)
      → Finds name names answer
      → Finds name (n ∷ names) answer
  later name n names answer (inl e) = inl e
  later name n names answer (inr (c, o, e, k)) = inr (c, inr o, e, k)

  trimmed_lem : (name : Str) → IsTrimmed name → trim_space name ≡ name
  trimmed_lem [] h = absurd h
  trimmed_lem (c ∷ s) h = h

  empty_is_not_trimmed : (name : Str) → IsTrimmed name → [] ≡ name → ⊥
  empty_is_not_trimmed [] h e = h
  empty_is_not_trimmed (c ∷ s) h e = cc

  by_answer :
      (name n candidate rest : Str) (names : List Str) (o : Option Str)
      → candidate ≡ trim_space n
      → AnswerOf name candidate o
      → IsTrimmed name
      → Offers name (n ∷ names)
      → (Offers name names → Finds name names rest)
      → Finds name (n ∷ names) (answer_or lower_rune o rest)
  by_answer name n [] rest names o e a t (inl same) ih =
      absurd (empty_is_not_trimmed name t (e ∙ ap trim_space same ∙ trimmed_lem name t))
  by_answer name n [] rest names o e a t (inr h) ih =
      subst (λ x. Finds name (n ∷ names) (answer_or lower_rune x rest)) (sym a)
        (later name n names rest (ih h))
  by_answer name n (c ∷ s) rest names none e a t (inl same) ih =
      let equal = e ∙ ap trim_space same ∙ trimmed_lem name t in
      absurd (
        cc (
          a,
          ap (λ x. str_eq (tool_name_key lower_rune x) (tool_name_key lower_rune name)) equal,
          str_eq_refl (tool_name_key lower_rune name),
        ))
  by_answer name n (c ∷ s) rest names none e a t (inr h) ih = later name n names rest (ih h)
  by_answer name n (c ∷ s) rest names (some answer) e (inl same) t h ih = inl same
  by_answer name n (c ∷ s) rest names (some answer) e (inr (same, k)) t h ih =
      inr (n, inl refl, same ∙ e, k)

  first_answer-Finds :
      (name : Str) (names : List Str)
      → IsTrimmed name
      → Offers name names
      → Finds name names (first_answer lower_rune name names)
  unfolding first_answer
  first_answer-Finds name [] t h = absurd h
  first_answer-Finds name (n ∷ names) t h =
      by_answer name n (trim_space n) (first_answer lower_rune name names) names
        (answer_of lower_rune name (trim_space n)) refl (answer_of-AnswerOf name (trim_space n)) t h
        (first_answer-Finds name names t)

  among_tools-Finds :
      (name : Str) (names : List Str)
      → IsTrimmed name
      → Offers name names
      → Finds name names (among_tools lower_rune name names)
  unfolding among_tools
  among_tools-Finds name [] t h = absurd h
  among_tools-Finds name (n ∷ names) t h = first_answer-Finds name (n ∷ names) t h

  unless_blank-trimmed :
      (name rest : Str)
      → IsTrimmed name
      → elim (trim_space name) as (λ _. Str) [ [] ↦ [] | _ ∷ _ ↦ rest ] ≡ rest
  unless_blank-trimmed [] rest h = absurd h
  unless_blank-trimmed (c ∷ s) rest h =
      ap (λ (x : Str). elim x as (λ _. Str) [ [] ↦ [] | _ ∷ _ ↦ rest ]) h

  -- A call whose name leads back to a tool that is offered is given that tool's name, or that of another
  -- tool offered whose name upstream has the same key.
  pub canonical_tool_name-Finds :
      (called name : Str) (available : List Str)
      → from_qwen_tool_name lower_rune called ≡ name
      → IsTrimmed name
      → Offers name available
      → Finds name available (canonical_tool_name lower_rune called available)
  unfolding canonical_tool_name
  canonical_tool_name-Finds called name available e t h =
      subst
        (λ x. Finds name available (elim (trim_space x) as (λ _. Str) [
          | [] ↦ []
          | _ ∷ _ ↦ among_tools lower_rune x available
        ]))
        (sym e)
        (subst (Finds name available) (sym (unless_blank-trimmed name _ t))
          (among_tools-Finds name available t h))
