-- ===== src/ToolNames/RoundTrip.antt =====
-- Tool names: the name that a tool has upstream leads back to it.
use generalcompute2api.Prelude.{
  suc, All, Bool-cases, inl, inr, subst, ◌<◌, ℕ, ◌≡◌, refl, sym, ◌∙◌, ap, false, ◌&&◌, List, [],
  ◌∷◌, ◌++◌, Option, none, some, if◌then◌else◌, ltb, length, drop, arith, if_false, if_true,
  Option-cases, lt→ltb,
}
use generalcompute2api.Prelude.Maps.{lookup}
use generalcompute2api.Prelude.Text.{Str, has_prefix, str_eq, str_eq_iff}
use generalcompute2api.ToolNames.{
  from_qwen_trimmed, qwen_tool_name_aliases, reverse_alias, to_qwen_trimmed, unknown_prefix,
}

-- A name that is none of the aliases, in any case, and does not begin with the prefix of unknown names.
abbrev pub IsOrdinary : (ℕ → ℕ) → Str → Type 0
IsOrdinary lower_rune name =
    (reverse_alias lower_rune name ≡ none) × (has_prefix name unknown_prefix ≡ false)

lookup-All :
    (P : Str × Str → Type 0) (k v : Str) (m : List (Str × Str))
    → All P m
    → lookup k m ≡ some v
    → P (k, v)
unfolding lookup
lookup-All P k v [] h e = ground arith
lookup-All P k v ((j, w) ∷ m) h e = elim (Bool-cases (str_eq j k)) [
  | inl same ↦
      subst (λ (x : Str). P (x, v)) ((str_eq_iff j k).0 same)
        (subst (λ (y : Str). P (j, y)) (some_injective (sym (if_true _ _ _ same) ∙ e)) h.0)
  | inr other ↦ lookup-All P k v m h.1 (sym (if_false _ _ _ other) ∙ e)
]
  where
    some_injective : {w v : Str} → some w ≡ some v → w ≡ v
    some_injective e = ap (λ (o : Option Str). elim o as (λ _. Str) [ none ↦ w | some x ↦ x ]) e

module _ (lower_rune : ℕ → ℕ) where
  -- Each alias leads back to its name.
  aliases_lead_back :
      All (λ (e : Str × Str). reverse_alias lower_rune e.1 ≡ some e.0) qwen_tool_name_aliases
  unfolding reverse_alias str_eq
  aliases_lead_back = (refl, (refl, (refl, (refl, (refl, (refl, (refl, (refl, (refl, tt)))))))))

  -- No alias begins like the name of an unknown tool.
  unknown_is_no_alias : (name : Str) → reverse_alias lower_rune (unknown_prefix ++ name) ≡ none
  unfolding reverse_alias str_eq
  unknown_is_no_alias [] = refl
  unknown_is_no_alias (a ∷ []) = refl
  unknown_is_no_alias (a ∷ b ∷ s) = refl

  to_alias :
      (name alias : Str)
      → lookup name qwen_tool_name_aliases ≡ some alias
      → to_qwen_trimmed lower_rune name ≡ alias
  unfolding to_qwen_trimmed
  to_alias name alias e =
      ap
        (λ o. elim o as (λ _. Str) [
          | some alias ↦ alias
          | none ↦ elim (reverse_alias lower_rune name) as (λ _. Str) [
            | some _ ↦ name
            | none ↦ if has_prefix name unknown_prefix then name else unknown_prefix ++ name
          ]
        ])
        e

  to_unknown :
      (name : Str)
      → lookup name qwen_tool_name_aliases ≡ none
      → IsOrdinary lower_rune name
      → to_qwen_trimmed lower_rune name ≡ unknown_prefix ++ name
  unfolding to_qwen_trimmed
  to_unknown name e o =
      ap
        (λ o. elim o as (λ _. Str) [
          | some alias ↦ alias
          | none ↦ elim (reverse_alias lower_rune name) as (λ _. Str) [
            | some _ ↦ name
            | none ↦ if has_prefix name unknown_prefix then name else unknown_prefix ++ name
          ]
        ])
        e
      ∙ ap
          (λ p. elim p as (λ _. Str) [
            | some _ ↦ name
            | none ↦ if has_prefix name unknown_prefix then name else unknown_prefix ++ name
          ])
          o.0
      ∙ if_false _ _ _ o.1

  from_alias :
      (name alias : Str)
      → reverse_alias lower_rune alias ≡ some name
      → from_qwen_trimmed lower_rune alias ≡ name
  unfolding from_qwen_trimmed
  from_alias name alias e =
      ap
        (λ o. elim o as (λ _. Str) [
          | some raw ↦ raw
          | none ↦
              if has_prefix alias unknown_prefix && ltb 2 (length alias)
              then drop 2 alias
              else alias
        ])
        e

  from_unknown :
      (name : Str) → 0 < length name → from_qwen_trimmed lower_rune (unknown_prefix ++ name) ≡ name
  unfolding from_qwen_trimmed has_prefix
  from_unknown name n =
      ap
        (λ o. elim o as (λ _. Str) [
          | some raw ↦ raw
          | none ↦
              if has_prefix (unknown_prefix ++ name) unknown_prefix
                && ltb 2 (suc (suc (length name)))
              then name
              else unknown_prefix ++ name
        ])
        (unknown_is_no_alias name)
      ∙ if_true _ _ _ (lt→ltb 2 (suc (suc (length name))) (omega (arith, n)))

  -- A tool's name, as long as it is trimmed, not empty and ordinary, is what its name upstream leads back
  -- to.
  pub from_qwen-to_qwen :
      (name : Str)
      → 0 < length name
      → IsOrdinary lower_rune name
      → from_qwen_trimmed lower_rune (to_qwen_trimmed lower_rune name) ≡ name
  from_qwen-to_qwen name n o = elim (Option-cases (lookup name qwen_tool_name_aliases)) [
    | inl e ↦ ap (from_qwen_trimmed lower_rune) (to_unknown name e o) ∙ from_unknown name n
    | inr (alias, e) ↦
        ap (from_qwen_trimmed lower_rune) (to_alias name alias e)
        ∙ from_alias name alias (
            lookup-All (λ e. reverse_alias lower_rune e.1 ≡ some e.0) name alias
              qwen_tool_name_aliases aliases_lead_back e)
  ]
