-- ===== src/Util/Tests.antt =====
-- Cutting a text in the middle of a rune.
use generalcompute2api.Prelude.{◌≡◌, refl, [], ◌∷◌, true}
use generalcompute2api.Prelude.Text.{Str}
use generalcompute2api.Util.{truncate_utf8_bytes}

-- "aé" followed by "b".
abbrev accented : Str
accented = 97 ∷ 195 ∷ 169 ∷ 98 ∷ []

cut_before_rune : truncate_utf8_bytes accented 2 ≡ (97 ∷ [], true)
unfolding truncate_utf8_bytes
cut_before_rune = refl
