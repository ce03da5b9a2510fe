-- ===== src/Config/Mobile.antt =====
-- internal/config/mobile.go: the stored form of a mobile number.
use generalcompute2api.Prelude.{
  ℕ, Bool, false, [], ◌∷◌, ◌++◌, ◌&&◌, ◌||◌, ◌==◌, leb, if◌then◌else◌, select, length, drop, ◌≡◌,
  refl,
}
use generalcompute2api.Prelude.Text.{Str, codes, trim_space, has_prefix}

abbrev pub is_digit : ℕ → Bool
is_digit c = leb b'0' c && leb c b'9'

abbrev pub is_mobile_separator : ℕ → Bool
is_mobile_separator c =
    c == 32
    || c == 9
    || c == 10
    || c == 13
    || c == b'-'
    || c == b'('
    || c == b')'
    || c == b'.'
    || c == b'/'

-- Whether a plus sign stands first, separators skipped.
unfoldable pub leading_plus : Str → Bool
leading_plus [] = false
leading_plus (c ∷ s) =
    let rest = leading_plus s in
    if is_digit c then false else if is_mobile_separator c then rest else c == b'+'

abbrev pub extract_mobile_digits : Str → Str × Bool
extract_mobile_digits raw = (select is_digit (trim_space raw), leading_plus (trim_space raw))

abbrev pub second_digit_ok : Str → Bool
second_digit_ok (a ∷ b ∷ s) = a == b'1' && (leb b'3' b && leb b b'9')
second_digit_ok _ = false

abbrev pub is_china_mainland_mobile_digits : Str → Bool
is_china_mainland_mobile_digits digits = length digits == 11 && second_digit_ok digits

abbrev pub is_china_mobile_with_country_code : Str → Bool
is_china_mobile_with_country_code digits =
    length digits == 13
    && has_prefix digits (b'8' ∷ b'6' ∷ [])
    && is_china_mainland_mobile_digits (drop 2 digits)

abbrev pub china_code : Str
china_code = b'+' ∷ b'8' ∷ b'6' ∷ []

abbrev stored : Str → Bool → Str
stored [] has_plus = []
stored (d ∷ ds) has_plus =
    if has_plus
    then b'+' ∷ d ∷ ds
    else if is_china_mobile_with_country_code (d ∷ ds)
    then china_code ++ drop 2 (d ∷ ds)
    else if is_china_mainland_mobile_digits (d ∷ ds)
    then china_code ++ (d ∷ ds)
    else b'+' ∷ d ∷ ds

unfoldable pub normalize_mobile_for_storage : Str → Str
unfolding leading_plus has_prefix trim_space
normalize_mobile_for_storage raw =
    let (digits, has_plus) = extract_mobile_digits raw in stored digits has_plus

normalize_examples :
    (normalize_mobile_for_storage (codes " 138-0013 8000") ≡ codes "+8613800138000")
    × (normalize_mobile_for_storage (codes "8613800138000") ≡ codes "+8613800138000")
    × (normalize_mobile_for_storage (codes "(+1) 415.555.0100") ≡ codes "+14155550100")
    × (normalize_mobile_for_storage (codes " - ") ≡ [])
unfolding normalize_mobile_for_storage
normalize_examples = (refl, refl, refl, refl)
