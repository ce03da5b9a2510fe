-- ===== src/Util/Lower.antt =====
-- Go's strings.ToLower, over unicode.ToLower. Each rune is replaced by its lower case rune, whose
-- encoding may be shorter or longer, and each byte that begins no rune by U+FFFD.
use generalcompute2api.Prelude.{
  ℕ, zero, suc, ◌+◌, ◌*◌, ◌/◌, ◌%◌, ◌≡◌, refl, ◌&&◌, [], ◌∷◌, ◌++◌, if◌then◌else◌, leb, ltb, ◌==◌,
}
use generalcompute2api.Prelude.Text.{Str, codes}
use generalcompute2api.Util.{extra_width}

-- `unicode.ToLower` on ASCII.
abbrev pub ascii_lower : ℕ → ℕ
ascii_lower c = if leb 65 c && leb c 90 then c + 32 else c

-- The bytes of a rune.
abbrev pub encode_rune : ℕ → Str
encode_rune r =
    if ltb r 0x80
    then r ∷ []
    else if ltb r 0x800
    then (0xc0 + r / 64) ∷ (0x80 + r % 64) ∷ []
    else if ltb r 0x10000
    then (0xe0 + r / 4096) ∷ (0x80 + (r / 64) % 64) ∷ (0x80 + r % 64) ∷ []
    else (0xf0 + r / 262144)
      ∷ (0x80 + (r / 4096) % 64)
      ∷ (0x80 + (r / 64) % 64)
      ∷ (0x80 + r % 64)
      ∷ []

abbrev pub invalid_rune : Str
invalid_rune = 0xef ∷ 0xbf ∷ 0xbd ∷ []

-- The rune of width `suc extra` that begins with `a`.
abbrev rune_at : ℕ → ℕ → Str → ℕ
rune_at (suc zero) a (b ∷ _) = (a % 32) * 64 + b % 64
rune_at (suc (suc zero)) a (b ∷ c ∷ _) = (a % 16) * 4096 + (b % 64) * 64 + c % 64
rune_at (suc (suc (suc _))) a (b ∷ c ∷ d ∷ _) =
    (a % 8) * 262144 + (b % 64) * 4096 + (c % 64) * 64 + d % 64
rune_at _ a _ = a

module _ (lower_rune : ℕ → ℕ) where
  -- What stands for the first rune of `a ∷ s`.
  abbrev lower_first : ℕ → ℕ → Str → Str
  lower_first zero a s = if ltb a 0x80 then ascii_lower a ∷ [] else invalid_rune
  lower_first (suc k) a s = encode_rune (lower_rune (rune_at (suc k) a s))

  -- The first argument is the number of bytes of the current rune that are left.
  unfoldable pub lower_from : ℕ → Str → Str
  unfolding extra_width
  lower_from skip [] = []
  lower_from zero (a ∷ s) = lower_first (extra_width a s) a s ++ lower_from (extra_width a s) s
  lower_from (suc k) (a ∷ s) = lower_from k s

  unfoldable pub to_lower : Str → Str
  unfolding lower_from
  to_lower s = lower_from 0 s

-- `unicode.ToLower` at the Kelvin sign, and elsewhere as it is.
abbrev pub lower_kelvin : ℕ → ℕ
lower_kelvin r = if r == 0x212a then 0x6b else r

to_lower_test :
    to_lower lower_kelvin (codes "A<B" ++ 0xe2 ∷ 0x84 ∷ 0xaa ∷ 0xff ∷ [])
    ≡ codes "a<bk" ++ 0xef ∷ 0xbf ∷ 0xbd ∷ []
unfolding to_lower
to_lower_test = refl
