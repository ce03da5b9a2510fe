-- ===== src/DevCapture/Recent.antt =====
-- What the store shows: the newest entries.
use generalcompute2api.Prelude.{
  ℕ, zero, suc, ◌+◌, ◌≤◌, ◌≡◌, refl, ap, ◌∙◌, sym, List, [], ◌∷◌, ◌++◌, arith, length, take, ltb,
  ltb_false→le, Bool-cases, inl, inr, lt→leb_false, length-take, true, ◌-◌,
}
use mathlib.Core.List.{append-nil}
use generalcompute2api.Prelude.Text.{Str}
use generalcompute2api.Util.{is_continuation, truncate_utf8_bytes, back_to_rune_start}
use generalcompute2api.DevCapture.{Str, CaptureBody, Entry, Store, append, push}

take-cons-take : (n : ℕ) (e : Entry) (xs : List Entry) → take n (e ∷ take n xs) ≡ take n (e ∷ xs)
take-cons-take zero e xs = refl
take-cons-take (suc n) e xs = ap (◌∷◌ e) (take-take n xs)
  where
    take-take : (n : ℕ) (xs : List Entry) → take n (take (suc n) xs) ≡ take n xs
    take-take zero xs = refl
    take-take (suc n) [] = refl
    take-take (suc n) (x ∷ xs) = ap (◌∷◌ x) (take-take n xs)

take-all : (n : ℕ) (xs : List Entry) → length xs ≤ n → take n xs ≡ xs
take-all zero [] h = refl
take-all zero (x ∷ xs) h = absurd (omega (arith, h))
take-all (suc n) [] h = refl
take-all (suc n) (x ∷ xs) h = ap (◌∷◌ x) (take-all n xs (omega (arith, h)))

push-items : (s : Store) (e : Entry) → (push s e).items ≡ take s.limit (e ∷ s.items)
unfolding push
push-items s e = elim (Bool-cases (ltb s.limit (length (e ∷ s.items)))) [
  | inl long ↦ rw long refl
  | inr fits ↦ rw fits (sym (take-all s.limit (e ∷ s.items) (ltb_false→le _ _ fits)))
]

-- The entries pushed in order, the first one first.
abbrev pub push_all : Store → List Entry → Store
push_all s [] = s
push_all s (e ∷ es) = push_all (push s e) es

-- The entries in the order in which the store shows them, the last one first.
abbrev pub newest_first : List Entry → List Entry → List Entry
newest_first [] old = old
newest_first (e ∷ es) old = newest_first es (e ∷ old)

take-newest_first :
    (n : ℕ) (es old : List Entry)
    → take n (newest_first es (take n old)) ≡ take n (newest_first es old)
take-newest_first n [] old = take-take n old
  where
    take-take : (n : ℕ) (xs : List Entry) → take n (take n xs) ≡ take n xs
    take-take zero xs = refl
    take-take (suc n) [] = refl
    take-take (suc n) (x ∷ xs) = ap (◌∷◌ x) (take-take n xs)
take-newest_first n (e ∷ es) old =
    sym (take-newest_first n es (e ∷ take n old))
    ∙ ap (λ xs. take n (newest_first es xs)) (take-cons-take n e old)
    ∙ take-newest_first n es (e ∷ old)

-- After any pushes onto a store within its limit, the store shows the newest entries, the last one
-- pushed first, as many as its limit allows.
pub push_all-items :
    (s : Store) (es : List Entry)
    → length s.items ≤ s.limit
    → (push_all s es).items ≡ take s.limit (newest_first es s.items)
unfolding push
push_all-items s [] h = sym (take-all s.limit s.items h)
push_all-items s (e ∷ es) h =
    push_all-items (push s e) es within
    ∙ ap (λ xs. take s.limit (newest_first es xs)) (push-items s e)
    ∙ take-newest_first s.limit es (e ∷ s.items)
  where
    within : length (push s e).items ≤ s.limit
    within = rw (push-items s e) (omega (arith, length-take s.limit (e ∷ s.items)))

append_cut :
    (c : CaptureBody) (m a b : ℕ) (t : Str)
    → m ≡ length c.buf + 1
    → is_continuation b ≡ true
    → append m c (a ∷ b ∷ t) ≡ record c { buf = c.buf ++ []; truncated = true }
unfolding append truncate_utf8_bytes back_to_rune_start
append_cut c m a b t h k =
    rw (lt→leb_false m (length c.buf) (omega (arith, h)), left) (ground (arith, k))
  where
    left : m - length c.buf ≡ 1
    left = omega (arith, h)

append_last :
    (c : CaptureBody) (m x : ℕ)
    → m ≡ length c.buf + 1
    → append m c (x ∷ []) ≡ record c { buf = c.buf ++ (x ∷ []) }
unfolding append
append_last c m x h = rw (lt→leb_false m (length c.buf) (omega (arith, h)), left) refl
  where
    left : m - length c.buf ≡ 1
    left = omega (arith, h)

-- Where one byte of room is left and a chunk begins with a rune of more than one byte, the cut drops the
-- whole rune, and the byte of room is filled by the next chunk: the kept text has a hole where the rest of
-- the first chunk was, since `append` does not look whether the body was cut.
pub append_after_cut :
    (c : CaptureBody) (m a b : ℕ) (t : Str) (x : ℕ)
    → m ≡ length c.buf + 1
    → is_continuation b ≡ true
    → (append m (append m c (a ∷ b ∷ t)) (x ∷ [])).buf ≡ c.buf ++ (x ∷ [])
append_after_cut c m a b t x h k =
    ap (λ d. (append m d (x ∷ [])).buf) (append_cut c m a b t h k)
    ∙ ap (λ d. d.buf) (append_last cut m x (h ∙ ap (λ s. length s + 1) (sym (append-nil c.buf))))
    ∙ ap (λ s. s ++ (x ∷ [])) (append-nil c.buf)
  where
    cut : CaptureBody
    cut = record c { buf = c.buf ++ []; truncated = true }
