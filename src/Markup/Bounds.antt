-- ===== src/Markup/Bounds.antt =====
-- The scanner's positions: how far the prefixes, the names and the ends of the tags reach.
use generalcompute2api.Prelude.{
  List, ℕ, zero, suc, ◌+◌, ◌≤◌, ◌<◌, ◌≡◌, ◌≢◌, subst, Bool, true, false, ◌||◌, List, [], ◌∷◌,
  Option, none, some, if◌then◌else◌, ◌==◌, length, drop, length-drop, arith,
}
use Prim.Native.Nat.{max}
use generalcompute2api.Prelude.Runs.{
  Ends-if, Ends-ok, Ends-option, slice_from, Ends, Ends-bind, Ends-map,
}
use generalcompute2api.Prelude.Strings.{byte_is, byte_is-lt, has_prefix-length}
use generalcompute2api.Prelude.Text.{Str, codes}
use generalcompute2api.Markup.Names.{
  ToolMarkupNameAlias, consume_tool_markup_name_prefix, consume_tool_markup_name_prefix_once,
  consume_tool_markup_pipe, is_markup_space, has_marker, after_marker, match_tool_markup_name,
  match_names, name_prefix_loop, pipes_length, tool_markup_names,
}

-- The two texts differ in length: only then can a slice be out of range.
abbrev pub Differ : Str → Str → Type 0
Differ lower text = length lower ≢ length text

abbrev pub reach : Str → Str → ℕ
reach lower text = max (length lower) (length text)

abbrev pub Advances : ℕ → ℕ → Option ℕ → Type 0
Advances idx bound none = Unit {0}
Advances idx bound (some next) = (idx < next) × (next ≤ bound)

pub slice_from-Ends :
    (idx : ℕ) (lower text : Str)
    → idx ≤ reach lower text
    → Ends (Differ lower text) (λ tail. length tail + idx ≡ length lower) (slice_from idx lower)
unfolding Ends
slice_from-Ends idx lower text h = ground (arith, length-drop idx lower)

has_marker-length : (tail : Str) → has_marker tail ≡ true → 4 ≤ length tail
unfolding has_marker
has_marker-length tail e = ground (
  arith,
  has_prefix-length tail (codes "dsml"),
  has_prefix-length tail (codes "zjml"),
  has_prefix-length tail (codes "qnml"),
)

pub consume_tool_markup_pipe-Advances :
    (text : Str) (idx : ℕ) → Advances idx (length text) (consume_tool_markup_pipe text idx)
unfolding consume_tool_markup_pipe
consume_tool_markup_pipe-Advances text idx = ground (
  arith,
  byte_is-lt (λ c. c == b'|') idx text,
  has_prefix-length (drop idx text) (0xef ∷ 0xbd ∷ 0x9c ∷ []),
  length-drop idx text,
)

at_marker :
    (lower text tail : Str) (idx : ℕ)
    → length tail + idx ≡ length lower
    → Advances idx
        (reach lower text)
        (if has_marker tail then some (after_marker text idx) else none)
at_marker lower text tail idx h =
    ground (arith, has_marker-length tail, byte_is-lt (λ c. c == b'-' || c == b'_') (idx + 4) text)

Advances-le : (idx b d : ℕ) (o : Option ℕ) → b ≤ d → Advances idx b o → Advances idx d o
Advances-le idx b d none h a = tt
Advances-le idx b d (some next) h a = (a.0, omega (arith, a.1, h))

pub consume_once-Ends :
    (lower text : Str) (idx : ℕ)
    → idx ≤ reach lower text
    → Ends
        (Differ lower text)
        (Advances idx (reach lower text))
        (consume_tool_markup_name_prefix_once lower text idx)
unfolding consume_tool_markup_name_prefix_once
consume_once-Ends lower text idx h =
    Ends-option _ _ (consume_tool_markup_pipe text idx) _ _
      (λ e.
        Ends-if _ _ (byte_is is_markup_space idx text) _ _
          (λ b. Ends-ok _ _ _ (omega arith, omega (arith, byte_is-lt is_markup_space idx text b)))
          (λ b.
            Ends-bind _ _ _ _ _ (slice_from-Ends idx lower text h)
              (λ tail k. Ends-ok _ _ _ (at_marker lower text tail idx k))))
      (λ next e. Ends-ok _ _ _ (
        Advances-le idx (length text) _ (some next) (omega arith)
          (subst (Advances idx (length text)) e (consume_tool_markup_pipe-Advances text idx))))

name_prefix_loop-Ends :
    (fuel : ℕ) (lower text : Str) (idx : ℕ) (seen : Bool)
    → idx ≤ reach lower text
    → reach lower text < idx + fuel
    → Ends
        (Differ lower text)
        (λ r. (idx ≤ r.0) × (r.0 ≤ reach lower text))
        (name_prefix_loop fuel lower text idx seen)
unfolding name_prefix_loop
name_prefix_loop-Ends zero lower text idx seen h k = absurd (omega (arith, h, k))
name_prefix_loop-Ends (suc fuel) lower text idx seen h k =
    Ends-bind _ _ _ _ _ (consume_once-Ends lower text idx h) λ o a.
      Ends-option _ _ o _ _ (λ e. Ends-ok _ _ _ (omega arith, h))
        (λ next e.
          (let b = subst (Advances idx (reach lower text)) e a in
            Ends-map _ _ _ _
              (name_prefix_loop-Ends fuel lower text next true b.1 (omega (arith, b.0, k)))
              (λ r c. (omega (arith, b.0, c.0), c.1))))

pub consume_tool_markup_name_prefix-Ends :
    (lower text : Str) (idx : ℕ)
    → idx ≤ reach lower text
    → Ends
        (Differ lower text)
        (λ r. (idx ≤ r.0) × (r.0 ≤ reach lower text))
        (consume_tool_markup_name_prefix lower text idx)
unfolding consume_tool_markup_name_prefix
consume_tool_markup_name_prefix-Ends lower text idx h =
    name_prefix_loop-Ends (suc (length lower + length text)) lower text idx false h (omega arith)

match_names-length :
    (names : List ToolMarkupNameAlias) (tail : Str) (dsml_like : Bool)
    → (match_names names tail dsml_like).1 ≤ length tail
unfolding match_names
match_names-length [] tail d = omega arith
match_names-length (n ∷ names) tail d =
    ground (arith, match_names-length names tail d, has_prefix-length tail n.raw)

pub match_tool_markup_name-Ends :
    (lower text : Str) (start : ℕ) (dsml_like : Bool)
    → start ≤ reach lower text
    → Ends
        (Differ lower text)
        (λ r. start + r.1 ≤ length lower)
        (match_tool_markup_name lower start dsml_like)
unfolding match_tool_markup_name
match_tool_markup_name-Ends lower text start d h =
    Ends-bind _ _ _ _ _ (slice_from-Ends start lower text h)
      (λ tail k. Ends-ok _ _ _ (omega (arith, match_names-length tool_markup_names tail d, k)))

pub pipes_length-le : (s : Str) → pipes_length s ≤ length s
unfolding pipes_length
pipes_length-le [] = omega arith
pipes_length-le (a ∷ []) = ground arith
pipes_length-le (a ∷ b ∷ []) = ground (arith, pipes_length-le (b ∷ []))
pipes_length-le (a ∷ b ∷ c ∷ s) = ground (arith, pipes_length-le (b ∷ c ∷ s), pipes_length-le s)
