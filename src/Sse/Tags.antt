-- ===== src/Sse/Tags.antt =====
-- internal/sse/parser.go: the regular expressions for <think> and </think>, and what is done about the
-- tags. Without regard to case, Go takes the Kelvin sign for a k.
use generalcompute2api.Prelude.{
  ℕ, zero, suc, ◌+◌, ◌-◌, Bool, true, not, ◌&&◌, ◌||◌, List, [], ◌∷◌, Option, none, some,
  if◌then◌else◌, ◌==◌, length,
}
use generalcompute2api.Prelude.Strings.{trim_left_where}
use generalcompute2api.Prelude.Text.{Str, codes, str_eq}
use generalcompute2api.Sse.{ContentPart}

-- `\s`.
abbrev is_regexp_space : ℕ → Bool
is_regexp_space c = c == 9 || c == 10 || c == 12 || c == 13 || c == 32

-- The text after a letter, given as its small form.
abbrev after_letter : ℕ → Str → Option Str
after_letter l [] = none
after_letter l (c ∷ s) = if c == l || c + 32 == l then some s else none

abbrev after_k : Str → Option Str
after_k (c ∷ d ∷ e ∷ s) =
    if c == b'k' || c == b'K'
    then some (d ∷ e ∷ s)
    else if c == 0xe2 && d == 0x84 && e == 0xaa
    then some s
    else none
after_k s = after_letter b'k' s

abbrev after_byte : ℕ → Str → Option Str
after_byte b [] = none
after_byte b (c ∷ s) = if c == b then some s else none

infixl 20 ◌then_read◌
abbrev ◌then_read◌ : Option Str → (Str → Option Str) → Option Str
none then_read f = none
some s then_read f = f s

-- The text after `\s*think\s*>`.
unfoldable pub after_tag_name : Str → Option Str
unfolding trim_left_where
after_tag_name s =
    after_letter b't' (trim_left_where is_regexp_space s)
    then_read after_letter b'h'
    then_read after_letter b'i'
    then_read after_letter b'n'
    then_read after_k
    then_read (λ r. after_byte b'>' (trim_left_where is_regexp_space r))

-- The text after a match at the start of a text.
unfoldable pub after_open_tag : Str → Option Str
unfolding after_tag_name
after_open_tag s = after_byte b'<' s then_read after_tag_name

unfoldable pub after_close_tag : Str → Option Str
unfolding after_tag_name
after_close_tag s = after_byte b'<' s then_read after_byte b'/' then_read after_tag_name

-- `FindStringIndex`: the texts before and after the first match.
abbrev before_with : ℕ → Option (Str × Str) → Option (Str × Str)
before_with c none = none
before_with c (some (b, a)) = some (c ∷ b, a)

unfoldable pub find_close_tag : Str → Option (Str × Str)
unfolding after_close_tag
find_close_tag [] = none
find_close_tag (c ∷ s) =
    let later = before_with c (find_close_tag s) in
    elim (after_close_tag (c ∷ s)) [ some after ↦ some ([], after) | none ↦ later ]

-- `ReplaceAllString(s, "")`; the first argument is the number of bytes of the match before that are left.
unfoldable pub remove_matches : (Str → Option Str) → ℕ → Str → Str
remove_matches match k [] = []
remove_matches match (suc k) (c ∷ s) = remove_matches match k s
remove_matches match zero (c ∷ s) = elim (match (c ∷ s)) [
  | none ↦ c ∷ remove_matches match zero s
  | some after ↦ remove_matches match (length s - length after) s
]

unfoldable pub strip_think_tags : Str → Str
unfolding remove_matches after_open_tag after_close_tag
strip_think_tags s = remove_matches after_open_tag 0 (remove_matches after_close_tag 0 s)

abbrev pub thinking : Str
thinking = codes "thinking"

abbrev pub text_kind : Str
text_kind = codes "text"

abbrev pub part : Str → Str → ContentPart
part text kind = record { text = text; type = kind }

-- `if content != "" { append }` in front of the parts that follow.
abbrev pub before_parts : Str → Str → List ContentPart → List ContentPart
before_parts [] kind ps = ps
before_parts (c ∷ s) kind ps = part (c ∷ s) kind ∷ ps

unfoldable pub is_thinking : ContentPart → Bool
unfolding str_eq
is_thinking p = str_eq p.type thinking

-- A part that is thinking, split where it is closed, in front of the parts that follow in either case.
unfoldable pub split_thought :
    ContentPart
    → List ContentPart × Bool
    → List ContentPart × Bool
    → Option (Str × Str)
    → List ContentPart × Bool
unfolding strip_think_tags
split_thought p same closed none = (p ∷ same.0, same.1)
split_thought p same closed (some (before, after)) = (
  before_parts before thinking (before_parts (strip_think_tags after) text_kind closed.0),
  closed.1,
)

-- `splitThinkingParts` from a state of `thinkingDone`.
unfoldable pub split_thinking_parts : Bool → List ContentPart → List ContentPart × Bool
unfolding split_thought find_close_tag str_eq
split_thinking_parts thinking_done [] = ([], thinking_done)
split_thinking_parts thinking_done (p ∷ ps) =
    let is_thought = str_eq p.type thinking in
    let same = split_thinking_parts thinking_done ps in
    let closed = split_thinking_parts true ps in
    let kind = if is_thought then text_kind else p.type in
    if not is_thought || thinking_done
    then (before_parts (strip_think_tags p.text) kind same.0, same.1)
    else split_thought p same closed (find_close_tag p.text)
