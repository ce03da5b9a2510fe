-- ===== src/Sse/Pump/Marks.antt =====
-- internal/sse/stream.go: what the pump has sent and holds, as one text.
use generalcompute2api.Prelude.{
  ℕ, Bool, true, false, ◌≡◌, refl, sym, ap, ◌∙◌, List, [], ◌∷◌, ◌++◌, map, append-nil, append_assoc,
}
use generalcompute2api.Prelude.Text.{Str, str_eq}
use generalcompute2api.Sse.{ContentPart, LineResult}
use generalcompute2api.Sse.Tags.{before_parts, is_thinking, part, thinking}
use generalcompute2api.Sse.Pump.{Pump, send, send_if}

-- A text, each byte with whether it is thinking.
abbrev pub mark : Bool → Str → List (Bool × ℕ)
mark b s = map (λ c. (b, c)) s

unfoldable pub tagged : List ContentPart → List (Bool × ℕ)
unfolding is_thinking
tagged [] = []
tagged (p ∷ ps) = mark (is_thinking p) p.text ++ tagged ps

-- The texts of parts, one after the other.
abbrev pub texts : List ContentPart → Str
texts [] = []
texts (p ∷ ps) = p.text ++ texts ps

unfoldable pub emitted : List LineResult → List (Bool × ℕ)
unfolding tagged
emitted [] = []
emitted (r ∷ rs) = tagged r.parts ++ emitted rs

abbrev pub emitted_detection : List LineResult → Str
emitted_detection [] = []
emitted_detection (r ∷ rs) = texts r.tool_detection_thinking_parts ++ emitted_detection rs

-- What was sent and then what is held.
unfoldable pub all_of : Pump → List (Bool × ℕ)
unfolding emitted
all_of st = emitted st.out ++ mark true st.thinking_buffer ++ mark false st.text_buffer

abbrev pub all_detection : Pump → Str
all_detection st = emitted_detection st.out ++ st.detection_buffer

-- All sends go through, and the buffers are handed on as what they are.
unfoldable pub IsTidy : Pump → Type 0
unfolding tagged
IsTidy st =
    (st.sends ≡ [])
    × (tagged (before_parts st.thinking_buffer st.thinking_pending_type [])
        ≡ mark true st.thinking_buffer)
    × (tagged (before_parts st.text_buffer st.text_pending_type []) ≡ mark false st.text_buffer)

-- `t` is added to what is sent and held, and `d` to the text for the detection of tools.
pub record Adds (t : List (Bool × ℕ)) (d : Str) (st st' : Pump) : Type 0 where
  pub added : all_of st' ≡ all_of st ++ t
  pub detected : all_detection st' ≡ all_detection st ++ d
  pub typed : st'.current_type ≡ st.current_type
  pub tidy : IsTidy st'

pub tagged-before :
    (s kind : Str) (b : Bool)
    → str_eq kind thinking ≡ b
    → tagged (before_parts s kind []) ≡ mark b s
unfolding tagged
tagged-before [] kind b e = refl
tagged-before (c ∷ s) kind b e = append-nil _ ∙ ap (λ x. mark x (c ∷ s)) e

pub tagged-before_append :
    (s kind : Str) (ps : List ContentPart)
    → tagged (before_parts s kind ps) ≡ tagged (before_parts s kind []) ++ tagged ps
unfolding tagged
tagged-before_append [] kind ps = refl
tagged-before_append (c ∷ s) kind ps =
    ap (λ t. t ++ tagged ps) (sym (append-nil (mark (is_thinking (part (c ∷ s) kind)) (c ∷ s))))

pub texts-before : (s kind : Str) → texts (before_parts s kind []) ≡ s
texts-before [] kind = refl
texts-before (c ∷ s) kind = append-nil (c ∷ s)

pub emitted-append : (rs qs : List LineResult) → emitted (rs ++ qs) ≡ emitted rs ++ emitted qs
unfolding emitted
emitted-append [] qs = refl
emitted-append (r ∷ rs) qs =
    ap (λ t. tagged r.parts ++ t) (emitted-append rs qs)
    ∙ sym (append_assoc (tagged r.parts) (emitted rs) (emitted qs))

pub emitted_detection-append :
    (rs qs : List LineResult)
    → emitted_detection (rs ++ qs) ≡ emitted_detection rs ++ emitted_detection qs
emitted_detection-append [] qs = refl
emitted_detection-append (r ∷ rs) qs =
    ap (λ t. texts r.tool_detection_thinking_parts ++ t) (emitted_detection-append rs qs)
    ∙ sym (append_assoc (texts r.tool_detection_thinking_parts) _ _)

pub Adds-trans :
    (t u : List (Bool × ℕ)) (d e : Str) (a b c : Pump)
    → Adds t d a b
    → Adds u e b c
    → Adds (t ++ u) (d ++ e) a c
Adds-trans t u d e a b c h k = record {
  added = k.added ∙ ap (λ x. x ++ u) h.added ∙ append_assoc (all_of a) t u;
  detected = k.detected ∙ ap (λ x. x ++ e) h.detected ∙ append_assoc (all_detection a) d e;
  typed = k.typed ∙ h.typed;
  tidy = k.tidy;
}

pub Adds-refl :
    (a b : Pump)
    → IsTidy b
    → all_of b ≡ all_of a
    → all_detection b ≡ all_detection a
    → b.current_type ≡ a.current_type
    → Adds [] [] a b
Adds-refl a b h e f g = record {
  added = e ∙ sym (append-nil _);
  detected = f ∙ sym (append-nil _);
  typed = g;
  tidy = h;
}

-- A step that adds nothing, after another.
pub Adds-silent :
    {t : List (Bool × ℕ)} {d : Str} {a b c : Pump} → Adds t d a b → Adds [] [] b c → Adds t d a c
Adds-silent h k = record {
  added = k.added ∙ append-nil _ ∙ h.added;
  detected = k.detected ∙ append-nil _ ∙ h.detected;
  typed = k.typed ∙ h.typed;
  tidy = k.tidy;
}

-- With all sends going through, a result is sent.
pub send_goes :
    (r : LineResult) (st : Pump)
    → st.sends ≡ []
    → send r st ≡ (record st { out = st.out ++ (r ∷ []) }, true)
unfolding send
send_goes r st h = ap (send_if r st) h ∙ sent
  where
    sent : send_if r st [] ≡ (record st { out = st.out ++ (r ∷ []) }, true)
    sent = refl

-- Nothing is held, and all that was is added to what is sent.
pub record Empties (st st' : Pump) : Type 0 where
  pub adds : Adds [] [] st st'
  pub no_text : st'.text_buffer ≡ []
  pub no_thinking : st'.thinking_buffer ≡ []
  pub no_detection : st'.detection_buffer ≡ []
