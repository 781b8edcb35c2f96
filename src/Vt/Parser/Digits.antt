-- ===== src/Vt/Parser/Digits.antt =====
-- The numbers of a control sequence, from its digits to the payload.
use corehost.Base.{
  ℕ, suc, ◌+◌, ◌-◌, ◌*◌, ◌%◌, ◌≡◌, refl, sym, ◌∙◌, ap, Bool, true, ◌&&◌, List, [], ◌∷◌, ◌++◌, some,
  arith, length, if◌then◌else◌, ◌==◌, replicate,
}
use mathlib.Core.List.{append_assoc, append-nil}
use corehost.Vt.Message.{MessageId, Payload, ParseResult, clamp}
use corehost.Vt.Osc.{is_digit}
use corehost.Vt.Csi.{CsiParams, csi_cursor, csi_position, get_positive_param, get_param}
use corehost.Vt.Csi.Dispatch.{csi_switch, csi_modifier}
use corehost.Vt.Parser.Loop.{parse-escape}
use corehost.Vt.Parser.Progress.{id-make_result, consumed-make_result}
use corehost.Vt.Parser.Whole.{message-make_result}
use corehost.Vt.Parser.{
  no_params, finish_seq, Parser, Mode, initial, classify_csi_char, CsiCharKind, parse_csi_kind,
  push_digit, add_param, finish_csi, reset_params, parse_esc,
}
use corehost.Vt.Parser.Parse.{parse, step, step_in, scan, scan_result, in_ground, make_result}
use corehost.Vt.Parser.Runs.{scan-more, scan-done}

abbrev pub all_digits : List ℕ → Bool
all_digits [] = true
all_digits (c ∷ cs) = is_digit c && all_digits cs

-- The number that a string of digits writes, behind what was read before it.
unfoldable pub value_from : ℕ → List ℕ → ℕ
value_from v [] = v
value_from v (c ∷ cs) = value_from (v * 10 + (c - b'0')) cs

classify-digit : (c : ℕ) → is_digit c ≡ true → classify_csi_char c ≡ CsiCharKind.digit
unfolding classify_csi_char
classify-digit c h = ground arith

step-digit :
    (p : Parser) (c : ℕ)
    → p.mode ≡ Mode.csi
    → is_digit c ≡ true
    → step p c
      ≡ some (
        record p {
          raw = p.raw ++ c ∷ [];
          current_param = push_digit p.current_param c;
          has_param = true;
        },
        MessageId.continue_,
      )
unfolding step step_in parse_csi_kind
step-digit p c m h = rw (m, classify-digit c h)

push_digit_mod : (v c : ℕ) → push_digit (v % 65536) c ≡ (v * 10 + (c - b'0')) % 65536
push_digit_mod v c = omega arith

-- The parser behind a string of digits.
abbrev with_digits : Parser → List ℕ → ℕ → Bool → Parser
with_digits p ds v b = record p { raw = p.raw ++ ds; current_param = v; has_param = b }

scan-digits :
    (ds rest : List ℕ) (i v : ℕ) (p : Parser)
    → p.mode ≡ Mode.csi
    → all_digits ds ≡ true
    → p.current_param ≡ v % 65536
    → (b : Bool) × (scan i (ds ++ rest) p
        ≡ scan (i + length ds) rest (with_digits p ds (value_from v ds % 65536) b))
unfolding value_from
scan-digits [] rest i v p m a e =
    let z : i ≡ i + 0 = omega arith in
    (
      p.has_param,
      λ j. scan (z j) rest (record p { raw = sym (append-nil p.raw) j; current_param = e j }),
    )
scan-digits (c ∷ cs) rest i v p m a e =
    let d : is_digit c ≡ true = ground arith in
    let ds : all_digits cs ≡ true = ground arith in
    let q : Parser = record p {
      raw = p.raw ++ c ∷ [];
      current_param = push_digit p.current_param c;
      has_param = true;
    } in
    let pushed : push_digit p.current_param c ≡ (v * 10 + (c - b'0')) % 65536 =
      ap (λ n. push_digit n c) e ∙ push_digit_mod v c in
    let (b, f) = scan-digits cs rest (i + 1) (v * 10 + (c - b'0')) q m ds pushed in
    let z : i + 1 + length cs ≡ i + suc (length cs) = omega arith in
    (
      b,
      scan-more p q MessageId.continue_ i c (cs ++ rest) (step-digit p c m d) refl ∙ f ∙ (λ j.
          scan (z j) rest (record p {
            raw = append_assoc p.raw (c ∷ []) cs j;
            current_param = value_from (v * 10 + (c - b'0')) cs % 65536;
            has_param = b;
          })),
    )

step-semicolon :
    (p : Parser)
    → p.mode ≡ Mode.csi
    → step p b';' ≡ some (add_param (record p { raw = p.raw ++ b';' ∷ [] }), MessageId.continue_)
unfolding step step_in parse_csi_kind classify_csi_char
step-semicolon p m = rw m

step-final_h :
    (p : Parser)
    → p.mode ≡ Mode.csi
    → step p b'H' ≡ some (finish_csi (add_param (record p { raw = p.raw ++ b'H' ∷ [] })) b'H')
unfolding step step_in parse_csi_kind classify_csi_char
step-final_h p m = rw m

step-bracket :
    (p : Parser)
    → p.mode ≡ Mode.esc
    → step p b'['
      ≡ some (
        record (reset_params (record p { raw = p.raw ++ b'[' ∷ [] })) { mode = Mode.csi },
        MessageId.continue_,
      )
unfolding step step_in parse_esc
step-bracket p m = rw m

-- The row or column that a number of 16 bits means: 0 stands for the first.
unfoldable pub coordinate : ℕ → ℕ
coordinate v = if v == 0 then 1 else v

-- The largest `short` bounds nothing.
clamp_lem : (v : ℕ) → clamp v ≡ v
unfolding clamp
clamp_lem v = ground arith

-- The parameters behind two numbers.
abbrev two_params : ℕ → ℕ → CsiParams
two_params v w = record no_params { params = v ∷ w ∷ replicate 14 0; param_index = 2 }

finish_csi-position :
    (p : Parser) (v w : ℕ)
    → (q : Parser) × (finish_csi (record p { params = two_params v w }) b'H'
        ≡ (q, MessageId.cursor_position))
      × (q.payload ≡ Payload.position (coordinate v) (coordinate w))
unfolding finish_csi csi_switch csi_cursor csi_position get_positive_param get_param coordinate
    finish_seq csi_modifier
finish_csi-position p v w = (_, refl, rw (clamp_lem v, clamp_lem w))

-- ESC [ and two strings of digits, with ';' between them and 'H' behind them, is a cursor position
-- of the two numbers modulo 2 ^ 16, each 1 where that is 0.
pub cursor_position_digits :
    (ds es : List ℕ)
    → all_digits ds ≡ true
    → all_digits es ≡ true
    → (p : Parser) × (r : ParseResult) × (parse
          (0x1b ∷ b'[' ∷ (ds ++ (b';' ∷ (es ++ b'H' ∷ []))))
          initial
        ≡ some (p, r))
      × (r.id ≡ MessageId.cursor_position)
      × (r.consumed ≡ 4 + length ds + length es)
      × (r.message.payload
          ≡ Payload.position
              (coordinate (value_from 0 ds % 65536))
              (coordinate (value_from 0 es % 65536)))
unfolding scan_result in_ground add_param
cursor_position_digits ds es h k =
    let e : Parser = record initial { raw = 0x1b ∷ []; mode = Mode.esc } in
    let c : Parser = record e { raw = 0x1b ∷ b'[' ∷ []; mode = Mode.csi } in
    let (b, f) = scan-digits ds (b';' ∷ (es ++ b'H' ∷ [])) 2 0 c refl h refl in
    let d : Parser = with_digits c ds (value_from 0 ds % 65536) b in
    let a : Parser = add_param (record d { raw = d.raw ++ b';' ∷ [] }) in
    let (b', g) = scan-digits es (b'H' ∷ []) (2 + length ds + 1) 0 a refl k refl in
    let w : Parser = with_digits a es (value_from 0 es % 65536) b' in
    let z : Parser = add_param (record w { raw = w.raw ++ b'H' ∷ [] }) in
    let (q, l, m) = finish_csi-position z (value_from 0 ds % 65536) (value_from 0 es % 65536) in
    let n = 2 + length ds + 1 + length es + 1 in
    (
      q,
      make_result q MessageId.cursor_position n,
      parse-escape initial 0x1b (b'[' ∷ (ds ++ (b';' ∷ (es ++ b'H' ∷ [])))) refl refl
          ∙ ap scan_result (
              scan-more e c MessageId.continue_ 1 b'[' (ds ++ (b';' ∷ (es ++ b'H' ∷ [])))
                (step-bracket e refl) refl
              ∙ f
              ∙ scan-more d a MessageId.continue_ (2 + length ds) b';' (es ++ b'H' ∷ [])
                  (step-semicolon d refl) refl
              ∙ g
              ∙ scan-done w q MessageId.cursor_position (2 + length ds + 1 + length es) b'H' []
                  (step-final_h w refl ∙ ap some l) refl),
      id-make_result q MessageId.cursor_position n,
      consumed-make_result q MessageId.cursor_position n ∙ omega arith,
      message-make_result q MessageId.cursor_position n refl ∙ m,
    )
