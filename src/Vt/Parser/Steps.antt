-- ===== src/Vt/Parser/Steps.antt =====
-- What one step of a sequence does to the mode, the raw text and the message.
use corehost.Base.{
  ℕ, ◌≡◌, refl, sym, ◌∙◌, ap, ◌⊎◌, inl, inr, Bool, true, false, not, [], ◌∷◌, ◌++◌, some, drop,
  Bool-cases, if◌then◌else◌, ◌==◌, ◌&&◌, within, ltb, length,
}
use corehost.Vt.Message.{MessageId, Payload, is_continue, is_unknown}
use corehost.Vt.Csi.Dispatch.{dispatch_esc, dispatch_ss3, dispatch_charset}
use corehost.Vt.Osc.{is_digit}
use corehost.Vt.Parser.{
  is_c0_or_del, push_digit, Mode, Parser, CsiCharKind, broken, finish_seq, finish_osc, finish_csi,
  add_param, parse_esc, parse_csi_kind, classify_csi_char, to_ground, reset_params,
}
use corehost.Vt.Parser.Parse.{
  parse_ss3, parse_osc_text, parse_osc, parse_osc_st, step_in, step, in_ground,
}
use corehost.Vt.Parser.Answers.{
  csi_switch-IsKnown, dispatch_esc-IsKnown, dispatch_ss3-IsKnown, dispatch_charset-IsKnown,
  dispatch_osc-HasNoText,
}

-- After a handler that got `p`: the parser is in ground exactly when there is a message; the raw
-- text is untouched, and its start stays or is 0; the text of an unknown sequence is all of it,
-- or empty.
pub record Handled (p : Parser) (r : Parser × MessageId) : Type 0 where
  pub mode_is : in_ground r.0 ≡ not (is_continue r.1)
  pub raw_is : r.0.raw ≡ p.raw
  pub start_is : p.seq_start ≡ 0 → r.0.seq_start ≡ 0
  pub text_is :
      is_unknown r.1 ≡ true
      → (r.0.payload ≡ Payload.text (drop p.seq_start p.raw)) ⊎ (r.0.payload ≡ Payload.text [])

branch :
    (p : Parser) (b : Bool) (x y : Parser × MessageId)
    → Handled p x
    → Handled p y
    → Handled p (if b then x else y)
branch p true x y h k = h
branch p false x y h k = k

finish_seq-Handled :
    (p q : Parser) (id : MessageId)
    → q.raw ≡ p.raw
    → q.seq_start ≡ p.seq_start
    → in_ground q ≡ true
    → (is_unknown id ≡ true → q.payload ≡ Payload.text [])
    → Handled p (finish_seq q id)
unfolding finish_seq in_ground
finish_seq-Handled p q id e s m h = elim (Bool-cases (is_continue id)) [
  | inl more ↦
      rw more
        (record { mode_is = m; raw_is = e; start_is = λ _. refl; text_is = λ _. inl (rw (e, s)) })
  | inr done ↦ rw done (record {
    mode_is = m ∙ ap not (sym done);
    raw_is = e;
    start_is = λ _. refl;
    text_is = λ u. inr (h u);
  })
]

finish_osc-Handled : (p : Parser) → Handled p (finish_osc p)
unfolding finish_osc in_ground
finish_osc-Handled p =
    finish_seq-Handled p _ _ refl refl refl
      (dispatch_osc-HasNoText p.payload (drop p.seq_start p.raw))

finish_csi-Handled : (p : Parser) (ch : ℕ) → Handled p (finish_csi p ch)
unfolding finish_csi in_ground
finish_csi-Handled p ch = branch p _ _ _ (finish_seq-Handled p _ _ refl refl refl (λ e. cc)) (
    finish_seq-Handled p _ _ refl refl refl (λ e. cc (e, csi_switch-IsKnown p.params p.payload ch)))

-- A handler that only reads on, or that breaks the sequence off.
more-Handled :
    (p q : Parser)
    → q.raw ≡ p.raw
    → q.seq_start ≡ p.seq_start
    → in_ground q ≡ false
    → Handled p (q, MessageId.continue_)
more-Handled p q e s m = record {
  mode_is = m;
  raw_is = e;
  start_is = λ z. s ∙ z;
  text_is = λ u. cc;
}

broken-Handled : (p q : Parser) → q.raw ≡ p.raw → q.seq_start ≡ p.seq_start → Handled p (broken q)
unfolding in_ground
broken-Handled p q e s = record {
  mode_is = refl;
  raw_is = e;
  start_is = λ z. s ∙ z;
  text_is = λ u. inl (rw (e, s));
}

parse_esc-Handled : (p : Parser) (ch : ℕ) → in_ground p ≡ false → Handled p (parse_esc p ch)
unfolding parse_esc in_ground
parse_esc-Handled p ch m = branch p (is_c0_or_del ch) _ _ (broken-Handled p p refl refl) (
    branch p (ch == b'[') _ _
      (more-Handled p (record (reset_params p) { mode = Mode.csi }) refl refl refl)
      (branch p (ch == b']') _ _
        (more-Handled p
          (record p { osc_code = 0; osc_buf = []; osc_had_semi = false; mode = Mode.osc }) refl refl
          refl)
        (branch p (ch == b'O') _ _ (more-Handled p (record p { mode = Mode.ss3 }) refl refl refl) (
          branch p (ch == b'(') _ _
            (more-Handled p (record p { params = record p.params { intermediate = b'(' } }) refl
              refl m)
            (branch p (p.params.intermediate == b'(') _ _
              (finish_seq-Handled p
                (to_ground (record p { params = record p.params { intermediate = 0 } }))
                (dispatch_charset ch) refl refl refl (λ e. cc (e, dispatch_charset-IsKnown ch)))
              (branch p (not (p.params.intermediate == 0)) _ _
                (broken-Handled p (record p { params = record p.params { intermediate = 0 } }) refl
                  refl)
                (finish_seq-Handled p (to_ground p) (dispatch_esc ch) refl refl refl
                  (λ e. cc (e, dispatch_esc-IsKnown ch)))))))))

add_param-frame :
    (p : Parser)
    → ((add_param p).raw ≡ p.raw)
      × ((add_param p).seq_start ≡ p.seq_start)
      × ((add_param p).mode ≡ p.mode)
unfolding add_param
add_param-frame p = (refl, refl, refl)

-- A handler may change what a message does not show before it passes the rest on.
framed :
    (p q : Parser) (r : Parser × MessageId)
    → q.raw ≡ p.raw
    → q.seq_start ≡ p.seq_start
    → Handled q r
    → Handled p r
framed p q r e s h = record {
  mode_is = h.mode_is;
  raw_is = h.raw_is ∙ e;
  start_is = λ z. h.start_is (s ∙ z);
  text_is = λ u. elim (h.text_is u) [ inl t ↦ inl cc | inr t ↦ inr t ];
}

parse_csi_kind-Handled :
    (k : CsiCharKind) (p : Parser) (ch : ℕ)
    → in_ground p ≡ false
    → Handled p (parse_csi_kind k p ch)
unfolding parse_csi_kind in_ground
parse_csi_kind-Handled CsiCharKind.control p ch m = broken-Handled p (reset_params p) refl refl
parse_csi_kind-Handled CsiCharKind.invalid p ch m = broken-Handled p (reset_params p) refl refl
parse_csi_kind-Handled CsiCharKind.digit p ch m =
    more-Handled p (record p { current_param = push_digit p.current_param ch; has_param = true })
      refl refl m
parse_csi_kind-Handled CsiCharKind.private_marker p ch m =
    more-Handled p (record p { params = record p.params { private_marker = true } }) refl refl m
parse_csi_kind-Handled CsiCharKind.intermediate p ch m =
    more-Handled p (record p { params = record p.params { intermediate = ch } }) refl refl m
parse_csi_kind-Handled CsiCharKind.semicolon p ch m =
    unfold add_param in more-Handled p (add_param p) refl refl m
parse_csi_kind-Handled CsiCharKind.final p ch m =
    let (r, s, _) = add_param-frame p in
    framed p (add_param p) (finish_csi (add_param p) ch) r s (finish_csi-Handled (add_param p) ch)

parse_ss3-Handled : (p : Parser) (ch : ℕ) → Handled p (parse_ss3 p ch)
unfolding parse_ss3 in_ground
parse_ss3-Handled p ch = branch p (is_c0_or_del ch) _ _ (broken-Handled p p refl refl) (
    branch p (within 0x40 0x7e ch) _ _
      (finish_seq-Handled p (to_ground p) (dispatch_ss3 ch) refl refl refl
        (λ e. cc (e, dispatch_ss3-IsKnown ch)))
      (broken-Handled p p refl refl))

parse_osc_text-Handled :
    (p : Parser) (ch : ℕ) → in_ground p ≡ false → Handled p (parse_osc_text p ch)
unfolding parse_osc_text in_ground
parse_osc_text-Handled p ch m =
    branch p (not p.osc_had_semi) _ _
      (branch p (is_digit ch) _ _
        (more-Handled p (record p { osc_code = push_digit p.osc_code ch }) refl refl m)
        (branch p (ch == b';') _ _ (more-Handled p (record p { osc_had_semi = true }) refl refl m)
          (more-Handled p p refl refl m)))
      (branch p
        (not (p.osc_code == 0) && not (p.osc_code == 2) && ltb (length p.osc_buf) 31 && ltb ch 0x80)
        _ _ (more-Handled p (record p { osc_buf = p.osc_buf ++ ch ∷ [] }) refl refl m)
        (more-Handled p p refl refl m))

parse_osc-Handled : (p : Parser) (ch : ℕ) → in_ground p ≡ false → Handled p (parse_osc p ch)
unfolding parse_osc in_ground
parse_osc-Handled p ch m =
    branch p (is_c0_or_del ch) _ _
      (branch p (ch == 0x07) _ _ (finish_osc-Handled p) (
        branch p (ch == 0x1b) _ _ (more-Handled p (record p { mode = Mode.osc_st }) refl refl refl)
          (broken-Handled p (record p { osc_code = 0; osc_buf = []; osc_had_semi = false }) refl
            refl)))
      (parse_osc_text-Handled p ch m)

parse_osc_st-Handled : (p : Parser) (ch : ℕ) → Handled p (parse_osc_st p ch)
unfolding parse_osc_st in_ground
parse_osc_st-Handled p ch = branch p (ch == b'\\') _ _ (finish_osc-Handled p) (
    framed p (record p { mode = Mode.esc }) _ refl refl
      (parse_esc-Handled (record p { mode = Mode.esc }) ch refl))

-- Outside ground the switch has a handler for every mode.
step_in-Handled :
    (m : Mode) (p : Parser) (ch : ℕ)
    → in_ground p ≡ false
    → in_ground (record p { mode = m }) ≡ false
    → (r : Parser × MessageId) × (step_in m p ch ≡ some r) × Handled p r
unfolding step_in in_ground
step_in-Handled Mode.ground p ch q m = cc
step_in-Handled Mode.esc p ch q m = (parse_esc p ch, refl, parse_esc-Handled p ch q)
step_in-Handled Mode.csi p ch q m = (
  parse_csi_kind (classify_csi_char ch) p ch,
  refl,
  parse_csi_kind-Handled (classify_csi_char ch) p ch q,
)
step_in-Handled Mode.osc p ch q m = (parse_osc p ch, refl, parse_osc-Handled p ch q)
step_in-Handled Mode.osc_st p ch q m = (parse_osc_st p ch, refl, parse_osc_st-Handled p ch)
step_in-Handled Mode.ss3 p ch q m = (parse_ss3 p ch, refl, parse_ss3-Handled p ch)

-- One code point inside a sequence: there is a result, and the code point is kept.
pub step-Handled :
    (p : Parser) (ch : ℕ)
    → in_ground p ≡ false
    → (r : Parser × MessageId) × (step p ch ≡ some r)
      × Handled (record p { raw = p.raw ++ ch ∷ [] }) r
unfolding step
step-Handled p ch m =
    step_in-Handled p.mode (record p { raw = p.raw ++ ch ∷ [] }) ch (unfold in_ground in m)
      (unfold in_ground in m)
