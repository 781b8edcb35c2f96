-- ===== src/Vt/Parser/Answers.antt =====
-- What the dispatch functions may answer with: `unknown_sequence` comes only from an OSC, and then
-- with an empty text.
use corehost.Base.{
  ◌==◌, ◌&&◌, Option-cases, ℕ, ◌≡◌, refl, inl, inr, true, false, List, [], ◌∷◌, arith, Bool-cases,
}
use corehost.Vt.Message.{MessageId, Payload, is_unknown}
use corehost.Vt.Csi.{
  CsiParams, Answer, get_param, csi_cursor, csi_position, resize_answer, cpr_answer, mode_set,
  mode_reset, tilde_key,
}
use corehost.Vt.Csi.Dispatch.{
  csi_edit, csi_screen, csi_style, csi_report, csi_switch, dispatch_esc, dispatch_ss3,
  dispatch_charset,
}
use corehost.Vt.Osc.{
  dispatch_osc, osc_body, osc_payload, osc_command, osc_palette, take_code, until_terminator,
}

-- No table of the CSI switch answers with `unknown_sequence`: that is left to `finish_seq`.
abbrev pub IsKnown : MessageId → Type 0
IsKnown id = is_unknown id ≡ false

tilde_key-IsKnown : (v : ℕ) → IsKnown (tilde_key v)
unfolding tilde_key
tilde_key-IsKnown v = ground arith

mode_set-IsKnown : (v : ℕ) → IsKnown (mode_set v)
unfolding mode_set
mode_set-IsKnown v = ground arith

mode_reset-IsKnown : (v : ℕ) → IsKnown (mode_reset v)
unfolding mode_reset
mode_reset-IsKnown v = ground arith

resize_answer-IsKnown : (c : CsiParams) (old : Payload) → IsKnown (resize_answer c old).id
unfolding resize_answer
resize_answer-IsKnown c old = ground arith

cpr_answer-IsKnown : (c : CsiParams) → IsKnown (cpr_answer c).id
unfolding cpr_answer
cpr_answer-IsKnown c = ground arith

csi_report-IsKnown :
    (c : CsiParams) (old : Payload) (t : ℕ) (other : Answer)
    → IsKnown other.id
    → IsKnown (csi_report c old t other).id
unfolding csi_report
csi_report-IsKnown c old t other h =
    ground (arith, tilde_key-IsKnown (get_param c 0 0), cpr_answer-IsKnown c)

csi_style-IsKnown :
    (c : CsiParams) (old : Payload) (t : ℕ) (other : Answer)
    → IsKnown other.id
    → IsKnown (csi_style c old t other).id
unfolding csi_style
csi_style-IsKnown c old t other h = ground arith

csi_screen-IsKnown :
    (c : CsiParams) (old : Payload) (t : ℕ) (other : Answer)
    → IsKnown other.id
    → IsKnown (csi_screen c old t other).id
unfolding csi_screen
csi_screen-IsKnown c old t other h = ground (
  arith,
  mode_set-IsKnown (get_param c 0 0),
  mode_reset-IsKnown (get_param c 0 0),
  resize_answer-IsKnown c old,
)

csi_edit-IsKnown :
    (c : CsiParams) (t : ℕ) (other : Answer) → IsKnown other.id → IsKnown (csi_edit c t other).id
unfolding csi_edit
csi_edit-IsKnown c t other h = ground arith

csi_position-IsKnown :
    (c : CsiParams) (old : Payload) (t : ℕ) (other : Answer)
    → IsKnown other.id
    → IsKnown (csi_position c old t other).id
unfolding csi_position
csi_position-IsKnown c old t other h = ground arith

csi_cursor-IsKnown :
    (c : CsiParams) (old : Payload) (t : ℕ) (other : Answer)
    → IsKnown other.id
    → IsKnown (csi_cursor c old t other).id
unfolding csi_cursor
csi_cursor-IsKnown c old t other h = ground arith

pub dispatch_esc-IsKnown : (t : ℕ) → IsKnown (dispatch_esc t)
unfolding dispatch_esc
dispatch_esc-IsKnown t = ground arith

pub dispatch_ss3-IsKnown : (t : ℕ) → IsKnown (dispatch_ss3 t)
unfolding dispatch_ss3
dispatch_ss3-IsKnown t = ground arith

pub dispatch_charset-IsKnown : (t : ℕ) → IsKnown (dispatch_charset t)
unfolding dispatch_charset
dispatch_charset-IsKnown t = ground arith

-- An OSC that is not supported leaves no text.
abbrev pub HasNoText : Answer → Type 0
HasNoText a = is_unknown a.id ≡ true → a.payload ≡ Payload.text []

osc_command-HasNoText : (code : ℕ) (payload : List ℕ) → HasNoText (osc_command code payload)
unfolding osc_command osc_palette
osc_command-HasNoText code payload e = ground arith

osc_payload-HasNoText :
    (old : Payload) (code : ℕ) (cs : List ℕ) → HasNoText (osc_payload old code cs)
unfolding osc_payload
osc_payload-HasNoText old code [] = λ e. cc
osc_payload-HasNoText old code (c ∷ cs) = elim (Bool-cases (c == b';')) [
  | inl semi ↦ elim (Option-cases (until_terminator cs)) [
    | inl open_end ↦ rw (semi, open_end) (λ e. cc)
    | inr (payload, closed) ↦ rw (semi, closed) (osc_command-HasNoText code payload)
  ]
  | inr other ↦ rw other (λ e. cc)
]

pub dispatch_osc-HasNoText : (old : Payload) (s : List ℕ) → HasNoText (dispatch_osc old s)
unfolding dispatch_osc osc_body
dispatch_osc-HasNoText old [] = λ e. cc
dispatch_osc-HasNoText old (a ∷ []) = λ e. cc
dispatch_osc-HasNoText old (a ∷ b ∷ []) = λ e. cc
dispatch_osc-HasNoText old (a ∷ b ∷ c ∷ cs) = elim (Bool-cases (a == 0x1b && b == b']')) [
  | inl opened ↦
      rw opened (osc_payload-HasNoText old (take_code 0 (c ∷ cs)).0 (take_code 0 (c ∷ cs)).1)
  | inr other ↦ rw other (λ e. cc)
]

pub csi_switch-IsKnown : (c : CsiParams) (old : Payload) (t : ℕ) → IsKnown (csi_switch c old t).id
unfolding csi_switch
csi_switch-IsKnown c old t = csi_cursor-IsKnown c old t _ (
    csi_position-IsKnown c old t _ (
      csi_edit-IsKnown c t _ (
        csi_screen-IsKnown c old t _
          (csi_style-IsKnown c old t _ (csi_report-IsKnown c old t _ refl)))))
