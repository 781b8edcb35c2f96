-- ===== src/Vt/Parser.antt =====
-- The state of `vt_parser` and its handlers for one code point. `none` stands for a run that
-- reaches std::unreachable(). `_raw` is owned by the caller and used by the parser alone.
pub mod Parse
pub mod Answers
pub mod Steps
pub mod Runs
pub mod Paths
pub mod Ways
pub mod Loop
pub mod Progress
pub mod Raw
pub mod Whole
pub mod Stale
pub mod Digits
pub mod Pieces
pub mod Chunks
mod Tests
use corehost.Base.{
  ℕ, zero, suc, ◌+◌, ◌-◌, ◌*◌, ◌%◌, Bool, true, false, not, ◌&&◌, ◌||◌, List, [], ◌∷◌, ◌++◌, Option,
  none, some, ltb, leb, ◌==◌, within, length, set, drop, replicate, if◌then◌else◌,
}
use corehost.Vt.Message.{MessageId, Payload, is_continue}
use corehost.Vt.Sgr.{no_change}
use corehost.Vt.Csi.{CsiParams, Answer}
use corehost.Vt.Csi.Dispatch.{
  csi_switch, csi_modifier, dispatch_esc, dispatch_ss3, dispatch_charset,
}
use corehost.Vt.Osc.{is_digit, dispatch_osc}

pub data Mode : Type 0 where
  ground esc csi osc ss3 osc_st : Mode

pub record Parser : Type 0 where
  pub payload : Payload
  pub key_modifier : ℕ
  pub raw : List ℕ
  pub seq_start : ℕ
  pub mode : Mode
  pub params : CsiParams
  pub current_param : ℕ
  pub has_param : Bool
  pub osc_code : ℕ
  pub osc_buf : List ℕ
  pub osc_had_semi : Bool
  pub ground_control_char : ℕ

abbrev pub max_params : ℕ
max_params = 16

abbrev pub no_params : CsiParams
no_params = record {
  params = replicate max_params 0;
  param_index = 0;
  private_marker = false;
  intermediate = 0;
  csi_overflow = false;
}

-- A new parser over an empty buffer.
abbrev pub initial : Parser
initial = record {
  payload = Payload.sgr no_change;
  key_modifier = 1;
  raw = [];
  seq_start = 0;
  mode = Mode.ground;
  params = no_params;
  current_param = 0;
  has_param = false;
  osc_code = 0;
  osc_buf = [];
  osc_had_semi = false;
  ground_control_char = 0;
}

abbrev pub is_c0_or_del : ℕ → Bool
is_c0_or_del ch = leb ch 0x1f || ch == 0x7f

abbrev pub reset_params : Parser → Parser
reset_params p = record p { params = no_params; current_param = 0; has_param = false }

unfoldable pub add_param : Parser → Parser
add_param p = record p {
  params =
      if ltb p.params.param_index max_params
      then record p.params {
        params = set p.params.params p.params.param_index p.current_param;
        param_index = p.params.param_index + 1;
      }
      else record p.params { csi_overflow = true };
  current_param = 0;
  has_param = false;
}

-- `_set_unknown_sequence(_seq_start)`: the whole sequence is the text.
abbrev pub set_unknown : Parser → Parser
set_unknown p = record p { payload = Payload.text (drop p.seq_start p.raw) }

-- A sequence that breaks off: back to ground, with the text read so far.
abbrev pub broken : Parser → Parser × MessageId
broken p = (record (set_unknown p) { mode = Mode.ground }, MessageId.unknown_sequence)

unfoldable pub finish_seq : Parser → MessageId → Parser × MessageId
finish_seq p id =
    if is_continue id
    then (record (set_unknown p) { seq_start = 0 }, MessageId.unknown_sequence)
    else (record p { seq_start = 0 }, id)

abbrev pub to_ground : Parser → Parser
to_ground p = record p { mode = Mode.ground }

abbrev pub go : Mode → Parser → Parser × MessageId
go m p = (record p { mode = m }, MessageId.continue_)

unfoldable pub finish_osc : Parser → Parser × MessageId
finish_osc p =
    let a = dispatch_osc p.payload (drop p.seq_start p.raw) in
    finish_seq (record p { payload = a.payload; mode = Mode.ground }) a.id

unfoldable pub finish_csi : Parser → ℕ → Parser × MessageId
finish_csi p ch =
    if p.params.csi_overflow
    then finish_seq (reset_params (to_ground p)) MessageId.continue_
    else let a = csi_switch p.params p.payload ch in
      finish_seq
        (reset_params (record p {
          payload = a.payload;
          key_modifier = csi_modifier p.params;
          mode = Mode.ground;
        }))
        a.id

unfoldable pub parse_esc : Parser → ℕ → Parser × MessageId
parse_esc p ch =
    if is_c0_or_del ch
    then broken p
    else if ch == b'['
    then go Mode.csi (reset_params p)
    else if ch == b']'
    then go Mode.osc (record p { osc_code = 0; osc_buf = []; osc_had_semi = false })
    else if ch == b'O'
    then go Mode.ss3 p
    else if ch == b'('
    then (record p { params = record p.params { intermediate = b'(' } }, MessageId.continue_)
    else if p.params.intermediate == b'('
    then finish_seq (to_ground (record p { params = record p.params { intermediate = 0 } }))
        (dispatch_charset ch)
    else if not (p.params.intermediate == 0)
    then broken (record p { params = record p.params { intermediate = 0 } })
    else finish_seq (to_ground p) (dispatch_esc ch)

-- The character classes of `_classify_csi_char`.
pub data CsiCharKind : Type 0 where
  control digit semicolon private_marker intermediate final invalid : CsiCharKind

unfoldable pub classify_csi_char : ℕ → CsiCharKind
classify_csi_char ch =
    if is_c0_or_del ch
    then CsiCharKind.control
    else if is_digit ch
    then CsiCharKind.digit
    else if ch == b';'
    then CsiCharKind.semicolon
    else if ch == b'?'
    then CsiCharKind.private_marker
    else if within 0x20 0x2f ch
    then CsiCharKind.intermediate
    else if within 0x40 0x7e ch
    then CsiCharKind.final
    else CsiCharKind.invalid

-- `static_cast<short>(_current_param * 10 + (ch - '0'))`, on the pattern.
abbrev pub push_digit : ℕ → ℕ → ℕ
push_digit param ch = (param * 10 + (ch - b'0')) % 65536

unfoldable pub parse_csi_kind : CsiCharKind → Parser → ℕ → Parser × MessageId
parse_csi_kind CsiCharKind.control p ch = broken (reset_params p)
parse_csi_kind CsiCharKind.invalid p ch = broken (reset_params p)
parse_csi_kind CsiCharKind.digit p ch = (
  record p { current_param = push_digit p.current_param ch; has_param = true },
  MessageId.continue_,
)
parse_csi_kind CsiCharKind.semicolon p ch = (add_param p, MessageId.continue_)
parse_csi_kind CsiCharKind.private_marker p ch =
    (record p { params = record p.params { private_marker = true } }, MessageId.continue_)
parse_csi_kind CsiCharKind.intermediate p ch =
    (record p { params = record p.params { intermediate = ch } }, MessageId.continue_)
parse_csi_kind CsiCharKind.final p ch = finish_csi (add_param p) ch
