-- ===== src/Vt/Parser/Parse.antt =====
-- One step of a sequence by the mode, and `parse` over a range of code points.
use corehost.Base.{
  ℕ, suc, ◌+◌, ◌-◌, Bool, true, false, not, ◌&&◌, List, [], ◌∷◌, ◌++◌, Option, none, some, ltb,
  ◌==◌, within, length, take, drop, if◌then◌else◌,
}
use corehost.Vt.Message.{MessageId, Payload, Message, ParseResult, is_continue}
use corehost.Vt.Sgr.{no_change}
use corehost.Vt.Osc.{is_digit}
use corehost.Vt.Parser.{
  Mode, Parser, is_c0_or_del, broken, go, finish_osc, parse_esc, classify_csi_char, parse_csi_kind,
  finish_seq, to_ground, push_digit,
}
use corehost.Vt.Csi.Dispatch.{dispatch_ss3}

abbrev pub parse_csi : Parser → ℕ → Parser × MessageId
parse_csi p ch = parse_csi_kind (classify_csi_char ch) p ch

unfoldable pub parse_ss3 : Parser → ℕ → Parser × MessageId
parse_ss3 p ch =
    if is_c0_or_del ch
    then broken p
    else if within 0x40 0x7e ch
    then finish_seq (to_ground p) (dispatch_ss3 ch)
    else broken p

abbrev osc_buf_size : ℕ
osc_buf_size = 32

unfoldable pub parse_osc_text : Parser → ℕ → Parser × MessageId
parse_osc_text p ch =
    if not p.osc_had_semi
    then (if is_digit ch
        then (record p { osc_code = push_digit p.osc_code ch }, MessageId.continue_)
        else if ch == b';'
        then (record p { osc_had_semi = true }, MessageId.continue_)
        else (p, MessageId.continue_))
    else if not (p.osc_code == 0)
        && not (p.osc_code == 2)
        && ltb (length p.osc_buf) (osc_buf_size - 1)
        && ltb ch 0x80
    then (record p { osc_buf = p.osc_buf ++ ch ∷ [] }, MessageId.continue_)
    else (p, MessageId.continue_)

unfoldable pub parse_osc : Parser → ℕ → Parser × MessageId
parse_osc p ch =
    if is_c0_or_del ch
    then (if ch == 0x07
        then finish_osc p
        else if ch == 0x1b
        then go Mode.osc_st p
        else broken (record p { osc_code = 0; osc_buf = []; osc_had_semi = false }))
    else parse_osc_text p ch

unfoldable pub parse_osc_st : Parser → ℕ → Parser × MessageId
parse_osc_st p ch =
    if ch == b'\\' then finish_osc p else parse_esc (record p { mode = Mode.esc }) ch

-- The switch of `_parse_sequence_char`.
unfoldable pub step_in : Mode → Parser → ℕ → Option (Parser × MessageId)
step_in Mode.ground p ch = none
step_in Mode.esc p ch = some (parse_esc p ch)
step_in Mode.csi p ch = some (parse_csi p ch)
step_in Mode.osc p ch = some (parse_osc p ch)
step_in Mode.osc_st p ch = some (parse_osc_st p ch)
step_in Mode.ss3 p ch = some (parse_ss3 p ch)

-- `_parse_sequence_char`: the code point is kept in `_raw` before it is looked at.
unfoldable pub step : Parser → ℕ → Option (Parser × MessageId)
step p ch = step_in p.mode (record p { raw = p.raw ++ ch ∷ [] }) ch

-- The character classes of ground.
pub data GroundCharKind : Type 0 where
  printable escape carriage_return line_feed tab nul backspace sub del other_control :
      GroundCharKind

unfoldable pub classify_ground_char : ℕ → GroundCharKind
classify_ground_char ch =
    if not (is_c0_or_del ch)
    then GroundCharKind.printable
    else if ch == 0x00
    then GroundCharKind.nul
    else if ch == 0x08
    then GroundCharKind.backspace
    else if ch == 0x09
    then GroundCharKind.tab
    else if ch == 0x0a
    then GroundCharKind.line_feed
    else if ch == 0x0d
    then GroundCharKind.carriage_return
    else if ch == 0x1a
    then GroundCharKind.sub
    else if ch == 0x1b
    then GroundCharKind.escape
    else if ch == 0x7f
    then GroundCharKind.del
    else GroundCharKind.other_control

-- A control that is delivered as a text of one code point.
abbrev single : Parser → ℕ → ℕ → Parser
single p ch modifier = record p {
  payload = Payload.text (ch ∷ []);
  key_modifier = modifier;
  ground_control_char = ch;
}

-- What each class gives: ESC opens a sequence; any other control is a message of its own.
unfoldable pub control_message : GroundCharKind → Parser → ℕ → Option (Parser × MessageId)
control_message GroundCharKind.printable p ch = none
control_message GroundCharKind.escape p ch = some (
  record p { raw = p.raw ++ ch ∷ []; seq_start = length p.raw; mode = Mode.esc },
  MessageId.continue_,
)
control_message GroundCharKind.carriage_return p ch =
    some (record p { payload = Payload.text [] }, MessageId.carriage_return)
control_message GroundCharKind.line_feed p ch =
    some (record p { payload = Payload.text [] }, MessageId.line_feed)
control_message GroundCharKind.tab p ch =
    some (record p { payload = Payload.count 1 }, MessageId.cursor_forward_tab)
control_message GroundCharKind.nul p ch = some (single p ch p.key_modifier, MessageId.char_nul)
control_message GroundCharKind.backspace p ch = some (single p ch 5, MessageId.char_del)
control_message GroundCharKind.del p ch = some (single p ch p.key_modifier, MessageId.char_del)
control_message GroundCharKind.sub p ch = some (single p ch p.key_modifier, MessageId.char_sub)
control_message GroundCharKind.other_control p ch =
    some (single p ch p.key_modifier, MessageId.text)

-- `_parse_ground_control`.
unfoldable pub parse_ground_control : Parser → ℕ → Option (Parser × MessageId)
parse_ground_control p ch = control_message (classify_ground_char ch) p ch

-- The loop of `parse`, from index `i` on; the number is what has been consumed.
unfoldable pub scan : ℕ → List ℕ → Parser → Option (Parser × MessageId × ℕ)
scan i [] p = some (p, MessageId.continue_, i)
scan i (ch ∷ cs) p = elim (step p ch) [
  | none ↦ none
  | some (p', id) ↦ elim (is_continue id) [
    | true ↦ scan (i + 1) cs p'
    | false ↦ some (p', id, i + 1)
  ]
]

abbrev pub starts_escape : List ℕ → Bool
starts_escape [] = false
starts_escape (c ∷ cs) = c == 0x1b

-- `_raw_sequence()`: from `_seq_start` on, if an ESC stands there.
unfoldable pub raw_sequence : Parser → List ℕ
raw_sequence p = let s = drop p.seq_start p.raw in if starts_escape s then s else []

abbrev pub no_message : Message
no_message = record { payload = Payload.sgr no_change; key_modifier = 1 }

-- `_make_result`.
unfoldable pub make_result : Parser → MessageId → ℕ → ParseResult
make_result p id consumed =
    if is_continue id
    then record { id = id; consumed = consumed; raw_sequence = []; message = no_message }
    else record {
      id = id;
      consumed = consumed;
      raw_sequence = raw_sequence p;
      message = record { payload = p.payload; key_modifier = p.key_modifier };
    }

-- How many code points stand before the first control.
unfoldable pub text_run : List ℕ → ℕ
text_run [] = 0
text_run (c ∷ cs) = let rest = text_run cs in if is_c0_or_del c then 0 else suc rest

abbrev pub Parsed : Type 0
Parsed = Parser × ParseResult

unfoldable pub scan_result : Option (Parser × MessageId × ℕ) → Option Parsed
scan_result none = none
scan_result (some (p, id, consumed)) = some (p, make_result p id consumed)

-- From ground: a run of text, or a control and then the loop.
unfoldable pub parse_ground : List ℕ → Parser → Option Parsed
parse_ground [] p = some (p, make_result p MessageId.continue_ 0)
parse_ground (ch ∷ cs) p =
    let run = text_run (ch ∷ cs) in
    let with_text = record p { payload = Payload.text (take run (ch ∷ cs)) } in
    if run == 0
    then elim (parse_ground_control p ch) [
      | none ↦ none
      | some (p', id) ↦ elim (is_continue id) [
        | true ↦ scan_result (scan 1 cs p')
        | false ↦ some (p', make_result p' id 1)
      ]
    ]
    else some (with_text, make_result with_text MessageId.continue_text run)

unfoldable pub parse_in : Mode → List ℕ → Parser → Option Parsed
parse_in Mode.ground input p = parse_ground input p
parse_in _ input p = scan_result (scan 0 input p)

-- `parse`; on an empty range the result is the default one, and nothing changes.
unfoldable pub parse : List ℕ → Parser → Option Parsed
parse input p = parse_in p.mode input p

-- `reset`, which the caller makes after each message.
unfoldable pub reset : Parser → Parser
reset p = record p {
  payload = Payload.sgr no_change;
  key_modifier = 1;
  raw = [];
  seq_start = 0;
  mode = Mode.ground;
}

unfoldable pub in_ground : Parser → Bool
in_ground p = elim p.mode [ Mode.ground ↦ true | _ ↦ false ]
