-- ===== src/Vt/Csi/Dispatch.antt =====
-- The rest of `_dispatch_csi`: editing, modes, reports, and the chain of all tables.
use corehost.Base.{ℕ, none, some, ltb, ◌==◌, take, if◌then◌else◌}
use corehost.Vt.Message.{MessageId, Payload, clamp}
use corehost.Vt.Sgr.{sgr_loop, no_change}
use corehost.Vt.Csi.{
  CsiParams, Answer, answer, unknown, get_param, count_param, csi_cursor, csi_position, mode_set,
  mode_reset, tilde_key, resize_answer, cpr_answer, win32_key,
}

-- Scrolling and changes of the text, which take a count.
unfoldable pub csi_edit : CsiParams → ℕ → Answer → Answer
unfolding count_param clamp
csi_edit c t other =
    let counted = λ (id : MessageId). answer id (Payload.count (clamp (count_param c))) in
    if t == b'S'
    then counted MessageId.scroll_up
    else if t == b'T'
    then counted MessageId.scroll_down
    else if t == b'@'
    then counted MessageId.insert_characters
    else if t == b'P'
    then counted MessageId.delete_characters
    else if t == b'X'
    then counted MessageId.erase_characters
    else if t == b'L'
    then counted MessageId.insert_lines
    else if t == b'M'
    then counted MessageId.delete_lines
    else if t == b'I'
    then counted MessageId.cursor_forward_tab
    else if t == b'Z'
    then counted MessageId.cursor_backward_tab
    else other

unfoldable pub csi_screen : CsiParams → Payload → ℕ → Answer → Answer
csi_screen c old t other =
    if t == b'h'
    then answer (if c.private_marker then mode_set (get_param c 0 0) else MessageId.continue_) old
    else if t == b'l'
    then answer (if c.private_marker then mode_reset (get_param c 0 0) else MessageId.continue_) old
    else if t == b't'
    then resize_answer c old
    else if t == b'J'
    then answer MessageId.erase_in_display (Payload.erase_mode (clamp (get_param c 0 0)))
    else if t == b'K'
    then answer MessageId.erase_in_line (Payload.erase_mode (clamp (get_param c 0 0)))
    else if t == b'r'
    then answer MessageId.set_scrolling_region
        (Payload.scroll_region (clamp (get_param c 0 1)) (clamp (get_param c 1 0)))
    else other

abbrev tab_clear : ℕ → MessageId
tab_clear v =
    if v == 0
    then MessageId.tab_clear_current
    else if v == 3
    then MessageId.tab_clear_all
    else MessageId.continue_

unfoldable pub sgr_answer : CsiParams → Payload → Answer
unfolding sgr_loop
sgr_answer c old = elim (sgr_loop (take c.param_index c.params) 0 no_change) [
  | none ↦ unknown old
  | some s ↦ answer MessageId.sgr (Payload.sgr s)
]

unfoldable pub csi_style : CsiParams → Payload → ℕ → Answer → Answer
unfolding get_param clamp sgr_answer
csi_style c old t other =
    if t == b'm'
    then sgr_answer c old
    else if t == b'q'
    then (if c.intermediate == b' '
        then answer MessageId.set_cursor_shape (Payload.cursor_shape (clamp (get_param c 0 0)))
        else unknown old)
    else if t == b'g'
    then answer (tab_clear (get_param c 0 0)) old
    else if t == b'p'
    then answer (if c.intermediate == b'!' then MessageId.soft_reset else MessageId.continue_) old
    else other

unfoldable pub csi_report : CsiParams → Payload → ℕ → Answer → Answer
csi_report c old t other =
    if t == b'n'
    then answer
        (if get_param c 0 0 == 6 then MessageId.report_cursor_position else MessageId.continue_) old
    else if t == b'c'
    then answer MessageId.device_attributes old
    else if t == b'R'
    then (if c.private_marker then unknown old else cpr_answer c)
    else if t == b'_'
    then answer MessageId.win32_input_key (Payload.win32_key (win32_key c))
    else if t == b'~'
    then answer (tilde_key (get_param c 0 0)) old
    else other

-- The switch of `_dispatch_csi` behind the test for overflow.
unfoldable pub csi_switch : CsiParams → Payload → ℕ → Answer
unfolding get_param clamp csi_cursor csi_position csi_edit csi_screen csi_style csi_report mode_set
    mode_reset resize_answer cpr_answer win32_key tilde_key
csi_switch c old t = csi_cursor c old t (
    csi_position c old t
      (csi_edit c t (csi_screen c old t (csi_style c old t (csi_report c old t (unknown old))))))

-- `m.key_modifier` is written before the switch.
unfoldable pub csi_modifier : CsiParams → ℕ
unfolding get_param
csi_modifier c = if ltb 1 c.param_index then get_param c 1 1 else 1

unfoldable pub dispatch_esc : ℕ → MessageId
dispatch_esc t =
    if t == b'M'
    then MessageId.reverse_index
    else if t == b'7'
    then MessageId.save_cursor
    else if t == b'8'
    then MessageId.restore_cursor
    else if t == b'H'
    then MessageId.horizontal_tab_set
    else if t == b'='
    then MessageId.keypad_app_mode
    else if t == b'>'
    then MessageId.keypad_numeric_mode
    else MessageId.continue_

unfoldable pub dispatch_ss3 : ℕ → MessageId
dispatch_ss3 t =
    if t == b'A'
    then MessageId.key_up
    else if t == b'B'
    then MessageId.key_down
    else if t == b'C'
    then MessageId.key_right
    else if t == b'D'
    then MessageId.key_left
    else if t == b'H'
    then MessageId.key_home
    else if t == b'F'
    then MessageId.key_end
    else if t == b'P'
    then MessageId.key_f1
    else if t == b'Q'
    then MessageId.key_f2
    else if t == b'R'
    then MessageId.key_f3
    else if t == b'S'
    then MessageId.key_f4
    else MessageId.continue_

unfoldable pub dispatch_charset : ℕ → MessageId
dispatch_charset t =
    if t == b'0'
    then MessageId.designate_charset_line_drawing
    else if t == b'B'
    then MessageId.designate_charset_ascii
    else MessageId.continue_
