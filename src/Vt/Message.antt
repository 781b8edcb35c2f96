-- ===== src/Vt/Message.antt =====
-- The messages of the parser: vt_message_id, vt_message_payload and vt_parse_result.
-- A code point is a number; a `short` is its 16-bit pattern, negative from 32768 on.
use corehost.Base.{ℕ, ◌+◌, Bool, true, false, List, ltb, if◌then◌else◌}
use corehost.Vt.Sgr.{Sgr}

pub data MessageId : Type 0 where
  continue_text continue_ text unknown_sequence : MessageId
  set_window_title osc8_hyperlink : MessageId
  carriage_return line_feed reverse_index : MessageId
  cursor_up cursor_down cursor_forward cursor_backward cursor_next_line cursor_prev_line : MessageId
  cursor_forward_tab cursor_backward_tab cursor_vert_absolute cursor_horiz_absolute : MessageId
  cursor_position save_cursor restore_cursor ansi_save_cursor ansi_restore_cursor : MessageId
  set_cursor_shape cursor_enable_blinking cursor_disable_blinking cursor_show : MessageId
  cursor_hide cursor_keys_app_mode cursor_keys_normal_mode : MessageId
  horizontal_tab_set tab_clear_current tab_clear_all keypad_app_mode : MessageId
  keypad_numeric_mode designate_charset_line_drawing designate_charset_ascii : MessageId
  scroll_up scroll_down insert_characters delete_characters erase_characters : MessageId
  insert_lines delete_lines erase_in_display erase_in_line set_scrolling_region : MessageId
  use_alternate_buffer use_main_buffer set_columns_132 set_columns_80 resize_window : MessageId
  sgr set_palette_color soft_reset report_cursor_position device_attributes : MessageId
  cpr_response win32_input_key key_up key_down key_right key_left key_home key_end : MessageId
  key_insert key_delete key_page_up key_page_down key_f1 key_f2 key_f3 key_f4 : MessageId
  key_f5 key_f6 key_f7 key_f8 key_f9 key_f10 key_f11 key_f12 : MessageId
  key_ctrl_up key_ctrl_down key_ctrl_right key_ctrl_left : MessageId
  char_del char_sub char_esc char_nul : MessageId

-- `id == vt_message_id::continue_`.
abbrev pub is_continue : MessageId → Bool
is_continue MessageId.continue_ = true
is_continue _ = false

abbrev pub is_unknown : MessageId → Bool
is_unknown MessageId.unknown_sequence = true
is_unknown _ = false

pub record Win32Key : Type 0 where
  pub vk : ℕ
  pub sc : ℕ
  pub uc : ℕ
  pub is_down : Bool
  pub control_state : ℕ
  pub repeat_count : ℕ

-- The union, by the branch that was written last. CHA and VPA write one field of the position
-- branch, and what reads their messages reads that field only: they are branches of their own.
pub data Payload : Type 0 where
  text title : List ℕ → Payload
  count : ℕ → Payload
  position : ℕ → ℕ → Payload
  position_row position_col : ℕ → Payload
  erase_mode cursor_shape : ℕ → Payload
  scroll_region resize cpr : ℕ → ℕ → Payload
  palette : ℕ → ℕ → ℕ → ℕ → Payload
  sgr : Sgr → Payload
  win32_key : Win32Key → Payload

pub record Message : Type 0 where
  pub payload : Payload
  pub key_modifier : ℕ

pub record ParseResult : Type 0 where
  pub id : MessageId
  pub consumed : ℕ
  pub raw_sequence : List ℕ
  pub message : Message

-- short > 0.
abbrev pub is_positive : ℕ → Bool
is_positive v = elim (ltb 0 v) [ true ↦ ltb v 32768 | false ↦ false ]

-- `v > 32767 ? 32767 : v`, where a pattern from 32768 on is a negative number.
unfoldable pub clamp : ℕ → ℕ
clamp v = if ltb v 32768 then (if ltb 32767 v then 32767 else v) else v

-- static_cast<unsigned long> of a `short` extends its sign.
unfoldable pub to_unsigned_long : ℕ → ℕ
to_unsigned_long v = if ltb v 32768 then v else v + 4294901760
