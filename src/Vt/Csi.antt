-- ===== src/Vt/Csi.antt =====
-- `_dispatch_csi`, `_dispatch_esc`, `_dispatch_ss3` and `_dispatch_charset`. The switch over the
-- final character is a chain of tables, each of which passes on what it does not know.
pub mod Dispatch
use corehost.Base.{
  ℕ, zero, suc, ◌+◌, Bool, true, false, not, ◌&&◌, List, [], ◌∷◌, Option, none, some, ltb, ◌==◌,
  take, get_or, if◌then◌else◌,
}
use corehost.Vt.Message.{MessageId, Payload, Win32Key, is_positive, clamp, to_unsigned_long}
use corehost.Vt.Sgr.{sgr_loop, no_change}

-- What the dispatch reads of the parser: `_params` with `_param_index`, and three marks.
pub record CsiParams : Type 0 where
  pub params : List ℕ
  pub param_index : ℕ
  pub private_marker : Bool
  pub intermediate : ℕ
  pub csi_overflow : Bool

-- The message id that a dispatch returns, and the payload it leaves in `_msg`.
pub record Answer : Type 0 where
  pub id : MessageId
  pub payload : Payload

unfoldable pub get_param : CsiParams → ℕ → ℕ → ℕ
get_param c i d = if ltb i c.param_index then get_or c.params i 0 else d

unfoldable pub get_positive_param : CsiParams → ℕ → ℕ → ℕ
unfolding get_param clamp
get_positive_param c i d = let value = get_param c i d in if value == 0 then d else clamp value

-- `n`: the first parameter, 1 where it is absent or 0.
unfoldable pub count_param : CsiParams → ℕ
unfolding get_param
count_param c =
    let n = if ltb 0 c.param_index then get_param c 0 1 else 1 in if n == 0 then 1 else n

abbrev only_if : Bool → Answer → Answer → Answer
only_if b yes_answer no_answer = if b then yes_answer else no_answer

abbrev pub answer : MessageId → Payload → Answer
answer id payload = record { id = id; payload = payload }

abbrev pub unknown : Payload → Answer
unknown payload = answer MessageId.continue_ payload

-- Cursor movement.
unfoldable pub csi_cursor : CsiParams → Payload → ℕ → Answer → Answer
unfolding count_param get_positive_param clamp
csi_cursor c old t other =
    let plain = not c.private_marker in
    let counted = λ (id : MessageId).
      (if plain then answer id (Payload.count (clamp (count_param c))) else unknown old) in
    if t == b'A'
    then counted MessageId.cursor_up
    else if t == b'B'
    then counted MessageId.cursor_down
    else if t == b'C'
    then counted MessageId.cursor_forward
    else if t == b'D'
    then counted MessageId.cursor_backward
    else if t == b'E'
    then counted MessageId.cursor_next_line
    else if t == b'F'
    then counted MessageId.cursor_prev_line
    else other

unfoldable pub csi_position : CsiParams → Payload → ℕ → Answer → Answer
unfolding get_positive_param
csi_position c old t other =
    let plain = not c.private_marker in
    let row = get_positive_param c 0 1 in
    let col = get_positive_param c 1 1 in
    let column_only = get_positive_param c 0 1 in
    if t == b'G'
    then only_if plain (answer MessageId.cursor_horiz_absolute (Payload.position_col column_only))
        (unknown old)
    else if t == b'd'
    then only_if plain (answer MessageId.cursor_vert_absolute (Payload.position_row row))
        (unknown old)
    else if t == b'H'
    then only_if plain (answer MessageId.cursor_position (Payload.position row col)) (unknown old)
    else if t == b'f'
    then only_if plain (answer MessageId.cursor_position (Payload.position row col)) (unknown old)
    else if t == b's'
    then only_if plain (answer MessageId.ansi_save_cursor old) (unknown old)
    else if t == b'u'
    then only_if plain (answer MessageId.ansi_restore_cursor old) (unknown old)
    else other

-- DEC private modes, set by `h` and reset by `l`.
unfoldable pub mode_set : ℕ → MessageId
mode_set v =
    if v == 12
    then MessageId.cursor_enable_blinking
    else if v == 25
    then MessageId.cursor_show
    else if v == 1
    then MessageId.cursor_keys_app_mode
    else if v == 3
    then MessageId.set_columns_132
    else if v == 1049
    then MessageId.use_alternate_buffer
    else MessageId.continue_

unfoldable pub mode_reset : ℕ → MessageId
mode_reset v =
    if v == 12
    then MessageId.cursor_disable_blinking
    else if v == 25
    then MessageId.cursor_hide
    else if v == 1
    then MessageId.cursor_keys_normal_mode
    else if v == 3
    then MessageId.set_columns_80
    else if v == 1049
    then MessageId.use_main_buffer
    else MessageId.continue_

-- The message of a key that ends in `~`.
unfoldable pub tilde_key : ℕ → MessageId
tilde_key v =
    if v == 2
    then MessageId.key_insert
    else if v == 3
    then MessageId.key_delete
    else if v == 5
    then MessageId.key_page_up
    else if v == 6
    then MessageId.key_page_down
    else if v == 15
    then MessageId.key_f5
    else if v == 17
    then MessageId.key_f6
    else if v == 18
    then MessageId.key_f7
    else if v == 19
    then MessageId.key_f8
    else if v == 20
    then MessageId.key_f9
    else if v == 21
    then MessageId.key_f10
    else if v == 23
    then MessageId.key_f11
    else if v == 24
    then MessageId.key_f12
    else MessageId.continue_

-- Two reports that count only with positive numbers.
unfoldable pub resize_answer : CsiParams → Payload → Answer
unfolding get_param clamp
resize_answer c old =
    let rows = clamp (get_param c 1 0) in
    let cols = clamp (get_param c 2 0) in
    if get_param c 0 0 == 8
    then answer
        (if is_positive rows && is_positive cols
          then MessageId.resize_window
          else MessageId.continue_)
        (Payload.resize rows cols)
    else unknown old

unfoldable pub cpr_answer : CsiParams → Answer
unfolding get_param clamp
cpr_answer c =
    let row = clamp (get_param c 0 1) in
    let col = clamp (get_param c 1 1) in
    answer
      (if is_positive row && is_positive col then MessageId.cpr_response else MessageId.continue_)
      (Payload.cpr row col)

unfoldable pub win32_key : CsiParams → Win32Key
unfolding get_param clamp to_unsigned_long
win32_key c =
    let repeat = clamp (get_param c 5 1) in
    record {
      vk = clamp (get_param c 0 0);
      sc = clamp (get_param c 1 0);
      uc = clamp (get_param c 2 0);
      is_down = not (get_param c 3 0 == 0);
      control_state = to_unsigned_long (clamp (get_param c 4 0));
      repeat_count = if repeat == 0 then 1 else repeat;
    }
