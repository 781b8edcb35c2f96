-- ===== src/Cursor.antt =====
-- libcorehost/terminal_cursor_state.hpp: where the host believes the terminal's cursor to be, the
-- columns of the line that is being typed, and the newline that an Enter still owes. A `SHORT` is a
-- ℤ that every store wraps by `to_short`.
pub mod Guards
pub mod Echo
mod Tests
use corehost.Base.{ℕ, Bool, true, false, not, ◌||◌, ◌==◌, leb, if◌then◌else◌}
use corehost.Base.Int.{ℤ, pos, ◌+ℤ◌, ◌-ℤ◌, ltb_ℤ}
use corehost.Base.Short.{to_short}
use corehost.Viewport.{Coord}

pub record Cursor : Type 0 where
  pub cursor : Coord
  pub cursor_valid : Bool
  pub enter_pending_newline : Bool
  pub enter_dest : Coord
  pub pending_inherit_cursor : Bool
  pub input_column_start : ℤ
  pub input_column_end : ℤ

abbrev pub at_x : Cursor → ℤ → Cursor
at_x s x = record s { cursor = record s.cursor { x = x } }

abbrev pub with_end : Cursor → ℤ → Cursor
with_end s e = record s { input_column_end = e }

-- `++value` and `--value` on a SHORT.
abbrev pub increment : ℤ → ℤ
increment v = to_short (v +ℤ pos 1)

abbrev pub decrement : ℤ → ℤ
decrement v = to_short (v -ℤ pos 1)

unfoldable pub invalidate : Cursor → Cursor
invalidate s = record s { cursor_valid = false }

unfoldable pub set_cursor : Coord → Cursor → Cursor
set_cursor c s = record s { cursor = c; cursor_valid = true }

-- `if (!_cursor_valid) return;` before a change.
abbrev pub if_valid : Cursor → Cursor → Cursor
if_valid s changed = if not s.cursor_valid then s else changed

-- The cursor one column on, and the end of the input with it.
abbrev forward : Cursor → Cursor
forward s =
    let x = increment s.cursor.x in
    if ltb_ℤ s.input_column_end x then with_end (at_x s x) x else at_x s x

abbrev back : Cursor → Cursor
back s = if ltb_ℤ s.input_column_start s.cursor.x then at_x s (decrement s.cursor.x) else s

abbrev next_line : Cursor → Cursor
next_line s = record s { cursor = record { x = pos 0; y = increment s.cursor.y } }

unfoldable pub advance : Cursor → Cursor
advance s = if_valid s (forward s)

unfoldable pub retreat : Cursor → Cursor
retreat s = if_valid s (back s)

unfoldable pub crlf : Cursor → Cursor
crlf s = if_valid s (next_line s)

unfoldable pub carriage_return : Cursor → Cursor
carriage_return s = if s.cursor_valid then at_x s (pos 0) else s

unfoldable pub line_feed : Cursor → Cursor
line_feed s = if_valid s (next_line s)

unfoldable pub set_cursor_x : ℤ → Cursor → Cursor
set_cursor_x x s = if s.cursor_valid then at_x s x else s

unfoldable pub column_for_offset : Cursor → ℕ → ℤ
column_for_offset s offset = to_short (s.input_column_start +ℤ pos offset)

unfoldable pub set_cursor_x_unchecked : ℤ → Cursor → Cursor
set_cursor_x_unchecked x s = at_x s x

unfoldable pub set_bounds_end_for_length : ℕ → Cursor → Cursor
set_bounds_end_for_length length s = with_end s (to_short (s.input_column_start +ℤ pos length))

unfoldable pub set_input_column_start : ℤ → Cursor → Cursor
set_input_column_start x s = record s { input_column_start = x }

unfoldable pub set_input_column_end : ℤ → Cursor → Cursor
set_input_column_end x s = record s { input_column_end = x }

unfoldable pub set_enter_newline_pending : Bool → Cursor → Cursor
set_enter_newline_pending pending s = record s { enter_pending_newline = pending }

unfoldable pub reset_enter_newline : Cursor → Cursor
reset_enter_newline s = record s { enter_pending_newline = false }

unfoldable pub set_pending_inherit_cursor : Cursor → Cursor
set_pending_inherit_cursor s = record s { pending_inherit_cursor = true }

unfoldable pub reset_bounds : ℤ → Cursor → Cursor
reset_bounds x s = record s { input_column_start = x; input_column_end = x }

unfoldable pub extend_bounds : Cursor → Cursor
extend_bounds s = with_end s (increment s.input_column_end)

unfoldable pub retract_bounds : Cursor → Cursor
retract_bounds s =
    if ltb_ℤ s.input_column_start s.input_column_end
    then with_end s (decrement s.input_column_end)
    else s

-- The result is the code's answer.
unfoldable pub consume_enter_newline : Cursor → Cursor × Bool
consume_enter_newline s =
    if not s.enter_pending_newline
    then (s, false)
    else (record s { enter_pending_newline = false }, true)

unfoldable pub shift_enter_dest : ℤ → ℤ → Cursor → Cursor
shift_enter_dest dy rows s =
    let y = s.enter_dest.y +ℤ dy in
    record s {
      enter_dest = record s.enter_dest {
        y = to_short (if ltb_ℤ y (pos 0) then pos 0 else if ltb_ℤ y rows then y else rows -ℤ pos 1);
      };
    }

unfoldable pub mark_enter_newline_at_cursor : Cursor → Cursor
mark_enter_newline_at_cursor s =
    if_valid s (record s { enter_dest = s.cursor; enter_pending_newline = true })

unfoldable pub finish_inherit_cursor : Coord → Cursor → Cursor
unfolding set_cursor reset_bounds
finish_inherit_cursor c s = record (reset_bounds c.x (set_cursor c s)) {
  pending_inherit_cursor = false;
}

-- A backspace in the echo: one column back, and the input ends there.
abbrev pub erased : Cursor → Cursor
erased s =
    let b = back s in if ltb_ℤ b.cursor.x b.input_column_end then with_end b b.cursor.x else b

unfoldable pub apply_echo_byte : ℕ → Cursor → Cursor
apply_echo_byte byte s = if_valid s (
    if byte == b'\r'
    then at_x s (pos 0)
    else if byte == b'\n'
    then next_line s
    else if byte == 0x08 || byte == 0x7F
    then erased s
    else if leb 0x20 byte
    then forward s
    else s)
