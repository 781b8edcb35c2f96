-- ===== src/Cursor/Tests.antt =====
-- The theorems on the cursor at a line that starts behind a prompt of four columns.
use corehost.Base.{true, false, ◌≡◌, refl, arith, [], ◌∷◌}
use corehost.Base.Int.{pos, ◌<ℤ◌, ◌+ℤ◌}
use corehost.Cursor.{Cursor}
use corehost.Cursor.Echo.{echo, echo-erase, erase_after_return}

abbrev prompt : Cursor
prompt = record {
  cursor = record { x = pos 6; y = pos 2 };
  cursor_valid = true;
  enter_pending_newline = false;
  enter_dest = record { x = pos 0; y = pos 20 };
  pending_inherit_cursor = false;
  input_column_start = pos 4;
  input_column_end = pos 6;
}

abbrev lost : Cursor
lost = record prompt { cursor_valid = false }

echo-erase_example : echo (b'l' ∷ b's' ∷ 0x08 ∷ 0x08 ∷ []) prompt ≡ prompt
unfolding ◌+ℤ◌
echo-erase_example =
    echo-erase (b'l' ∷ b's' ∷ []) prompt refl refl (omega arith) (omega arith) refl (omega arith)

erase_after_return_example :
    (echo (b'\r' ∷ 0x08 ∷ []) prompt).input_column_end
    <ℤ (echo (b'\r' ∷ 0x08 ∷ []) prompt).input_column_start
erase_after_return_example = erase_after_return prompt refl (omega arith) (omega arith)
