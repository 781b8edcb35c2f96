-- ===== src/Screen/Fill.antt =====
-- libcorehost/screen_buffer.hpp: fill_char and fill_attr, which go on from line to line.
use corehost.Base.{ℕ, zero, suc, ◌+◌, ◌-◌, not, [], ◌∷◌, ltb, ◌==◌, if◌then◌else◌}
use corehost.Row.{Row, attr_at, default_attr}
use corehost.Row.Write.{write_glyph, clear_cell, fill_attrs, text_attribute}
use corehost.Screen.{Screen, row, with_row, valid}

-- fill_result, whose two numbers are always the same, with the buffer.
pub record FillResult : Type 0 where
  pub length_read : ℕ
  pub screen : Screen

-- The two loops of fill_char over the columns of a line.
unfoldable pub clear_columns : ℕ → ℕ → Row → Row
clear_columns zero col r = r
clear_columns (suc n) col r = clear_columns n (suc col) (clear_cell col default_attr r)

unfoldable pub write_columns : ℕ → ℕ → ℕ → Row → Row
write_columns zero col cp r = r
write_columns (suc n) col cp r =
    write_columns n (suc col) cp (write_glyph col (cp ∷ []) 1 (attr_at r col) r)

abbrev pub char_line : ℕ → ℕ → ℕ → Row → Row
char_line cp col n r = write_columns n col cp (clear_columns n col r)

abbrev pub attr_line : ℕ → ℕ → ℕ → Row → Row
attr_line attr col n r = fill_attrs col (col + n) (text_attribute attr) r

-- The loop over the lines, `left` of them from y on: `line` is what is done to the columns of one.
unfoldable pub fill_lines : (ℕ → ℕ → Row → Row) → ℕ → ℕ → ℕ → ℕ → Screen → FillResult
fill_lines line zero x y count s = record { length_read = 0; screen = s }
fill_lines line (suc left) x y count s =
    let available = s.columns - x in
    let n = if ltb count available then count else available in
    let rest = fill_lines line left 0 (suc y) (count - n) (with_row y (line x n (row s y)) s) in
    if count == 0
    then record { length_read = 0; screen = s }
    else record { length_read = n + rest.length_read; screen = rest.screen }

unfoldable pub fill_char : ℕ → ℕ → ℕ → ℕ → Screen → FillResult
fill_char cp x y count s =
    let filled = fill_lines (char_line cp) (s.lines - y) x y count s in
    if not (valid s x y) then record { length_read = 0; screen = s } else filled

unfoldable pub fill_attr : ℕ → ℕ → ℕ → ℕ → Screen → FillResult
fill_attr attr x y count s =
    let filled = fill_lines (attr_line attr) (s.lines - y) x y count s in
    if not (valid s x y) then record { length_read = 0; screen = s } else filled
