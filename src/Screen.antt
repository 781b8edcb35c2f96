-- ===== src/Screen.antt =====
-- libcorehost/screen_buffer.hpp: the rows of a screen buffer, kept as a ring, and the text that is
-- written into them. The children follow the writers; Lines and Shows are proofs.
pub mod Text
pub mod Fill
pub mod Reach
pub mod Scroll
pub mod Lines
pub mod Ways
pub mod Shows
pub mod Fits
mod Tests
use corehost.Base.{
  ℕ, zero, suc, ◌+◌, ◌-◌, ◌*◌, ◌%◌, min, Bool, true, false, not, ◌&&◌, ◌||◌, List, [], ◌∷◌, ◌++◌,
  ltb, leb, ◌==◌, if◌then◌else◌, length, get_or, set, take, drop, replicate,
}
use corehost.Row.{Row}
use corehost.Row.Write.{new_row, reset_fill, write_glyph, clear_cell, text_attribute}

-- `columns` and `lines` are size.X and size.Y, which are at least 1. The viewport, which is a class of
-- its own, is an argument where it is used.
pub record Screen : Type 0 where
  pub columns : ℕ
  pub lines : ℕ
  pub rows : List Row
  pub row_origin : ℕ

abbrev pub absent_row : Row
absent_row = new_row 0 7

-- _ensure_rows.
unfoldable pub ensure_rows : Screen → Screen
ensure_rows s = record s { rows = replicate s.lines (new_row s.columns 7); row_origin = 0 }

unfoldable pub new_screen : ℕ → ℕ → Screen
new_screen columns lines =
    ensure_rows (record { columns = columns; lines = lines; rows = []; row_origin = 0 })

unfoldable pub physical_row_index : Screen → ℕ → ℕ
physical_row_index s y = if length s.rows == 0 then 0 else (s.row_origin + y) % length s.rows

-- The row of line y; an index without a row is undefined in the source.
unfoldable pub row : Screen → ℕ → Row
row s y = get_or s.rows (physical_row_index s y) absent_row

-- The row of line y replaced by what is made of it.
unfoldable pub with_row : ℕ → Row → Screen → Screen
with_row y r s = record s { rows = set s.rows (physical_row_index s y) r }

-- A coordinate below 0 is no number here: the guard of the callers.
abbrev pub valid : Screen → ℕ → ℕ → Bool
valid s x y = ltb x s.columns && ltb y s.lines

unfoldable pub write_cell : ℕ → ℕ → List ℕ → ℕ → ℕ → Screen → Screen
write_cell x y text columns attr s =
    let fitted = if ltb columns 1 then 1 else if ltb 2 columns then 2 else columns in
    if not (valid s x y) || (length text == 0)
    then s
    else with_row y (write_glyph x text fitted (text_attribute attr) (row s y)) s

unfoldable pub clear_at : ℕ → ℕ → ℕ → Screen → Screen
clear_at x y attr s =
    if not (valid s x y) then s else with_row y (clear_cell x (text_attribute attr) (row s y)) s

-- std::rotate, the element at `n` first.
abbrev pub rotate : ℕ → List Row → List Row
rotate n rows = drop n rows ++ take n rows

unfoldable pub linearize_rows : Screen → Screen
linearize_rows s =
    if (s.row_origin == 0) || (length s.rows == 0)
    then s
    else record s { rows = rotate s.row_origin s.rows; row_origin = 0 }

unfoldable pub fill_row : ℕ → ℕ → ℕ → Screen → Screen
fill_row y cp attr s = with_row y (reset_fill s.columns cp (text_attribute attr) (row s y)) s

-- `n` lines from y on.
unfoldable pub fill_rows : ℕ → ℕ → ℕ → ℕ → Screen → Screen
fill_rows zero y cp attr s = s
fill_rows (suc n) y cp attr s = fill_rows n (suc y) cp attr (fill_row y cp attr s)

unfoldable pub clear : ℕ → Screen → Screen
clear attr s = record s {
  rows = replicate (length s.rows) (new_row s.columns attr);
  row_origin = 0;
}

-- The first way of scroll: all lines by `count` at most, up or down.
unfoldable pub scroll_all_up : ℕ → ℕ → ℕ → Screen → Screen
scroll_all_up distance cp attr s =
    let height = s.lines in
    let count = min distance height in
    let moved = record s { row_origin = (s.row_origin + count) % height } in
    if count == height
    then fill_rows height 0 cp attr (record s { row_origin = 0 })
    else fill_rows count (height - count) cp attr moved

unfoldable pub scroll_all_down : ℕ → ℕ → ℕ → Screen → Screen
scroll_all_down distance cp attr s =
    let height = s.lines in
    let count = min distance height in
    let moved = record s { row_origin = (s.row_origin + height - count) % height } in
    if count == height
    then fill_rows height 0 cp attr (record s { row_origin = 0 })
    else fill_rows count 0 cp attr moved
