-- ===== src/Screen/Text.antt =====
-- libcorehost/screen_buffer.hpp: write_text_row.
use corehost.Base.{
  ℕ, suc, ◌+◌, ◌-◌, Bool, true, false, ◌&&◌, ◌||◌, List, [], ◌∷◌, ◌++◌, ltb, ◌==◌, if◌then◌else◌,
  length, take, replicate,
}
use corehost.Base.Int.{pos, pos_part, clamp_ℤ}
use corehost.Base.Short.{to_short}
use corehost.Row.{Row, width}
use corehost.Row.Write.{text_attribute}
use corehost.Row.Run.{try_write_single_width_run, write_measured_run, to_u16}
use corehost.Viewport.{Coord, Viewport}
use corehost.Screen.{Screen, row, with_row}

-- What the loop has measured: the code points that fit, their columns, and their widths, which are
-- empty as long as all are single.
pub record Fit : Type 0 where
  pub consumed : ℕ
  pub cell_count : ℕ
  pub widths : List ℕ
  pub all_single : Bool

-- One code point of `columns` columns more.
unfoldable pub one_more : ℕ → Fit → Fit
one_more columns f =
    let before = if f.all_single then replicate f.consumed 1 else f.widths in
    let single = f.all_single && (columns == 1) in
    record {
      consumed = suc f.consumed;
      cell_count = to_u16 (f.cell_count + columns);
      widths = if single then f.widths else before ++ (columns ∷ []);
      all_single = single;
    }

-- The width of a code point, which another header measures, taken to be 1 or 2.
abbrev pub one_or_two : ℕ → ℕ
one_or_two w = if ltb w 1 then 1 else if ltb 2 w then 2 else w

-- The loop, for the text that is left.
unfoldable pub fit_text : (ℕ → ℕ) → ℕ → ℕ → List ℕ → Fit → Fit
fit_text measure x right [] f = f
fit_text measure x right (ch ∷ text) f =
    let columns = one_or_two (measure ch) in
    let rest = fit_text measure x right text (one_more columns f) in
    if ltb right (x + f.cell_count + columns - 1) then f else rest

abbrev pub nothing_fits : Fit
nothing_fits = record { consumed = 0; cell_count = 0; widths = []; all_single = true }

-- The three ways to write what fits into its row.
unfoldable pub write_fit : ℕ → List ℕ → ℕ → Fit → Row → Row
write_fit col run attr f r =
    let whole = (col == 0) && (f.cell_count == width r.cells) in
    let tried = try_write_single_width_run col run attr r in
    let ones = replicate f.consumed 1 in
    if f.all_single && whole
    then write_measured_run col run [] f.cell_count true attr r
    else if f.all_single
    then (if tried.0
        then tried.1
        else write_measured_run col run ones f.cell_count false attr tried.1)
    else write_measured_run col run f.widths f.cell_count false attr r

-- text_row_write_result, with the cursor and the buffer.
pub record TextRow : Type 0 where
  pub screen : Screen
  pub cursor : Coord
  pub consumed : ℕ
  pub row_end : Bool

-- write_text_row for a text and a cursor that the viewport's columns up to `right` hold.
unfoldable pub write_text_at : (ℕ → ℕ) → ℕ → ℕ → ℕ → List ℕ → ℕ → Screen → TextRow
write_text_at measure right x y text attr s =
    let f = fit_text measure x right text nothing_fits in
    let r = write_fit x (take f.consumed text) (text_attribute attr) f (row s y) in
    let x2 = x + f.cell_count in
    record {
      screen = if f.consumed == 0 then s else with_row y r s;
      cursor = record { x = to_short (pos x2); y = pos y };
      consumed = f.consumed;
      row_end = ltb right x2 || ltb f.consumed (length text);
    }

-- The cursor clamped into the viewport first; a text that is empty changes nothing.
unfoldable pub write_text_row : (ℕ → ℕ) → Viewport → Coord → List ℕ → ℕ → Screen → TextRow
write_text_row measure v cursor [] attr s = record {
  screen = s;
  cursor = cursor;
  consumed = 0;
  row_end = false;
}
write_text_row measure v cursor (ch ∷ text) attr s =
    let x = clamp_ℤ cursor.x v.rect.left v.rect.right in
    let y = clamp_ℤ cursor.y v.rect.top v.rect.bottom in
    write_text_at measure (pos_part v.rect.right) (pos_part x) (pos_part y) (ch ∷ text) attr s
