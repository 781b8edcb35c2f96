-- ===== src/Row/Run.antt =====
-- libcorehost/screen_buffer_row.hpp: a run of code points whose widths are known, and the cells of
-- the console API. A width that `widths` lacks stops a loop here; the source requires them all.
use corehost.Base.{
  ℕ, zero, suc, ◌+◌, ◌-◌, ◌%◌, Bool, true, false, not, ◌&&◌, ◌||◌, List, [], ◌∷◌, ◌++◌, Option,
  none, some, ltb, leb, ◌==◌, within, if◌then◌else◌, length, set, take, replicate, splice,
  store_range,
}
use corehost.Row.{
  Row, Cells, blank, or_flag, iota, width, col_offset, is_trailing, attr_at, materialize_filled,
  attr_range, shift_columns_from, minus16, blank_glyph_cut_at,
}
use corehost.Row.Write.{write_glyph, set_attr, text_attribute, CharInfo}

abbrev pub to_u16 : ℕ → ℕ
to_u16 n = n % 65536

-- The loop of try_write_single_width_run that looks for a glyph of another form.
unfoldable pub plain_columns : ℕ → ℕ → Cells → Bool
plain_columns zero cell c = true
plain_columns (suc n) cell c =
    let next = cell + 1 in
    not (is_trailing c cell)
    && not (ltb next (width c) && is_trailing c next)
    && (col_offset c next == col_offset c cell + 1)
    && ltb (col_offset c cell) (length c.text)
    && plain_columns n next c

-- Its loop that writes the code points where the columns say.
unfoldable pub store_chars : ℕ → List ℕ → Cells → Cells
store_chars cell [] c = c
store_chars cell (x ∷ text) c =
    store_chars (cell + 1) text (record c { text = set c.text (col_offset c cell) x })

-- The outcome, and the row, which is materialized in any case.
unfoldable pub try_write_single_width_run : ℕ → List ℕ → ℕ → Row → Bool × Row
try_write_single_width_run col text attr r =
    let m = materialize_filled r in
    let c = m.cells in
    let n = length text in
    let attributes = attr_range (width c) col (to_u16 (col + n)) attr m.attributes in
    if n == 0
    then (true, m)
    else if leb (width c) col || ltb (width c - col) n
    then (false, m)
    else if c.single_width_layout
    then (
      true,
      record { cells = record c { text = splice col n text c.text }; attributes = attributes },
    )
    else if plain_columns n col c
    then (true, record { cells = store_chars col text c; attributes = attributes })
    else (false, m)

-- The loops that write a code point's entries: its offset, then the flagged ones.
unfoldable pub store_run : ℕ → ℕ → List ℕ → List ℕ → List ℕ → List ℕ
store_run cell offset [] widths columns = columns
store_run cell offset (x ∷ text) [] columns = columns
store_run cell offset (x ∷ text) (w ∷ widths) columns =
    store_run (to_u16 (cell + w)) (to_u16 (offset + 1)) text widths
      (store_range (w - 1) (cell + 1) (or_flag offset) (set columns cell offset))

-- The tests that each code point has the columns of its width already.
unfoldable pub all_trailing : ℕ → ℕ → ℕ → Cells → Bool
all_trailing zero cell offset c = true
all_trailing (suc n) cell offset c =
    is_trailing c cell && (col_offset c cell == offset) && all_trailing n (suc cell) offset c

-- The column behind the run, where the layouts match.
unfoldable pub matching_end : ℕ → ℕ → List ℕ → List ℕ → Cells → Option ℕ
matching_end cell offset [] widths c = some cell
matching_end cell offset (x ∷ text) [] c = none
matching_end cell offset (x ∷ text) (w ∷ widths) c =
    if leb (width c) cell || is_trailing c cell || not (col_offset c cell == offset)
    then none
    else if (w == 0) || ltb (width c) (cell + w)
    then none
    else if not (all_trailing (w - 1) (cell + 1) offset c)
    then none
    else matching_end (to_u16 (cell + w)) (offset + 1) text widths c

abbrev pub is_at : Option ℕ → ℕ → Bool
is_at none n = false
is_at (some m) n = m == n

unfoldable pub matches_layout : ℕ → List ℕ → List ℕ → ℕ → Cells → Bool
matches_layout col text widths total c =
    let end = to_u16 (col + total) in
    let start = col_offset c col in
    not (
      c.filled || (length text == 0) || leb (width c) col || ltb (width c) end || is_trailing c col)
    && not (ltb (length c.text) (start + length text))
    && is_at (matching_end col start text widths c) end
    && (col_offset c end == start + length text)

unfoldable pub overwrite_matching : ℕ → List ℕ → ℕ → ℕ → Row → Row
overwrite_matching col text total attr r =
    let c = r.cells in
    record {
      cells = record c { text = splice (col_offset c col) (length text) text c.text };
      attributes = attr_range (width c) col (to_u16 (col + total)) attr r.attributes;
    }

-- The columns of a run in a row of single columns, with the suffix behind it.
unfoldable pub run_columns : ℕ → List ℕ → List ℕ → ℕ → ℕ → List ℕ → List ℕ
run_columns col text widths end row_width columns =
    let suffix = row_width + 1 - end in
    splice end suffix (iota suffix (col + length text))
      (store_run col col text widths (splice 0 col (iota col 0) columns))

unfoldable pub fits_run : ℕ → List ℕ → ℕ → Cells → Bool
fits_run col text total c =
    not ((length text == 0) || leb (width c) col || ltb (width c) (to_u16 (col + total)))

unfoldable pub write_filled : ℕ → List ℕ → List ℕ → ℕ → Bool → ℕ → Row → Row
write_filled col text widths total all_single attr r =
    let c = r.cells in
    let w = width c in
    let end = to_u16 (col + total) in
    record {
      cells = record c {
        text = replicate col c.fill_char ++ (text ++ replicate (w - end) c.fill_char);
        columns =
            if all_single
            then iota (length c.columns) 0
            else run_columns col text widths end w c.columns;
        filled = false;
        single_width_layout = all_single;
      };
      attributes =
          attr_range w col end attr
            (record r.attributes { uniform = true; uniform_attr = r.attributes.fill_attr });
    }

unfoldable pub write_single_layout : ℕ → List ℕ → List ℕ → ℕ → ℕ → Row → Row
write_single_layout col text widths total attr r =
    let c = r.cells in
    let w = width c in
    let end = to_u16 (col + total) in
    record {
      cells = record c {
        text = splice col total text c.text;
        columns = run_columns col text widths end w (iota (length c.columns) 0);
        single_width_layout = false;
      };
      attributes = attr_range w col end attr r.attributes;
    }

-- The way for a run that is the whole row.
unfoldable pub write_full : List ℕ → List ℕ → Bool → ℕ → Row → Row
write_full text widths all_single attr r =
    let c = r.cells in
    record {
      cells = record c {
        filled = false;
        text = text;
        columns =
            if all_single
            then c.columns
            else set (store_run 0 0 text widths c.columns) (width c) (to_u16 (length text));
        single_width_layout = all_single;
      };
      attributes = record r.attributes { uniform = true; uniform_attr = attr };
    }

unfoldable pub replace_run : ℕ → List ℕ → List ℕ → ℕ → Cells → Cells
replace_run col text widths end c =
    let old_start = col_offset c col in
    let old_end = col_offset c end in
    let old_len = old_end - old_start in
    let new_len = to_u16 (length text) in
    let moved =
      shift_columns_from end (minus16 new_len old_len)
        (record c { text = splice old_start old_len (take new_len text) c.text }) in
    let stored = store_run col old_start text widths moved.columns in
    record moved {
      columns = set stored (width c) (to_u16 (length moved.text));
      single_width_layout = false;
    }

unfoldable pub write_generic : ℕ → List ℕ → List ℕ → ℕ → ℕ → Row → Row
write_generic col text widths total attr r =
    let end = to_u16 (col + total) in
    let uncut = blank_glyph_cut_at end (blank_glyph_cut_at col r.cells) in
    record {
      cells = replace_run col text widths end uncut;
      attributes = attr_range (width r.cells) col end attr r.attributes;
    }

-- write_measured_run behind the ways for a filled and for a whole row.
unfoldable pub write_part : ℕ → List ℕ → List ℕ → ℕ → Bool → ℕ → Row → Row
write_part col text widths total true attr r =
    let tried = try_write_single_width_run col text attr r in
    if tried.0 then tried.1 else write_generic col text widths total attr tried.1
write_part col text widths total false attr r =
    let c = r.cells in
    if fits_run col text total c
      && (length text == length widths)
      && not (c.filled || not c.single_width_layout)
    then write_single_layout col text widths total attr r
    else if matches_layout col text widths total c
    then overwrite_matching col text total attr r
    else write_generic col text widths total attr r

unfoldable pub write_measured_run : ℕ → List ℕ → List ℕ → ℕ → Bool → ℕ → Row → Row
write_measured_run col text widths total all_single attr r =
    if length text == 0
    then r
    else if r.cells.filled && fits_run col text total r.cells
    then write_filled col text widths total all_single attr r
    else if (col == 0) && (total == width r.cells)
    then write_full text widths all_single attr r
    else write_part col text widths total all_single attr r

-- Bits 8 and 9 of an attribute: COMMON_LVB_LEADING_BYTE, COMMON_LVB_TRAILING_BYTE.
abbrev pub has_leading : CharInfo → Bool
has_leading ci = leb 256 (ci.attributes % 512)

abbrev pub has_trailing : CharInfo → Bool
has_trailing ci = not (has_leading ci) && leb 512 (ci.attributes % 1024)

abbrev pub imported_char : ℕ → ℕ
imported_char wch = if within 55296 56319 wch then 65533 else if wch == 0 then blank else wch

-- One cell of from_char_info; `first` at the first cell of the write.
unfoldable pub import_cell : Bool → ℕ → CharInfo → Row → Row
import_cell first col ci r =
    let attr = text_attribute ci.attributes in
    let leading = has_leading ci in
    let trailing = has_trailing ci in
    let glyph = imported_char ci.unicode_char ∷ [] in
    if (ci.unicode_char == 0) && not leading && not trailing
    then r
    else if leading && ltb (col + 1) (width r.cells)
    then set_attr (col + 1) (attr_at r (col + 1)) (write_glyph col glyph 2 attr r)
    else if trailing && not first
    then set_attr col attr r
    else if trailing && ltb 0 col
    then set_attr col attr (write_glyph (col - 1) glyph 2 (attr_at r (col - 1)) r)
    else write_glyph col (if leading || trailing then blank ∷ [] else glyph) 1 attr r

unfoldable pub import_cells : Bool → ℕ → List CharInfo → Row → Row
import_cells first col [] r = r
import_cells first col (ci ∷ src) r =
    let rest = import_cells false (suc col) src (import_cell first col ci r) in
    if ltb col (width r.cells) then rest else r

unfoldable pub from_char_info : List CharInfo → ℕ → Row → Row
from_char_info src dst_col r = import_cells true dst_col src (materialize_filled r)
