-- ===== src/Row/Write.antt =====
-- libcorehost/screen_buffer_row.hpp: the writers of attributes and of one glyph.
use corehost.Base.{
  ℕ, zero, suc, ◌+◌, ◌-◌, ◌%◌, Bool, true, false, not, ◌&&◌, ◌||◌, List, [], ◌∷◌, ltb, leb, ◌==◌,
  bit_or, if◌then◌else◌, length, get_or, set, take, splice, resize, store_range,
}
use corehost.Row.{
  Row, Cells, Attributes, blank, default_attr, or_flag, width, col_offset, is_trailing, glyph_at,
  glyph_width, attr_at, materialize_filled, materialize_columns, materialize_attrs, fill_values,
  write_attr_range, shift_columns_from, count_between, minus16, blank_glyph_cut_at, dbcs_flags,
}

-- The constructor: `attr & ~COMMON_LVB_SBCSDBCS` clears bits 8 and 9 of a WORD.
abbrev pub text_attribute : ℕ → ℕ
text_attribute attr = attr % 256 + (attr % 65536 - attr % 1024)

unfoldable pub reset_fill : ℕ → ℕ → ℕ → Row → Row
reset_fill row_width cp attr r = record {
  cells = record r.cells {
    columns = resize (row_width + 1) 0 r.cells.columns;
    fill_char = cp;
    filled = true;
    single_width_layout = true;
  };
  attributes = record r.attributes {
    values = resize row_width default_attr r.attributes.values;
    fill_attr = attr;
    uniform = true;
    uniform_attr = attr;
  };
}

-- A row made for `row_width` columns.
unfoldable pub new_row : ℕ → ℕ → Row
new_row row_width attr = reset_fill row_width blank (text_attribute attr) (record {
  cells = record {
    text = [];
    columns = [];
    single_width_layout = false;
    filled = false;
    fill_char = blank;
  };
  attributes = record {
    values = [];
    uniform = false;
    uniform_attr = default_attr;
    fill_attr = default_attr;
  };
})

-- set_attr behind materialize_filled.
unfoldable pub with_attr : ℕ → ℕ → Attributes → Attributes
with_attr col attr a =
    let all = materialize_attrs a in record all { values = set all.values col attr }

unfoldable pub set_attr : ℕ → ℕ → Row → Row
set_attr col attr r =
    let m = materialize_filled r in record m { attributes = with_attr col attr m.attributes }

-- fill_attrs behind materialize_filled.
unfoldable pub with_attrs : ℕ → ℕ → ℕ → ℕ → Attributes → Attributes
with_attrs row_width start end_excl attr a =
    let all = materialize_attrs a in
    if start == 0 && leb row_width end_excl
    then record a { uniform = true; uniform_attr = attr }
    else record all { values = fill_values start end_excl attr all.values }

unfoldable pub fill_attrs : ℕ → ℕ → ℕ → Row → Row
fill_attrs start end_excl attr r =
    let m = materialize_filled r in
    record m { attributes = with_attrs (width m.cells) start end_excl attr m.attributes }

-- The loop `for (c = col; c < end_col; ++c) set_attr(c, attr)`.
unfoldable pub set_attr_each : ℕ → ℕ → ℕ → Row → Row
set_attr_each zero col attr r = r
set_attr_each (suc n) col attr r = set_attr_each n (suc col) attr (set_attr col attr r)

-- The first test of the loop of write_glyph's second short way: one column and one code point in
-- place of a glyph of one column and one code point.
unfoldable pub replaces_one : ℕ → List ℕ → ℕ → Cells → Bool
replaces_one col text columns c =
    (columns == 1)
    && (length text == 1)
    && not (is_trailing c col)
    && (leb (col + 1) (width c))
    && ((col + 1 == width c) || not (is_trailing c (col + 1)))
    && (col_offset c (col + 1) == col_offset c col + 1)
    && ltb (col_offset c col) (length c.text)

-- The general way: the glyph over whole columns from `col` to `end`, which no glyph straddles.
unfoldable pub replace_glyph : ℕ → List ℕ → ℕ → Cells → Cells
replace_glyph col text end c =
    let old_start = col_offset c col in
    let old_end = col_offset c end in
    let new_len = length text % 65536 in
    shift_columns_from end (minus16 new_len (minus16 old_end old_start)) (record c {
      text = splice old_start (count_between old_start old_end) (take new_len text) c.text;
      columns =
          store_range (end - (col + 1)) (col + 1) (or_flag old_start) (set c.columns col old_start);
    })

unfoldable pub write_wide : ℕ → List ℕ → ℕ → Cells → Cells
write_wide col text columns c =
    let end = col + columns in
    let plain = record c { single_width_layout = false } in
    replace_glyph col text end (blank_glyph_cut_at end (blank_glyph_cut_at col plain))

-- write_glyph behind the first short way: the columns are explicit.
unfoldable pub write_explicit : ℕ → List ℕ → ℕ → ℕ → Row → Row
write_explicit col text columns attr r =
    if replaces_one col text columns r.cells
    then set_attr col attr (record r {
      cells = record r.cells { text = set r.cells.text (col_offset r.cells col) (get_or text 0 0) };
    })
    else set_attr_each columns col attr (record r { cells = write_wide col text columns r.cells })

-- write_glyph for a number of columns that fits, in a row that is not filled.
unfoldable pub write_fitting : ℕ → List ℕ → ℕ → ℕ → Row → Row
write_fitting col text columns attr r =
    if r.cells.single_width_layout && (columns == 1) && (length text == 1)
    then write_attr_range col (col + 1) attr
        (record r { cells = record r.cells { text = set r.cells.text col (get_or text 0 0) } })
    else write_explicit col text columns attr (record r { cells = materialize_columns r.cells })

-- A number of columns is an `int` in the source; a negative one does what 0 does.
unfoldable pub write_glyph : ℕ → List ℕ → ℕ → ℕ → Row → Row
write_glyph col text columns attr r =
    let room = width r.cells - col in
    if leb (width r.cells) col || (columns == 0)
    then r
    else write_fitting col text (if ltb room columns then room else columns) attr
        (materialize_filled r)

unfoldable pub clear_cell : ℕ → ℕ → Row → Row
clear_cell col attr r = write_glyph col (blank ∷ []) 1 attr r

-- The loop of copy_from, `count` columns from `src_start` and `dst_start` on.
unfoldable pub copy_from : Row → ℕ → ℕ → ℕ → Row → Row
copy_from src src_start dst_start zero r = r
copy_from src src_start dst_start (suc count) r =
    let glyph = glyph_at src.cells src_start in
    let columns = glyph_width src.cells src_start in
    let copied = write_glyph dst_start glyph columns (attr_at src src_start) r in
    let skipped = copy_from src (suc src_start) (suc dst_start) count r in
    let rest = copy_from src (suc src_start) (suc dst_start) count copied in
    if ltb dst_start (width r.cells) && ltb src_start (width src.cells)
    then (if is_trailing src.cells src_start then skipped else rest)
    else r

-- The loop of fill, `count` columns from `col` on.
unfoldable pub fill_from : ℕ → ℕ → List ℕ → ℕ → Row → Row
fill_from zero col text attr r = r
fill_from (suc count) col text attr r =
    fill_from count (suc col) text attr (write_glyph col text 1 attr r)

unfoldable pub fill : List ℕ → ℕ → Row → Row
fill [] attr r = r
fill (x ∷ text) attr r = fill_from (width r.cells) 0 (x ∷ text) attr r

-- CHAR_INFO.
pub record CharInfo : Type 0 where
  pub unicode_char : ℕ
  pub attributes : ℕ

abbrev pub exported_char : List ℕ → ℕ
exported_char [] = blank
exported_char (cp ∷ cps) = if leb cp 65535 then cp else 65533

unfoldable pub char_info_at : Row → ℕ → CharInfo
char_info_at r col = record {
  unicode_char = exported_char (glyph_at r.cells col);
  attributes = bit_or (attr_at r col) (dbcs_flags r.cells col);
}

unfoldable pub char_infos : Row → ℕ → ℕ → List CharInfo
char_infos r zero col = []
char_infos r (suc n) col = char_info_at r col ∷ char_infos r n (suc col)

unfoldable pub to_char_info : Row → List CharInfo
to_char_info r = char_infos r (width r.cells) 0
