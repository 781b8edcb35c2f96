-- ===== src/Row.antt =====
-- libcorehost/screen_buffer_row.hpp: one row of a screen buffer, its readers, and the steps of its
-- private functions. The children follow the writers and what the columns of a row mean.
pub mod Layout
pub mod Laid
pub mod Cut
pub mod Replace
pub mod Put
pub mod Shows
pub mod Glyph
pub mod Written
pub mod Read
pub mod Store
pub mod Generic
pub mod Build
pub mod Measured
pub mod Whole
pub mod Alike
pub mod Single
pub mod Match
pub mod Runs
pub mod Attrs
pub mod Colors
pub mod Export
pub mod Write
pub mod Run
mod Tests
use corehost.Base.{
  ℕ, zero, suc, ◌+◌, ◌-◌, ◌%◌, Bool, true, false, not, ◌&&◌, ◌||◌, List, [], ◌∷◌, ◌++◌, ltb, leb,
  ◌==◌, if◌then◌else◌, length, get_or, take, drop, replicate, splice, min,
}

-- What is drawn: the first fields of screen_buffer_row, with the fill character. Code points, the
-- entries of `columns` (uint16_t) and attributes (WORD) are numbers.
pub record Cells : Type 0 where
  pub text : List ℕ
  pub columns : List ℕ
  pub single_width_layout : Bool
  pub filled : Bool
  pub fill_char : ℕ

-- The attribute fields; `fill_attr` of a filled row is among them.
pub record Attributes : Type 0 where
  pub values : List ℕ
  pub uniform : Bool
  pub uniform_attr : ℕ
  pub fill_attr : ℕ

pub record Row : Type 0 where
  pub cells : Cells
  pub attributes : Attributes

-- The default text_attribute.
abbrev pub default_attr : ℕ
default_attr = 7

abbrev pub blank : ℕ
blank = 32

-- TRAILING_FLAG; an offset is the rest of an entry.
abbrev pub trailing_flag : ℕ
trailing_flag = 32768

abbrev pub offset_of : ℕ → ℕ
offset_of entry = entry % 32768

abbrev pub flagged : ℕ → Bool
flagged entry = leb trailing_flag (entry % 65536)

-- `entry | TRAILING_FLAG` of a 16-bit entry.
abbrev pub or_flag : ℕ → ℕ
or_flag entry = offset_of entry + trailing_flag

-- std::iota: n entries from v on.
abbrev pub iota : ℕ → ℕ → List ℕ
iota zero v = []
iota (suc n) v = v % 65536 ∷ iota n (v + 1)

-- The cast of width() to 16 bits included.
unfoldable pub width : Cells → ℕ
width c = (length c.columns - 1) % 65536

unfoldable pub col_offset : Cells → ℕ → ℕ
col_offset c col =
    if c.filled || c.single_width_layout
    then (if leb col (width c) then col else 0)
    else if ltb col (length c.columns)
    then offset_of (get_or c.columns col 0)
    else 0

unfoldable pub is_trailing : Cells → ℕ → Bool
is_trailing c col =
    if c.filled || c.single_width_layout
    then false
    else ltb col (length c.columns) && flagged (get_or c.columns col 0)

-- The loop `while (end < width() && is_trailing(end)) ++end`, with at most `fuel` steps; a row has
-- `width - end` columns from `end` on.
unfoldable pub run_end : Cells → ℕ → ℕ → ℕ
run_end c zero end = end
run_end c (suc fuel) end =
    let further = run_end c fuel (suc end) in
    if ltb end (width c) && is_trailing c end then further else end

unfoldable pub glyph_end : Cells → ℕ → ℕ
glyph_end c col = run_end c (width c - (col + 1)) (col + 1)

-- The code points of `text` from `start` up to `end`.
unfoldable pub slice : ℕ → ℕ → List ℕ → List ℕ
slice start end text = if leb end start then [] else take (end - start) (drop start text)

unfoldable pub glyph_at : Cells → ℕ → List ℕ
glyph_at c col =
    if leb (width c) col
    then []
    else if c.filled
    then c.fill_char ∷ []
    else if c.single_width_layout
    then take 1 (drop col c.text)
    else slice (col_offset c col) (min (col_offset c (glyph_end c col)) (length c.text)) c.text

unfoldable pub glyph_width : Cells → ℕ → ℕ
glyph_width c col =
    if leb (width c) col
    then 0
    else if c.filled || c.single_width_layout
    then 1
    else if is_trailing c col
    then 0
    else glyph_end c col - col

-- Flags of wide glyphs: COMMON_LVB_LEADING_BYTE 0x100, COMMON_LVB_TRAILING_BYTE 0x200.
unfoldable pub dbcs_flags : Cells → ℕ → ℕ
dbcs_flags c col =
    if is_trailing c col
    then 512
    else if ltb (col + 1) (width c) && is_trailing c (col + 1)
    then 256
    else 0

unfoldable pub attr_at : Row → ℕ → ℕ
attr_at r col =
    if r.attributes.uniform && ltb col (width r.cells)
    then r.attributes.uniform_attr
    else get_or r.attributes.values col default_attr

-- The two parts of materialize_filled.
unfoldable pub filled_cells : Cells → Cells
filled_cells c =
    if c.filled
    then record c {
      text = replicate (width c) c.fill_char;
      filled = false;
      single_width_layout = true;
    }
    else c

unfoldable pub filled_attributes : Bool → Attributes → Attributes
filled_attributes filled a =
    if filled then record a { uniform = true; uniform_attr = a.fill_attr } else a

unfoldable pub materialize_filled : Row → Row
materialize_filled r = record {
  cells = filled_cells r.cells;
  attributes = filled_attributes r.cells.filled r.attributes;
}

unfoldable pub materialize_columns : Cells → Cells
materialize_columns c =
    if c.single_width_layout
    then record c { columns = iota (length c.columns) 0; single_width_layout = false }
    else c

unfoldable pub materialize_attrs : Attributes → Attributes
materialize_attrs a =
    if a.uniform
    then record a { values = replicate (length a.values) a.uniform_attr; uniform = false }
    else a

-- std::fill of the attributes from `start` up to `end`, cut at the end of the row.
unfoldable pub fill_values : ℕ → ℕ → ℕ → List ℕ → List ℕ
fill_values start end_excl attr values =
    let count = min end_excl (length values) - start in
    if leb (length values) start then values else splice start count (replicate count attr) values

unfoldable pub attr_range : ℕ → ℕ → ℕ → ℕ → Attributes → Attributes
attr_range row_width start end_excl attr a =
    let all = materialize_attrs a in
    if start == 0 && leb row_width end_excl
    then record a { uniform = true; uniform_attr = attr }
    else if a.uniform && (attr == a.uniform_attr)
    then a
    else record all { values = fill_values start end_excl attr all.values }

unfoldable pub write_attr_range : ℕ → ℕ → ℕ → Row → Row
write_attr_range start end_excl attr r = record r {
  attributes = attr_range (width r.cells) start end_excl attr r.attributes;
}

-- One entry moved by a 16-bit difference: its flag stays, and or-ed into the new offset.
abbrev pub moved_entry : ℕ → ℕ → ℕ
moved_entry delta entry =
    let offset = (offset_of entry + delta) % 65536 in
    if flagged entry then or_flag offset else offset

abbrev pub shift_from : ℕ → ℕ → List ℕ → List ℕ
shift_from from delta [] = []
shift_from zero delta (e ∷ es) = moved_entry delta e ∷ shift_from zero delta es
shift_from (suc from) delta (e ∷ es) = e ∷ shift_from from delta es

unfoldable pub shift_columns_from : ℕ → ℕ → Cells → Cells
shift_columns_from from delta c = record c { columns = shift_from from delta c.columns }

-- The loop `while (lead > 0 && is_trailing(lead)) --lead`.
unfoldable pub find_lead : Cells → ℕ → ℕ
find_lead c zero = zero
find_lead c (suc lead) =
    let before = find_lead c lead in if is_trailing c (suc lead) then before else suc lead

-- The difference of two offsets as a count: a negative one is a huge size_t.
abbrev pub count_between : ℕ → ℕ → ℕ
count_between start stop =
    if leb start stop then stop - start else 18446744073709551616 - (start - stop)

-- A 16-bit difference.
abbrev pub minus16 : ℕ → ℕ → ℕ
minus16 a b = (a + 65536 - b) % 65536

-- The part of _blank_glyph_cut_at behind its guard: the glyph in columns `lead` to `end`.
unfoldable pub blank_columns : ℕ → ℕ → Cells → Cells
blank_columns lead end c =
    let start = col_offset c lead in
    let stop = col_offset c end in
    let count = end - lead in
    shift_columns_from end (minus16 count (minus16 stop start)) (record c {
      text = splice start (count_between start stop) (replicate count blank) c.text;
      columns = splice lead count (iota count start) c.columns;
    })

unfoldable pub blank_glyph_cut_at : ℕ → Cells → Cells
blank_glyph_cut_at col c =
    let blanked = blank_columns (find_lead c col) (glyph_end c col) c in
    if leb (width c) col || not (is_trailing c col) then c else blanked
