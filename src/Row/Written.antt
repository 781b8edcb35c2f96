-- ===== src/Row/Written.antt =====
-- `write_glyph` on each form of a row is `put` on the glyphs that the row shows.
use corehost.Base.{
  ℕ, zero, suc, ◌+◌, ◌-◌, ◌*◌, ◌≤◌, ◌<◌, ◌≡◌, refl, sym, ap, ◌∙◌, true, false, ◌&&◌, ◌||◌, List, [],
  ◌∷◌, arith, leb, ltb, ◌==◌, if◌then◌else◌, length, splice, set, get_or, set-splice, if_true,
  if_false, Bool-cases, inl, inr, length-splice,
}
use mathlib.Core.Path.{subst}
use corehost.Row.{
  Row, Cells, width, filled_cells, materialize_filled, materialize_columns, col_offset,
  write_attr_range,
}
use corehost.Row.Write.{
  set_attr, set_attr_each, replaces_one, write_wide, write_explicit, write_fitting, write_glyph,
}
use corehost.Row.Layout.{Glyph, single, singles, span, size, put}
use corehost.Row.Replace.{span-singles, size-singles}
use corehost.Row.Laid.{IsLaid}
use corehost.Row.Put.{put-singles, span-put}
use corehost.Row.Shows.{
  Shows, Shows-IsLaid, filled_cells-Shows, filled_cells-unfilled, materialize_columns-IsLaid,
  width-shown,
}
use corehost.Row.Glyph.{glyph, one_element, write_wide-IsLaid, in_place-IsLaid, replaces_one-IsOne}

-- Attributes leave what is drawn.
pub cells-set_attr :
    (r : Row) (col attr : ℕ) → r.cells.filled ≡ false → (set_attr col attr r).cells ≡ r.cells
unfolding set_attr materialize_filled filled_cells
cells-set_attr r col attr h = if_false _ _ h

pub cells-set_attr_each :
    (n : ℕ) (r : Row) (col attr : ℕ)
    → r.cells.filled ≡ false
    → (set_attr_each n col attr r).cells ≡ r.cells
unfolding set_attr_each
cells-set_attr_each zero r col attr h = refl
cells-set_attr_each (suc n) r col attr h =
    let e = cells-set_attr r col attr h in
    cells-set_attr_each n (set_attr col attr r) (suc col) attr (ap (λ c. c.filled) e ∙ h) ∙ e

-- Both ways of a row with explicit columns.
pub write_explicit-IsLaid :
    (r : Row) (gs : List Glyph) (col n attr : ℕ) (text : List ℕ)
    → IsLaid r.cells gs
    → col + suc n ≤ span gs
    → size gs + 2 * span gs + length text ≤ 32767
    → IsLaid
        (write_explicit col text (suc n) attr r).cells
        (put col (col + suc n) (glyph text n ∷ []) gs)
unfolding write_explicit
write_explicit-IsLaid r gs col n attr text h le fits =
    elim (Bool-cases (replaces_one col text (suc n) r.cells)) [
      | inl e ↦
          let one = replaces_one-IsOne col text (suc n) r.cells e in
          let columns = one.one_column in
          let none : n ≡ 0 = omega arith in
          let next : col + suc n ≡ col + 1 = omega arith in
          let written = in_place-IsLaid r.cells gs col (suc n) text h (omega arith) one in
          let text2 = set r.cells.text (col_offset r.cells col) (get_or text 0 0) in
          let changed = record r { cells = record r.cells { text = text2 } } in
          rw (if_true _ _ e, cells-set_attr changed col attr h.unfilled, next, none) written
      | inr e ↦
          let written = write_wide-IsLaid r.cells gs col n text h le fits in
          let changed = record r { cells = write_wide col text (suc n) r.cells } in
          rw (if_false _ _ e, cells-set_attr_each (suc n) changed col attr written.unfilled) written
    ]

-- Single columns overwritten by as many single columns.
pub overwrite-Shows :
    (c : Cells) (gs : List Glyph) (col : ℕ) (text : List ℕ)
    → Shows c gs
    → c.filled ≡ false
    → c.single_width_layout ≡ true
    → col + length text ≤ span gs
    → Shows
        (record c { text = splice col (length text) text c.text })
        (put col (col + length text) (singles text) gs)
overwrite-Shows c gs col text h e s le =
    let g = h.as_singles e s in
    let n = length text in
    let w = ap span g ∙ span-singles c.text in
    let z = ap size g ∙ size-singles c.text in
    let shown : put col (col + n) (singles text) gs ≡ singles (splice col n text c.text) =
      ap (put col (col + n) (singles text)) g ∙ put-singles col n text c.text (omega arith) in
    let kept = length-splice col n text c.text refl (omega arith) in
    let span_kept = span-put gs (singles text) col n le (span-singles text) in
    let size_kept = ap size shown ∙ size-singles (splice col n text c.text) in
    let room = h.room in
    let narrow = h.narrow in
    record {
      columns_width = h.columns_width ∙ ap suc (sym span_kept);
      room = omega arith;
      narrow = omega arith;
      as_filled = λ f. absurd (ground arith);
      as_singles = λ f t. shown;
      as_columns = λ f t. absurd (ground arith);
    }

write_fitting-Shows :
    (r : Row) (gs : List Glyph) (col n attr : ℕ) (text : List ℕ)
    → Shows r.cells gs
    → r.cells.filled ≡ false
    → col + suc n ≤ span gs
    → size gs + 2 * span gs + length text ≤ 32767
    → Shows
        (write_fitting col text (suc n) attr r).cells
        (put col (col + suc n) (glyph text n ∷ []) gs)
unfolding write_fitting write_attr_range
write_fitting-Shows r gs col n attr text h e le fits =
    let short = r.cells.single_width_layout && (suc n == 1) && (length text == 1) in
    elim (Bool-cases short) [
      | inl t ↦
          let one : length text ≡ 1 = ground arith in
          let none : n ≡ 0 = ground arith in
          let s : r.cells.single_width_layout ≡ true = ground arith in
          let x = get_or text 0 0 in
          let alone : glyph text n ≡ single x =
            rw none (ap (λ k. glyph k 0) (one_element text one)) in
          let next : col + suc n ≡ col + 1 = omega arith in
          let z = ap span (h.as_singles e s) ∙ span-singles r.cells.text in
          let stored = set-splice col x r.cells.text (omega arith) in
          rw (if_true _ _ t, alone, next, stored)
            (overwrite-Shows r.cells gs col (x ∷ []) h e s (omega arith))
      | inr t ↦
          let changed = record r { cells = materialize_columns r.cells } in
          rw (if_false _ _ t) (
            Shows-IsLaid (
              write_explicit-IsLaid changed gs col n attr text (materialize_columns-IsLaid h e) le
                fits))
    ]

-- The columns that the glyph gets: all it asks for, or what the row has left.
abbrev pub fitted : ℕ → ℕ → ℕ
fitted room columns = if ltb room columns then room else columns

-- On a row that shows `gs`, and has offsets enough, write_glyph puts one glyph in place of the
-- columns from `col` on that it covers; wide glyphs that it cuts become spaces.
pub write_glyph-Shows :
    (r : Row) (gs : List Glyph) (col columns attr : ℕ) (text : List ℕ)
    → Shows r.cells gs
    → col < span gs
    → 0 < columns
    → size gs + 2 * span gs + length text ≤ 32767
    → let n = fitted (span gs - col) columns in
      Shows
        (write_glyph col text columns attr r).cells
        (put col (col + n) (glyph text (n - 1) ∷ []) gs)
unfolding write_glyph materialize_filled
write_glyph-Shows r gs col columns attr text h less some fits =
    let w = width-shown h in
    let n = fitted (span gs - col) columns in
    let positive : suc (n - 1) ≡ n = ground arith in
    let le : col + n ≤ span gs = ground arith in
    let guard : leb (width r.cells) col || (columns == 0) ≡ false = ground arith in
    let written =
      write_fitting-Shows (materialize_filled r) gs col (n - 1) attr text (filled_cells-Shows h)
        (filled_cells-unfilled r.cells) (omega arith) fits in
    rw (if_false _ _ guard, w)
      (subst
        (λ k.
          Shows (write_fitting col text k attr (materialize_filled r)).cells
            (put col (col + k) (glyph text (n - 1) ∷ []) gs))
        positive written)
