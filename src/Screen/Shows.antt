-- ===== src/Screen/Shows.antt =====
-- write_text_row on a line: what it writes, how far, and what it leaves.
use corehost.Base.{
  ℕ, ◌+◌, ◌*◌, ◌≤◌, ◌<◌, ◌≡◌, refl, sym, ap, ◌∙◌, List, [], ◌++◌, arith, ◌==◌, if◌then◌else◌,
  length, take, take-append_length, if_true, if_false, Bool-cases, inl, inr, Bool, ◌⊎◌, ◌||◌, ltb,
  get_or, get_or-append, length-append,
}
use corehost.Base.Int.{ℤ, pos}
use corehost.Base.Short.{to_short, to_short-id}
use mathlib.Core.Path.{subst}
use corehost.Row.{Row}
use corehost.Row.Write.{text_attribute}
use corehost.Row.Layout.{Glyph, span, size, put}
use corehost.Row.Shows.{Shows}
use corehost.Row.Store.{run_glyphs, sum}
use corehost.Screen.{Screen, row, with_row}
use corehost.Screen.Text.{Fit, TextRow, fit_text, nothing_fits, write_fit, write_text_at}
use corehost.Screen.Lines.{IsRing, row-with_row}
use corehost.Screen.Fits.{cell_width, widths_of, IsFit, Taken, fit_text-Taken}
use corehost.Screen.Ways.{fit_written}

-- What write_text_row has written: the code points that it consumed.
abbrev pub consumed_text : List ℕ → TextRow → List ℕ
consumed_text text t = take t.consumed text

-- The loop stops at the end of the text, or before a code point that the viewport has no room for.
module _ (measure : ℕ → ℕ) (x right : ℕ) (text : List ℕ) where
  measured :
      x ≤ right
      → right ≤ 32766
      → Taken measure [] text x right (fit_text measure x right text nothing_fits)
  measured inside narrow =
      let f0 : IsFit measure [] nothing_fits = record {
        consumed_eq = refl;
        cells_eq = refl;
        flat = λ e. refl;
        listed = λ e. absurd (ground arith);
      } in
      fit_text-Taken measure text [] x right nothing_fits f0 (omega arith) narrow

  module _ (f : Fit) (taken : Taken measure [] text x right f) where
    taken_run : take f.consumed text ≡ taken.more
    taken_run =
        let run = taken.more in
        let fit : IsFit measure run f = taken.fit in
        ap (take f.consumed) taken.parts
        ∙ ap (λ k. take k (run ++ taken.left)) fit.consumed_eq
        ∙ take-append_length run taken.left

    taken_cells : f.cell_count ≡ sum (widths_of measure (take f.consumed text))
    taken_cells =
        let fit : IsFit measure taken.more f = taken.fit in
        fit.cells_eq ∙ sym (ap (λ run. sum (widths_of measure run)) taken_run)

    taken_most :
        (f.consumed ≡ length text)
        ⊎ (right + 1 < x + f.cell_count + cell_width (measure (get_or text f.consumed 0)))
    taken_most =
        let run = taken.more in
        let fit : IsFit measure run f = taken.fit in
        let count = fit.consumed_eq in
        let n = ap length taken.parts in
        let m = length-append run taken.left in
        elim taken.stopped [
          | inl all ↦ inl (omega arith)
          | inr full ↦
              let at : f.consumed ≡ length run + 0 = omega arith in
              let next : get_or text f.consumed 0 ≡ get_or taken.left 0 0 =
                ap (λ l. get_or l f.consumed 0) taken.parts
                ∙ ap (λ k. get_or (run ++ taken.left) k 0) at
                ∙ get_or-append run taken.left 0 0 in
              inr (rw next (omega arith))
        ]

-- A line other than the one that is written.
line_kept :
    (s : Screen) (y k : ℕ) (none : Bool) (r : Row)
    → IsRing s
    → y < s.lines
    → k < s.lines
    → let s2 = if none then s else with_row y r s in
      row s2 k ≡ (if y == k then row s2 y else row s k)
line_kept s y k none r ring less line = elim (Bool-cases (y == k)) [
  | inl e ↦ let same : y ≡ k = ground arith in rw (if_true _ _ e, same) refl
  | inr e ↦ elim (Bool-cases none) [
    | inl n ↦ rw (if_false _ _ e, n) refl
    | inr n ↦ rw (if_false _ _ e, n) (row-with_row s y k r ring less line ∙ if_false _ _ e)
  ]
]

-- The line that is written.
row-write_text_at :
    (measure : ℕ → ℕ) (right x y attr : ℕ) (text : List ℕ) (s : Screen) (gs : List Glyph)
    → IsRing s
    → y < s.lines
    → Shows (row s y).cells gs
    → right < span gs
    → x ≤ right
    → size gs + 3 * span gs ≤ 32767
    → let t = write_text_at measure right x y text attr s in
      let run = consumed_text text t in
      let end = x + sum (widths_of measure run) in
      Shows
        (row t.screen y).cells
        (if t.consumed == 0 then gs else put x end (run_glyphs run (widths_of measure run)) gs)
      × (end ≤ right + 1)
unfolding write_text_at
row-write_text_at measure right x y attr text s gs ring less h narrow inside room =
    let n = h.narrow in
    finished (fit_text measure x right text nothing_fits)
      (measured measure x right text inside (omega arith))
  where
    finished :
        (f : Fit)
        → Taken measure [] text x right f
        → let run = take f.consumed text in
          let end = x + sum (widths_of measure run) in
          Shows
            (row
              (if f.consumed == 0
                then s
                else with_row y (write_fit x run (text_attribute attr) f (row s y)) s)
              y).cells
            (if f.consumed == 0 then gs else put x end (run_glyphs run (widths_of measure run)) gs)
          × (end ≤ right + 1)
    finished f taken =
        let run = taken.more in
        let fit : IsFit measure run f = taken.fit in
        let consumed : take f.consumed text ≡ run = taken_run measure x right text f taken in
        let bound = taken.inside in
        let written =
          fit_written measure right x y (text_attribute attr) s gs f run ring less h narrow room fit
            bound in
        let cells = fit.cells_eq in
        rw (consumed) (
          subst
              (λ k.
                Shows
                  (row
                    (if f.consumed == 0
                      then s
                      else with_row y (write_fit x run (text_attribute attr) f (row s y)) s)
                    y).cells
                  (if f.consumed == 0
                    then gs
                    else put x (x + k) (run_glyphs run (widths_of measure run)) gs))
              cells written,
          omega arith,
        )

-- On a ring whose line y shows `gs`, for every measure of widths, write_text_row behind its clamp puts
-- the glyphs of the code points that it consumes, each with one column or, if it is measured as more,
-- with two, into the columns from x on; any other line k is as before. What it writes ends at the
-- right column of the viewport at the latest; it consumes the whole text, or the next code point does
-- not fit any more. The cursor stands behind what is written, and row_end tells that this is past the
-- right column or that text is left.
pub write_text_at-Shows :
    (measure : ℕ → ℕ) (right x y attr k : ℕ) (text : List ℕ) (s : Screen) (gs : List Glyph)
    → IsRing s
    → y < s.lines
    → k < s.lines
    → Shows (row s y).cells gs
    → right < span gs
    → x ≤ right
    → size gs + 3 * span gs ≤ 32767
    → let t = write_text_at measure right x y text attr s in
      let run = consumed_text text t in
      let end = x + sum (widths_of measure run) in
      Shows
        (row t.screen y).cells
        (if t.consumed == 0 then gs else put x end (run_glyphs run (widths_of measure run)) gs)
      × (row t.screen k ≡ (if y == k then row t.screen y else row s k))
      × (end ≤ right + 1)
      × ((t.consumed ≡ length text)
          ⊎ (right + 1 < end + cell_width (measure (get_or text t.consumed 0))))
      × (t.cursor ≡ record { x = pos end; y = pos y })
      × (t.row_end ≡ (ltb right end || ltb t.consumed (length text)))
unfolding write_text_at
write_text_at-Shows measure right x y attr k text s gs ring less line h narrow inside room =
    let f = fit_text measure x right text nothing_fits in
    let n = h.narrow in
    let taken = measured measure x right text inside (omega arith) in
    let cells = taken_cells measure x right text f taken in
    let most = taken_most measure x right text f taken in
    let bound = taken.inside in
    let (shown, last) =
      row-write_text_at measure right x y attr text s gs ring less h narrow inside room in
    let r = write_fit x (take f.consumed text) (text_attribute attr) f (row s y) in
    let short : to_short (pos (x + f.cell_count)) ≡ pos (x + f.cell_count) =
      to_short-id (pos (x + f.cell_count)) (omega arith) in
    (
      shown,
      line_kept s y k (f.consumed == 0) r ring less line,
      last,
      rw (← cells) most,
      ap (λ (c : ℤ). record { x = c; y = pos y }) (short ∙ ap (λ (c : ℕ). pos (x + c)) cells),
      ap (λ (c : ℕ). ltb right (x + c) || ltb f.consumed (length text)) cells,
    )
