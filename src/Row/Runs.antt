-- ===== src/Row/Runs.antt =====
-- `write_measured_run`, all of its ways.
use corehost.Base.{
  ℕ, ◌+◌, ◌*◌, ◌≤◌, ◌<◌, ◌≡◌, Bool, true, false, not, ◌&&◌, ◌||◌, List, arith, ◌==◌, length,
  if_true, if_false, Bool-cases, ◌⊎◌, inl, inr,
}
use corehost.Row.{Row, Cells, width}
use corehost.Row.Run.{fits_run, write_part, matches_layout, write_measured_run, to_u16}
use corehost.Row.Layout.{Glyph, singles, span, size, put}
use corehost.Row.Shows.{Shows, Shows-IsLaid, laid, width-shown}
use corehost.Row.Store.{run_glyphs, IsRun}
use corehost.Row.Measured.{write_single_layout-Shows, write_filled-Shows}
use corehost.Row.Whole.{write_full-Shows_flat, write_full-Shows, write_filled-Shows_flat}
use corehost.Row.Generic.{write_generic-IsLaid}
use corehost.Row.Match.{overwrite_matching-IsLaid}

fits_run-fits :
    (col total : ℕ) (text : List ℕ) (c : Cells)
    → 0 < length text
    → col < width c
    → col + total ≤ width c
    → width c ≤ 32767
    → fits_run col text total c ≡ true
unfolding fits_run
fits_run-fits col total text c some less le narrow =
    let end : to_u16 (col + total) ≡ col + total = omega arith in rw end (ground arith)

module _ (r : Row) (gs : List Glyph) (col total attr : ℕ) (text widths : List ℕ) where
  write_part-Shows :
      Shows r.cells gs
      → r.cells.filled ≡ false
      → IsRun text widths total
      → 0 < length text
      → col + total ≤ span gs
      → col < span gs
      → size gs + 2 * span gs + length text ≤ 32767
      → Shows
          (write_part col text widths total false attr r).cells
          (put col (col + total) (run_glyphs text widths) gs)
  unfolding write_part
  write_part-Shows h e run some le less fits =
      let c = r.cells in
      let w = width-shown h in
      let narrow = h.narrow in
      let same = run.same_length in
      let fitting : fits_run col text total c ≡ true =
        fits_run-fits col total text c some (omega arith) (omega arith) (omega arith) in
      let single =
        fits_run col text total c
        && (length text == length widths)
        && not (c.filled || not c.single_width_layout) in
      elim (Bool-cases c.single_width_layout) [
        | inl s ↦
            let t : single ≡ true = ground arith in
            rw (if_true _ _ t)
              (write_single_layout-Shows r gs col total attr text widths h e s run le (omega arith))
        | inr s ↦
            let f : single ≡ false = ground arith in
            let h2 = laid h e s in
            rw (if_false _ _ f) (elim (Bool-cases (matches_layout col text widths total c)) [
              | inl m ↦ rw (if_true _ _ m) (
                  Shows-IsLaid
                    (overwrite_matching-IsLaid r gs col total attr text widths h2 run le m))
              | inr m ↦ rw (if_false _ _ m) (
                  Shows-IsLaid
                    (write_generic-IsLaid r gs col total attr text widths h2 run le fits))
            ])
      ]

-- The glyphs of a text that is written.
abbrev pub written_glyphs : Bool → List ℕ → List ℕ → List Glyph
written_glyphs true text widths = singles text
written_glyphs false text widths = run_glyphs text widths

-- What is asked of the arguments: widths of the text that add up to `total`; or text of single
-- columns, then for a filled or a whole row, since the widths may be missing.
abbrev pub IsGiven : Bool → List ℕ → List ℕ → ℕ → Cells → Type 0
IsGiven true text widths total c = (length text ≡ total) × ((c.filled ≡ true) ⊎ (total ≡ width c))
IsGiven false text widths total c = IsRun text widths total

module _ (r : Row) (gs : List Glyph) (col total attr : ℕ) (text widths : List ℕ) where
  write_single-Shows :
      Shows r.cells gs
      → IsGiven true text widths total r.cells
      → 0 < length text
      → col < span gs
      → col + total ≤ span gs
      → Shows
          (write_measured_run col text widths total true attr r).cells
          (put col (col + total) (singles text) gs)
  unfolding write_measured_run
  write_single-Shows h given some less le =
      let c = r.cells in
      let w = width-shown h in
      let narrow = h.narrow in
      let empty : length text == 0 ≡ false = ground arith in
      let fitting = fits_run-fits col total text c some (omega arith) (omega arith) (omega arith) in
      let n = given.0 in
      rw (if_false _ _ empty) (elim (Bool-cases c.filled) [
        | inl e ↦
            let t : c.filled && fits_run col text total c ≡ true = ground arith in
            rw (if_true _ _ t, ← n)
              (write_filled-Shows_flat r gs attr text col widths h e (omega arith))
        | inr e ↦
            let f : c.filled && fits_run col text total c ≡ false = ground arith in
            let all : total ≡ span gs = elim given.1 [
              | inl x ↦ absurd (ground arith)
              | inr x ↦ omega arith
            ] in
            let first : col ≡ 0 = omega arith in
            let t : (col == 0) && (total == width c) ≡ true = ground arith in
            let end : col + total ≡ span gs = omega arith in
            rw (if_false _ _ f, if_true _ _ t, end, first)
              (write_full-Shows_flat r gs attr text widths h (omega arith))
      ])

  write_widths-Shows :
      Shows r.cells gs
      → IsRun text widths total
      → 0 < length text
      → col < span gs
      → col + total ≤ span gs
      → size gs + 2 * span gs + length text ≤ 32767
      → Shows
          (write_measured_run col text widths total false attr r).cells
          (put col (col + total) (run_glyphs text widths) gs)
  unfolding write_measured_run
  write_widths-Shows h run some less le fits =
      let c = r.cells in
      let w = width-shown h in
      let narrow = h.narrow in
      let empty : length text == 0 ≡ false = ground arith in
      let fitting = fits_run-fits col total text c some (omega arith) (omega arith) (omega arith) in
      rw (if_false _ _ empty) (elim (Bool-cases c.filled) [
        | inl e ↦
            let t : c.filled && fits_run col text total c ≡ true = ground arith in
            rw (if_true _ _ t)
              (write_filled-Shows r gs col total attr text widths h e run le (omega arith))
        | inr e ↦
            let f : c.filled && fits_run col text total c ≡ false = ground arith in
            rw (if_false _ _ f) (elim (Bool-cases ((col == 0) && (total == width c))) [
              | inl t ↦
                  let first : col ≡ 0 = ground arith in
                  let all : total ≡ span gs = ground arith in
                  let whole : IsRun text widths (span gs) = rw (← all) run in
                  let end : col + total ≡ span gs = omega arith in
                  rw (if_true _ _ t, end, first)
                    (write_full-Shows r gs attr text widths h whole (omega arith))
              | inr t ↦
                  rw (if_false _ _ t)
                    (write_part-Shows r gs col total attr text widths h e run some le less fits)
            ])
      ])

-- On a row that shows `gs`, with offsets enough, write_measured_run puts the glyphs of the text in
-- place of the columns from `col` on that they cover, whichever of its ways it takes.
pub write_measured_run-Shows :
    (r : Row) (gs : List Glyph) (col total attr : ℕ) (text widths : List ℕ) (all_single : Bool)
    → Shows r.cells gs
    → IsGiven all_single text widths total r.cells
    → 0 < length text
    → col < span gs
    → col + total ≤ span gs
    → size gs + 2 * span gs + length text ≤ 32767
    → Shows
        (write_measured_run col text widths total all_single attr r).cells
        (put col (col + total) (written_glyphs all_single text widths) gs)
write_measured_run-Shows r gs col total attr text widths true h given some less le fits =
    write_single-Shows r gs col total attr text widths h given some less le
write_measured_run-Shows r gs col total attr text widths false h given some less le fits =
    write_widths-Shows r gs col total attr text widths h given some less le fits
