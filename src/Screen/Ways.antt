-- ===== src/Screen/Ways.antt =====
-- What the ways of write_text_row do to the row of the cursor.
use corehost.Base.{
  ℕ, zero, suc, ◌+◌, ◌*◌, ◌≤◌, ◌<◌, ◌≡◌, refl, sym, ap, ◌∙◌, true, false, ◌&&◌, List, [], ◌∷◌,
  arith, ◌==◌, if◌then◌else◌, length, replicate, if_true, if_false, Bool-cases, inl, inr,
}
use corehost.Row.{Row, width}
use corehost.Row.Run.{try_write_single_width_run}
use corehost.Row.Layout.{Glyph, single, singles, span, size, put}
use corehost.Row.Shows.{Shows, width-shown}
use corehost.Row.Store.{run_glyphs, IsRun, sum, all_positive}
use corehost.Row.Single.{try_write_single_width_run-Shows}
use corehost.Row.Runs.{write_measured_run-Shows}
use corehost.Screen.{Screen, row, with_row}
use corehost.Screen.Text.{Fit, write_fit}
use corehost.Screen.Lines.{IsRing, row-with_row}
use corehost.Screen.Fits.{widths_of, length-widths_of, positive-widths_of, IsFit}

run_glyphs_flat : (text : List ℕ) → run_glyphs text (replicate (length text) 1) ≡ singles text
run_glyphs_flat [] = refl
run_glyphs_flat (x ∷ text) = ap (single x ∷◌) (run_glyphs_flat text)

sum_flat : (n : ℕ) → sum (replicate n 1) ≡ n
sum_flat zero = refl
sum_flat (suc n) = omega (arith, sum_flat n)

length-sum : (ws : List ℕ) → all_positive ws ≡ true → length ws ≤ sum ws
length-sum [] h = omega arith
length-sum (w ∷ ws) h =
    let p : 1 ≤ w = ground arith in let r = length-sum ws (ground arith) in omega arith

module _ (measure : ℕ → ℕ) (r : Row) (gs : List Glyph) (col attr : ℕ) (text : List ℕ)
    (f : Fit) where
  -- Whichever way is taken, the glyphs of the text stand in the columns.
  write_fit-Shows :
      Shows r.cells gs
      → IsFit measure text f
      → 0 < length text
      → col + f.cell_count ≤ span gs
      → size gs + 2 * span gs + length text ≤ 32767
      → Shows
          (write_fit col text attr f r).cells
          (put col (col + f.cell_count) (run_glyphs text (widths_of measure text)) gs)
  unfolding write_fit
  write_fit-Shows h fit some le fits =
      let ws = widths_of measure text in
      let n = length-widths_of measure text in
      let p = positive-widths_of measure text in
      let wide = length-sum ws p in
      let cells = fit.cells_eq in
      let w = width-shown h in
      let run : IsRun text ws f.cell_count = record {
        same_length = sym n;
        adds_up = sym cells;
        positive = p;
      } in
      let less : col < span gs = omega arith in
      let whole = (col == 0) && (f.cell_count == width r.cells) in
      elim (Bool-cases f.all_single) [
        | inr e ↦
            let a : f.all_single && whole ≡ false = ground arith in
            let listed = fit.listed e in
            rw (if_false _ _ a, if_false _ _ e, listed)
              (write_measured_run-Shows r gs col f.cell_count attr text ws false h run some less le
                fits)
        | inl e ↦
            let flat = fit.flat e in
            let glyphs : run_glyphs text ws ≡ singles text =
              ap (run_glyphs text) flat ∙ run_glyphs_flat text in
            let count : f.cell_count ≡ length text = cells ∙ ap sum flat ∙ sum_flat (length text) in
            let ones : replicate f.consumed 1 ≡ ws =
              ap (λ k. replicate k 1) fit.consumed_eq ∙ sym flat in
            elim (Bool-cases whole) [
              | inl t ↦
                  let a : f.all_single && whole ≡ true = ground arith in
                  rw (if_true _ _ a, glyphs)
                    (write_measured_run-Shows r gs col f.cell_count attr text [] true h
                      (sym count, inr (ground arith)) some less le fits)
              | inr t ↦
                  let a : f.all_single && whole ≡ false = ground arith in
                  let tried = try_write_single_width_run col text attr r in
                  let s = try_write_single_width_run-Shows r gs col attr text h some in
                  rw (if_false _ _ a, if_true _ _ e)
                    (elim (Bool-cases tried.0) [
                      | inl u ↦ rw (if_true _ _ u, glyphs, count) (rw (if_true _ _ u) at s)
                      | inr u ↦
                          let kept : Shows tried.1.cells gs = rw (if_false _ _ u) at s in
                          rw (if_false _ _ u, ones)
                            (write_measured_run-Shows tried.1 gs col f.cell_count attr text ws false
                              kept run some less le fits)
                    ])
            ]
      ]

-- The row of the line, for what has been measured.
module _ (measure : ℕ → ℕ) (right x y attr : ℕ) (s : Screen) (gs : List Glyph) where
  pub fit_written :
      (f : Fit) (run : List ℕ)
      → IsRing s
      → y < s.lines
      → Shows (row s y).cells gs
      → right < span gs
      → size gs + 3 * span gs ≤ 32767
      → IsFit measure run f
      → x + f.cell_count ≤ right + 1
      → Shows
          (row
            (if f.consumed == 0 then s else with_row y (write_fit x run attr f (row s y)) s)
            y).cells
          (if f.consumed == 0
            then gs
            else put x (x + f.cell_count) (run_glyphs run (widths_of measure run)) gs)
  fit_written f run ring less h narrow room fit bound = elim (Bool-cases (f.consumed == 0)) [
    | inl e ↦ rw (if_true _ _ e, if_true _ _ e) h
    | inr e ↦
        let n = length-widths_of measure run in
        let wide = length-sum (widths_of measure run) (positive-widths_of measure run) in
        let cells = fit.cells_eq in
        let count = fit.consumed_eq in
        let some : 0 < length run = ground arith in
        let r = write_fit x run attr f (row s y) in
        let t : y == y ≡ true = ground arith in
        let back = row-with_row s y y r ring less less ∙ if_true _ _ t in
        rw (if_false _ _ e, if_false _ _ e, back)
          (write_fit-Shows measure (row s y) gs x attr run f h fit some (omega arith) (omega arith))
  ]
