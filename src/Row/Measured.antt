-- ===== src/Row/Measured.antt =====
-- `write_measured_run`: each of its ways puts the run's glyphs in place of the columns it covers.
use corehost.Base.{
  ℕ, suc, ◌+◌, ◌-◌, ◌≤◌, ◌≡◌, refl, sym, ap, ◌∙◌, true, false, List, ◌++◌, arith, length,
  length-take, length-drop, length-replicate, take, drop, take-append-drop, drop-drop, replicate,
}
use corehost.Row.{Row, width, iota}
use corehost.Row.Run.{run_columns, write_filled, write_single_layout, to_u16}
use corehost.Row.Layout.{Glyph, singles, span, size, layout, put}
use corehost.Row.Replace.{span-singles, size-singles}
use corehost.Row.Put.{replicate-append}
use corehost.Row.Shows.{Shows, Shows-IsLaid, width-shown}
use corehost.Row.Store.{run_glyphs, IsRun}
use corehost.Row.Build.{length-iota, around_run, run_columns-eq, built-IsLaid, put-built}

-- The columns that are built, for a first column and a width given as numbers.
built_columns :
    (a b text widths columns : List ℕ) (col end total row_width : ℕ)
    → IsRun text widths total
    → col ≡ length a
    → end ≡ col + total
    → row_width ≡ length a + total + length b
    → length columns ≡ suc row_width
    → row_width ≤ 32767
    → length a + length text + length b ≤ 32767
    → run_columns col text widths end row_width columns ≡ layout (around_run a b text widths total)
built_columns a b text widths columns col end total row_width run at at_end wide len narrow fits =
    rw (at_end, wide, at)
      (run_columns-eq a b text widths total columns run (omega arith) (omega arith) fits)

module _ (r : Row) (gs : List Glyph) (col total attr : ℕ) (text widths : List ℕ) where
  -- On a row of single columns.
  pub write_single_layout-Shows :
      Shows r.cells gs
      → r.cells.filled ≡ false
      → r.cells.single_width_layout ≡ true
      → IsRun text widths total
      → col + total ≤ span gs
      → size gs + length text ≤ 32767
      → Shows
          (write_single_layout col text widths total attr r).cells
          (put col (col + total) (run_glyphs text widths) gs)
  unfolding write_single_layout
  write_single_layout-Shows h e s run le fits =
      let t = r.cells.text in
      let g = h.as_singles e s in
      let w = width-shown h in
      let narrow = h.narrow in
      let z = ap span g ∙ span-singles t in
      let z2 = ap size g ∙ size-singles t in
      let a = take col t in
      let m = take total (drop col t) in
      let b = drop (col + total) t in
      let la : length a ≡ col = omega (arith, length-take col t) in
      let lm : length m ≡ total =
        omega (arith, length-take total (drop col t), length-drop col t) in
      let lb : length b ≡ length t - (col + total) = length-drop (col + total) t in
      let whole : a ++ (m ++ b) ≡ t =
        ap (λ k. a ++ (m ++ k)) (sym (drop-drop total col t))
        ∙ ap (a ++◌) (take-append-drop total (drop col t))
        ∙ take-append-drop col t in
      let shown : put col (col + total) (run_glyphs text widths) gs
          ≡ around_run a b text widths total =
        ap (put col (col + total) (run_glyphs text widths)) (g ∙ ap singles (sym whole))
        ∙ ap (λ k. put k (k + total) (run_glyphs text widths) (singles (a ++ (m ++ b)))) (sym la)
        ∙ put-built a b text widths total m lm in
      let end : to_u16 (col + total) ≡ col + total = omega arith in
      let n = length r.cells.columns in
      let len = h.columns_width in
      let columns =
        built_columns a b text widths (iota n 0) col (to_u16 (col + total)) total (width r.cells)
          run (sym la) end (omega arith) (omega (arith, length-iota n 0)) (omega arith)
          (omega arith) in
      rw shown (
        Shows-IsLaid (
          built-IsLaid a b text widths total _ run e refl refl columns (omega arith) (omega arith)))

  pub filled_parts :
      Shows r.cells gs
      → r.cells.filled ≡ true
      → col + total ≤ span gs
      → let c = r.cells.fill_char in
        gs
        ≡ singles (replicate col c ++ (replicate total c ++ replicate (span gs - (col + total)) c))
  filled_parts h e le =
      let c = r.cells.fill_char in
      let rest = span gs - (col + total) in
      let n : span gs ≡ col + (total + rest) = omega arith in
      h.as_filled e
      ∙ ap (λ k. singles (replicate k c)) n
      ∙ ap singles (
          replicate-append col (total + rest) c
          ∙ ap (replicate col c ++◌) (replicate-append total rest c))

  -- On a filled row.
  pub write_filled-Shows :
      Shows r.cells gs
      → r.cells.filled ≡ true
      → IsRun text widths total
      → col + total ≤ span gs
      → size gs + length text ≤ 32767
      → Shows
          (write_filled col text widths total false attr r).cells
          (put col (col + total) (run_glyphs text widths) gs)
  unfolding write_filled
  write_filled-Shows h e run le fits =
      let c = r.cells.fill_char in
      let w = width-shown h in
      let narrow = h.narrow in
      let rest = span gs - (col + total) in
      let a = replicate col c in
      let m = replicate total c in
      let b = replicate rest c in
      let la = length-replicate col c in
      let lm = length-replicate total c in
      let lb = length-replicate rest c in
      let g = filled_parts h e le in
      let z =
        ap size (h.as_filled e)
        ∙ size-singles (replicate (span gs) c)
        ∙ length-replicate (span gs) c in
      let shown : put col (col + total) (run_glyphs text widths) gs
          ≡ around_run a b text widths total =
        ap (put col (col + total) (run_glyphs text widths)) g
        ∙ ap (λ k. put k (k + total) (run_glyphs text widths) (singles (a ++ (m ++ b)))) (sym la)
        ∙ put-built a b text widths total m lm in
      let end : to_u16 (col + total) ≡ col + total = omega arith in
      let len = h.columns_width in
      let columns =
        built_columns a b text widths r.cells.columns col (to_u16 (col + total)) total
          (width r.cells) run (sym la) end (omega arith) (omega arith) (omega arith)
          (omega arith) in
      let left : width r.cells - to_u16 (col + total) ≡ rest = omega arith in
      rw shown (
        Shows-IsLaid (
          built-IsLaid a b text widths total _ run refl refl
            (ap (λ k. a ++ (text ++ replicate k c)) left) columns (omega arith) (omega arith)))
