-- ===== src/Row/Whole.antt =====
-- `write_measured_run` over a whole row, and its ways for text of single columns.
use corehost.Base.{
  ℕ, suc, ◌+◌, ◌-◌, ◌≤◌, ◌≡◌, refl, sym, ap, ◌∙◌, true, false, List, [], ◌∷◌, ◌++◌, arith, length,
  length-append, length-drop, length-replicate, append_nil, set, set-append, drop, replicate,
}
use corehost.Row.{Row, width}
use corehost.Row.Run.{write_filled, write_full, to_u16}
use corehost.Row.Layout.{Glyph, singles, span, size, entries, put, span-append, length-entries}
use corehost.Row.Replace.{span-singles, size-singles}
use corehost.Row.Put.{around, put-around, put_whole, singles-append, span-cut}
use corehost.Row.Shows.{Shows, Shows-IsLaid, width-shown}
use corehost.Row.Store.{
  run_glyphs, IsRun, span-run_glyphs, size-run_glyphs, text_of-run_glyphs, store_run-splice,
}
use corehost.Row.Build.{length-iota}
use corehost.Row.Measured.{filled_parts}

no_glyphs : (gs : List Glyph) → span gs ≡ 0 → gs ≡ []
no_glyphs [] h = refl
no_glyphs (g ∷ gs) h = absurd (omega arith)

-- New glyphs over the whole row.
pub put_all : (gs new : List Glyph) → put 0 (span gs) new gs ≡ new
put_all gs new =
    let a = around gs 0 (span gs) (omega arith) in
    let none : 0 + span gs ≡ span gs = omega arith in
    let w = span-cut (0 + span gs) gs ∙ refl in
    let s = ap span (sym a.whole) in
    let p = span-append a.front (a.middle ++ a.back) in
    let q = span-append a.middle a.back in
    let at = a.at in
    let wide = a.wide in
    let front = no_glyphs a.front at in
    let back = no_glyphs a.back (omega arith) in
    ap (λ k. put 0 k new gs) (sym none)
    ∙ put-around a new
    ∙ ap (λ k. k ++ (new ++ a.back)) front
    ∙ ap (new ++◌) back
    ∙ append_nil new

set_end :
    (xs ys : List ℕ) (i v : ℕ) → i ≡ length xs → length ys ≡ 1 → set (xs ++ ys) i v ≡ xs ++ (v ∷ [])
set_end xs [] i v e h = absurd (omega arith)
set_end xs (y ∷ []) i v e h = rw e (set-append xs [] y v)
set_end xs (y ∷ (z ∷ ys)) i v e h = absurd (omega arith)

put_between :
    (a m b text : List ℕ)
    → put (length a) (length a + length m) (singles text) (singles (a ++ (m ++ b)))
      ≡ singles (a ++ (text ++ b))
put_between a m b text =
    let ls = singles a in
    let rs = singles b in
    let split : (k : List ℕ) → singles (a ++ (k ++ b)) ≡ ls ++ (singles k ++ rs) =
      λ k. singles-append a (k ++ b) ∙ ap (ls ++◌) (singles-append k b) in
    ap (put (length a) (length a + length m) (singles text)) (split m)
    ∙ ap (λ k. put k (k + length m) (singles text) (ls ++ (singles m ++ rs))) (sym (span-singles a))
    ∙ ap (λ k. put (span ls) (span ls + k) (singles text) (ls ++ (singles m ++ rs)))
        (sym (span-singles m))
    ∙ put_whole ls (singles m) rs (singles text)
    ∙ sym (split text)

module _ (r : Row) (gs : List Glyph) (attr : ℕ) (text : List ℕ) where
  -- A whole row of single columns.
  pub write_full-Shows_flat :
      (widths : List ℕ)
      → Shows r.cells gs
      → length text ≡ span gs
      → Shows (write_full text widths true attr r).cells (put 0 (span gs) (singles text) gs)
  unfolding write_full
  write_full-Shows_flat widths h e =
      let w = span-singles text in
      let z = size-singles text in
      let narrow = h.narrow in
      rw (put_all gs (singles text)) (record {
        columns_width = h.columns_width ∙ ap suc (sym (w ∙ e));
        room = omega arith;
        narrow = omega arith;
        as_filled = λ f. absurd (ground arith);
        as_singles = λ f s. refl;
        as_columns = λ f s. absurd (ground arith);
      })

  -- A whole row with widths.
  pub write_full-Shows :
      (widths : List ℕ)
      → Shows r.cells gs
      → IsRun text widths (span gs)
      → length text ≤ 32767
      → Shows
          (write_full text widths false attr r).cells
          (put 0 (span gs) (run_glyphs text widths) gs)
  unfolding write_full
  write_full-Shows widths h run fits =
      let new = run_glyphs text widths in
      let z = size-run_glyphs text widths run.same_length in
      let n = span-run_glyphs text widths (span gs) run in
      let narrow = h.narrow in
      let len = h.columns_width in
      let columns = r.cells.columns in
      let last : to_u16 (length text) ≡ size new = omega arith in
      rw (put_all gs new) (
        Shows-IsLaid (record {
          unfilled = refl;
          explicit = refl;
          columns_eq =
              ap (λ k. set k (width r.cells) (to_u16 (length text)))
                (store_run-splice text widths 0 0 (span gs) columns run (omega arith) (omega arith)
                  (omega arith))
              ∙ set_end (entries 0 new) (drop (0 + span gs) columns) (width r.cells)
                  (to_u16 (length text)) (width-shown h ∙ sym n ∙ sym (length-entries 0 new))
                  (length-drop (0 + span gs) columns ∙ omega arith)
              ∙ ap (λ k. entries 0 new ++ (k ∷ [])) last;
          text_eq = sym (text_of-run_glyphs text widths run.same_length);
          room = omega arith;
          narrow = omega arith;
        }))

  -- A filled row, and text of single columns.
  pub write_filled-Shows_flat :
      (col : ℕ) (widths : List ℕ)
      → Shows r.cells gs
      → r.cells.filled ≡ true
      → col + length text ≤ span gs
      → Shows
          (write_filled col text widths (length text) true attr r).cells
          (put col (col + length text) (singles text) gs)
  unfolding write_filled
  write_filled-Shows_flat col widths h e le =
      let c = r.cells.fill_char in
      let w = width-shown h in
      let narrow = h.narrow in
      let n = length text in
      let rest = span gs - (col + n) in
      let a = replicate col c in
      let m = replicate n c in
      let b = replicate rest c in
      let la = length-replicate col c in
      let lm = length-replicate n c in
      let lb = length-replicate rest c in
      let g = filled_parts r gs col n attr text widths h e le in
      let end : to_u16 (col + n) ≡ col + n = omega arith in
      let left : width r.cells - to_u16 (col + n) ≡ rest = omega arith in
      let shown : put col (col + n) (singles text) gs ≡ singles (a ++ (text ++ b)) =
        ap (put col (col + n) (singles text)) g
        ∙ ap (λ k. put k (k + n) (singles text) (singles (a ++ (m ++ b)))) (sym la)
        ∙ ap (λ k. put (length a) (length a + k) (singles text) (singles (a ++ (m ++ b)))) (sym lm)
        ∙ put_between a m b text in
      let len = length-append a (text ++ b) in
      let len2 = length-append text b in
      let kept : span gs ≡ span (singles (a ++ (text ++ b))) =
        omega (arith, span-singles (a ++ (text ++ b))) in
      rw (shown, left)
        (record {
          columns_width = length-iota _ 0 ∙ h.columns_width ∙ ap suc kept;
          room = omega (arith, size-singles (a ++ (text ++ b)));
          narrow = omega (arith, span-singles (a ++ (text ++ b)));
          as_filled = λ f. absurd (ground arith);
          as_singles = λ f s. refl;
          as_columns = λ f s. absurd (ground arith);
        })
