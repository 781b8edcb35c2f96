-- ===== src/Row/Build.antt =====
-- The ways of `write_measured_run` that build the columns of a row anew.
use corehost.Base.{
  ℕ, zero, suc, ◌+◌, ◌-◌, ◌%◌, ◌≤◌, ◌≡◌, refl, sym, ap, ◌∙◌, false, List, [], ◌∷◌, ◌++◌, arith,
  length, length-append, splice, length-splice, splice-splice, append_assoc, append_nil, drop,
  drop-length,
}
use corehost.Row.{Cells, iota}
use corehost.Row.Run.{store_run, run_columns}
use corehost.Row.Layout.{
  Glyph, singles, span, size, text_of, entries, layout, put, size-append, span-append,
  length-entries,
}
use corehost.Row.Replace.{
  span-singles, size-singles, text_of-singles, iota-singles, layout_parts, text_parts,
}
use corehost.Row.Laid.{IsLaid}
use corehost.Row.Put.{put_whole, singles-append}
use corehost.Row.Shows.{iota-snoc}
use corehost.Row.Store.{
  run_glyphs, IsRun, span-run_glyphs, size-run_glyphs, text_of-run_glyphs, store_run-splice,
}

pub length-iota : (n v : ℕ) → length (iota n v) ≡ n
length-iota zero v = refl
length-iota (suc n) v = ap suc (length-iota n (v + 1))

-- A suffix of single columns, with the sentinel.
iota-suffix :
    (cps : List ℕ) (v : ℕ)
    → v + length cps ≤ 32767
    → iota (suc (length cps)) v ≡ entries v (singles cps) ++ ((v + size (singles cps)) ∷ [])
iota-suffix cps v h =
    let m : (v + length cps) % 65536 ≡ v + size (singles cps) = omega (arith, size-singles cps) in
    iota-snoc (length cps) v
    ∙ ap (◌++ ((v + length cps) % 65536 ∷ [])) (iota-singles cps v (omega arith))
    ∙ ap (λ k. entries v (singles cps) ++ (k ∷ [])) m

-- The columns of a run between single columns, whatever the columns held before.
module _ (a b text widths : List ℕ) (total : ℕ) where
  abbrev pub around_run : List Glyph
  around_run = singles a ++ (run_glyphs text widths ++ singles b)

  pub run_columns-eq :
      (columns : List ℕ)
      → IsRun text widths total
      → length columns ≡ suc (length a + total + length b)
      → length columns ≤ 32768
      → length a + length text + length b ≤ 32767
      → run_columns (length a) text widths (length a + total) (length a + total + length b) columns
        ≡ layout around_run
  unfolding run_columns
  run_columns-eq columns run len narrow fits =
      let i = length a in
      let n = length b in
      let new = run_glyphs text widths in
      let ls = singles a in
      let rs = singles b in
      let tail : ℕ → List ℕ = λ o. entries o rs ++ ((o + size rs) ∷ []) in
      let own = entries i new in
      let new_size = size-run_glyphs text widths run.same_length in
      let own_len : length own ≡ total =
        length-entries i new ∙ span-run_glyphs text widths total run in
      let start = iota i 0 in
      let one = splice 0 i start columns in
      let one_len = length-splice 0 i start columns (length-iota i 0) (omega arith) in
      let none : 0 + i ≡ i = omega arith in
      let suffix : i + total + n + 1 - (i + total) ≡ suc n = omega arith in
      let last = iota (suc n) (i + length text) in
      let none2 : 0 + (i + total) ≡ i + total = omega arith in
      let all : i + total + suc n ≡ length columns = omega arith in
      let mid_len : length (start ++ own) ≡ i + total =
        omega (arith, length-append start own, length-iota i 0) in
      let stored : store_run i i text widths one ≡ splice 0 (i + total) (start ++ own) columns =
        store_run-splice text widths i i total one run (omega arith) (omega arith) (omega arith)
        ∙ ap (λ k. splice k total own one) (sym none)
        ∙ splice-splice 0 i total start own columns (length-iota i 0) (omega arith) in
      let zero_all : 0 + (i + total + suc n) ≡ length columns = omega arith in
      rw suffix (
        ap (splice (i + total) (suc n) last) stored
        ∙ ap (λ k. splice k (suc n) last (splice 0 (i + total) (start ++ own) columns)) (sym none2)
        ∙ splice-splice 0 (i + total) (suc n) (start ++ own) last columns mid_len (omega arith)
        ∙ ap (((start ++ own) ++ last) ++◌)
            (ap (λ k. drop k columns) zero_all ∙ drop-length columns)
        ∙ append_nil ((start ++ own) ++ last)
        ∙ append_assoc start own last
        ∙ ap (λ k. k ++ (own ++ last)) (iota-singles a 0 (omega arith))
        ∙ ap (λ k. entries 0 ls ++ (own ++ k)) (iota-suffix b (i + length text) (omega arith))
        ∙ ap (λ k. entries 0 ls ++ (entries k new ++ tail (k + length text))) (sym (size-singles a))
        ∙ ap (λ k. entries 0 ls ++ (entries (size ls) new ++ tail (size ls + k))) (sym new_size)
        ∙ sym (layout_parts ls new rs))

  -- The row that is built so.
  pub built-IsLaid :
      (c : Cells)
      → IsRun text widths total
      → c.filled ≡ false
      → c.single_width_layout ≡ false
      → c.text ≡ a ++ (text ++ b)
      → c.columns ≡ layout around_run
      → length a + total + length b ≤ 32767
      → length a + length text + length b ≤ 32767
      → IsLaid c around_run
  built-IsLaid c run f s text_eq columns_eq narrow fits =
      let ls = singles a in
      let rs = singles b in
      let new = run_glyphs text widths in
      let n = size-run_glyphs text widths run.same_length in
      let m = span-run_glyphs text widths total run in
      let p = size-append ls (new ++ rs) in
      let q = size-append new rs in
      let p2 = span-append ls (new ++ rs) in
      let q2 = span-append new rs in
      let za = size-singles a in
      let zb = size-singles b in
      let wa = span-singles a in
      let wb = span-singles b in
      record {
        unfilled = f;
        explicit = s;
        columns_eq = columns_eq;
        text_eq =
            text_eq
            ∙ ap (λ k. k ++ (text ++ b)) (sym (text_of-singles a))
            ∙ ap (λ k. text_of ls ++ (k ++ b))
                (sym (text_of-run_glyphs text widths run.same_length))
            ∙ ap (λ k. text_of ls ++ (text_of new ++ k)) (sym (text_of-singles b))
            ∙ sym (text_parts ls new rs);
        room = omega arith;
        narrow = omega arith;
      }

  -- It is what `put` makes of single columns.
  pub put-built :
      (m : List ℕ)
      → length m ≡ total
      → put (length a) (length a + total) (run_glyphs text widths) (singles (a ++ (m ++ b)))
        ≡ around_run
  put-built m e =
      let ls = singles a in
      let rs = singles b in
      let new = run_glyphs text widths in
      let shape : singles (a ++ (m ++ b)) ≡ ls ++ (singles m ++ rs) =
        singles-append a (m ++ b) ∙ ap (ls ++◌) (singles-append m b) in
      let wide : span (singles m) ≡ total = span-singles m ∙ e in
      ap (put (length a) (length a + total) new) shape
      ∙ ap (λ k. put k (k + total) new (ls ++ (singles m ++ rs))) (sym (span-singles a))
      ∙ ap (λ k. put (span ls) (span ls + k) new (ls ++ (singles m ++ rs))) (sym wide)
      ∙ put_whole ls (singles m) rs new
