-- ===== src/Row/Generic.antt =====
-- The general way of `write_measured_run`.
use corehost.Base.{
  ℕ, zero, suc, ◌+◌, ◌-◌, ◌*◌, ◌≤◌, ◌≡◌, refl, sym, ap, ◌∙◌, false, List, [], ◌∷◌, ◌++◌, arith,
  length, length-append, length-take, length-drop, splice, splice-append, append_assoc, set,
  set-append, take, drop, take-append-drop, take-add,
}
use corehost.Row.{
  Row, Cells, width, col_offset, shift_from, shift_columns_from, minus16, blank_glyph_cut_at,
}
use corehost.Row.Run.{store_run, replace_run, write_generic, to_u16}
use corehost.Row.Layout.{
  Glyph, span, size, entries, layout, cut, put, size-append, span-append, length-entries,
  length-layout, length-text_of,
}
use corehost.Row.Replace.{replaced-IsLaid, shift_from-append}
use corehost.Row.Laid.{IsLaid, width-laid, at_start}
use corehost.Row.Cut.{blank_glyph_cut_at-IsLaid}
use corehost.Row.Put.{around, put-around, span-cut, size-cut}
use corehost.Row.Glyph.{take_all}
use corehost.Row.Store.{
  run_glyphs, IsRun, span-run_glyphs, size-run_glyphs, text_of-run_glyphs, store_run-splice,
}

pub length-shift_from : (i d : ℕ) (xs : List ℕ) → length (shift_from i d xs) ≡ length xs
length-shift_from i d [] = refl
length-shift_from zero d (x ∷ xs) = ap suc (length-shift_from zero d xs)
length-shift_from (suc i) d (x ∷ xs) = ap suc (length-shift_from i d xs)

shift_from-parts :
    (xs ys : List ℕ) (k d : ℕ) → k ≡ length xs → shift_from k d (xs ++ ys) ≡ xs ++ shift_from 0 d ys
shift_from-parts xs ys k d e = rw e (shift_from-append xs ys d)

-- What is before the moved entries may be written before or after the move.
shift_from-splice :
    (i n d : ℕ) (new xs : List ℕ)
    → length new ≡ n
    → i + n ≤ length xs
    → splice i n new (shift_from (i + n) d xs) ≡ shift_from (i + n) d (splice i n new xs)
shift_from-splice i n d new xs e h =
    let a = take i xs in
    let b = take n (drop i xs) in
    let c = drop (i + n) xs in
    let moved = shift_from 0 d c in
    let k : i + n ≡ length (take (i + n) xs) = omega (arith, length-take (i + n) xs) in
    let shape : shift_from (i + n) d xs ≡ a ++ (b ++ moved) =
      ap (shift_from (i + n) d) (sym (take-append-drop (i + n) xs))
      ∙ shift_from-parts (take (i + n) xs) c (i + n) d k
      ∙ ap (◌++ moved) (sym (take-add i n xs))
      ∙ append_assoc a b moved in
    let front : i ≡ length a = omega (arith, length-take i xs) in
    let middle : n ≡ length b = omega (arith, length-take n (drop i xs), length-drop i xs) in
    let both : i + n ≡ length (a ++ new) = omega (arith, length-append a new) in
    ap (splice i n new) shape
    ∙ ap (λ j. splice j n new (a ++ (b ++ moved))) front
    ∙ ap (λ j. splice (length a) j new (a ++ (b ++ moved))) middle
    ∙ splice-append a b moved new
    ∙ sym (append_assoc a new moved)
    ∙ sym (shift_from-parts (a ++ new) c (i + n) d both)
    ∙ ap (shift_from (i + n) d) (append_assoc a new c)

-- The sentinel written again.
set_sentinel : (gs : List Glyph) → set (layout gs) (span gs) (size gs) ≡ layout gs
set_sentinel gs =
    ap (λ k. set (layout gs) k (size gs)) (sym (length-entries 0 gs))
    ∙ set-append (entries 0 gs) [] (size gs) (size gs)

module _ {c : Cells} (ls mid rs : List Glyph) where
  replace_run-IsLaid :
      (text widths : List ℕ) (col end total : ℕ)
      → IsLaid c (ls ++ (mid ++ rs))
      → IsRun text widths total
      → col ≡ span ls
      → end ≡ col + total
      → span mid ≡ total
      → size ls + length text + size rs ≤ 32767
      → IsLaid (replace_run col text widths end c) (ls ++ (run_glyphs text widths ++ rs))
  unfolding replace_run shift_columns_from
  replace_run-IsLaid text widths col end total h run at at_end wide fits =
      let new = run_glyphs text widths in
      let gs2 = ls ++ (new ++ rs) in
      let a = size-append ls (mid ++ rs) in
      let b = size-append mid rs in
      let room = h.room in
      let p = span-append ls (mid ++ rs) in
      let q = span-append mid rs in
      let narrow = h.narrow in
      let a2 = size-append ls (new ++ rs) in
      let b2 = size-append new rs in
      let p2 = span-append ls (new ++ rs) in
      let q2 = span-append new rs in
      let new_span = span-run_glyphs text widths total run in
      let new_size = size-run_glyphs text widths run.same_length in
      let new_text = text_of-run_glyphs text widths run.same_length in
      let n = length text in
      let joined : IsLaid c ((ls ++ mid) ++ rs) = rw (append_assoc ls mid rs) h in
      let behind : span (ls ++ mid) ≡ end = omega (arith, span-append ls mid) in
      let start : col_offset c col ≡ size ls =
        ap (col_offset c) at ∙ (at_start ls (mid ++ rs) h).0 in
      let stop : col_offset c end ≡ size ls + size mid =
        ap (col_offset c) (sym behind) ∙ (at_start (ls ++ mid) rs joined).0 ∙ size-append ls mid in
      let old_len : size ls + size mid - size ls ≡ size mid = omega arith in
      let whole : to_u16 n ≡ n = omega arith in
      let d = minus16 n (size mid) in
      let len = ap length h.columns_eq ∙ length-layout (ls ++ (mid ++ rs)) in
      let moved = shift_from end d c.columns in
      let moved_len = length-shift_from end d c.columns in
      let text2 = splice (size ls) (size mid) text c.text in
      let columns2 =
        shift_from end d (splice (span ls) (span mid) (entries (size ls) new) c.columns) in
      let c2 = record c { text = text2; columns = columns2; single_width_layout = false } in
      let laid2 : IsLaid c2 gs2 =
        replaced-IsLaid ls mid rs new c c2 d end h h.unfilled refl
          (ap (λ t. splice (size ls) (size mid) t c.text) (sym new_text)) refl (new_span ∙ sym wide)
          (omega arith) (omega arith) (omega arith) in
      let written : store_run col (size ls) text widths moved ≡ columns2 =
        store_run-splice text widths col (size ls) total moved run (omega arith) (omega arith)
          (omega arith)
        ∙ ap (λ k. splice col total (entries (size ls) new) (shift_from k d c.columns)) at_end
        ∙ shift_from-splice col total d (entries (size ls) new) c.columns
            (length-entries (size ls) new ∙ new_span) (omega arith)
        ∙ ap (λ k. shift_from k d (splice col total (entries (size ls) new) c.columns)) (sym at_end)
        ∙ ap (λ k. shift_from end d (splice k total (entries (size ls) new) c.columns)) at
        ∙ ap (λ k. shift_from end d (splice (span ls) k (entries (size ls) new) c.columns))
            (sym wide) in
      let text_len : length text2 ≡ size gs2 = ap length laid2.text_eq ∙ length-text_of gs2 in
      let sentinel : to_u16 (length text2) ≡ size gs2 = let r = laid2.room in omega arith in
      let w : width c ≡ span gs2 = width-laid h ∙ omega arith in
      let kept : set columns2 (span gs2) (size gs2) ≡ columns2 =
        ap (λ es. set es (span gs2) (size gs2)) laid2.columns_eq
        ∙ set_sentinel gs2
        ∙ sym laid2.columns_eq in
      rw (start, stop, old_len, whole, take_all text n refl, written, sentinel, w, kept) laid2

pub write_generic-IsLaid :
    (r : Row) (gs : List Glyph) (col total attr : ℕ) (text widths : List ℕ)
    → IsLaid r.cells gs
    → IsRun text widths total
    → col + total ≤ span gs
    → size gs + 2 * span gs + length text ≤ 32767
    → IsLaid
        (write_generic col text widths total attr r).cells
        (put col (col + total) (run_glyphs text widths) gs)
unfolding write_generic
write_generic-IsLaid r gs col total attr text widths h run le fits =
    let w = span-cut col gs in
    let narrow = h.narrow in
    let more = size-cut col gs in
    let more2 = size-cut (col + total) (cut col gs) in
    let one = blank_glyph_cut_at-IsLaid r.cells gs col h (omega arith) (omega arith) in
    let two =
      blank_glyph_cut_at-IsLaid _ (cut col gs) (col + total) one (omega arith) (omega arith) in
    let a = around gs col total le in
    let whole = ap size a.whole in
    let s = size-append a.front (a.middle ++ a.back) in
    let t = size-append a.middle a.back in
    let parts : IsLaid (blank_glyph_cut_at (col + total) (blank_glyph_cut_at col r.cells))
        (a.front ++ (a.middle ++ a.back)) =
      rw (← a.whole) two in
    let end : to_u16 (col + total) ≡ col + total = omega arith in
    rw (put-around a (run_glyphs text widths), end)
      (replace_run-IsLaid a.front a.middle a.back text widths col (col + total) total parts run
        (sym a.at) refl a.wide (omega arith))
