-- ===== src/Row/Match.antt =====
-- `try_overwrite_matching_measured_run`.
use corehost.Base.{
  ℕ, zero, suc, ◌+◌, ◌-◌, ◌≤◌, ◌<◌, ◌≡◌, refl, sym, ap, ◌∙◌, true, false, List, [], ◌∷◌, ◌++◌,
  Option, none, some, arith, length, splice, append_assoc, inl, inr, lt_cases, le_cases,
}
use mathlib.Core.Path.{subst}
use corehost.Row.{Row, Cells, width, col_offset, is_trailing}
use corehost.Row.Run.{all_trailing, matching_end, matches_layout, is_at, overwrite_matching, to_u16}
use corehost.Row.Layout.{Glyph, span, size, put, span-append, size-append}
use corehost.Row.Laid.{IsLaid, width-laid, at_start, at_end, at_trailing}
use corehost.Row.Cut.{Place, place}
use corehost.Row.Put.{put_whole}
use corehost.Row.Store.{run_glyphs, IsRun, span-run_glyphs, size-run_glyphs, text_of-run_glyphs}
use corehost.Row.Alike.{Alike-nil, overwritten-IsLaid, Found, Found-cons}

all_trailing_at :
    (n i cell o : ℕ) (c : Cells)
    → all_trailing n cell o c ≡ true
    → i < n
    → is_trailing c (cell + i) ≡ true
unfolding all_trailing
all_trailing_at zero i cell o c h less = absurd (omega arith)
all_trailing_at (suc n) zero cell o c h less =
    let e : cell + 0 ≡ cell = omega arith in rw e (ground arith)
all_trailing_at (suc n) (suc i) cell o c h less =
    let e : cell + suc i ≡ suc cell + i = omega arith in
    rw e (all_trailing_at n i (suc cell) o c (ground arith) (omega arith))

-- What one round of the loop has tested.
record IsRound (cell o x w e : ℕ) (text widths : List ℕ) (c : Cells) : Type 0 where
  inside : cell < width c
  here : col_offset c cell ≡ o
  wide : 1 ≤ w
  fits : cell + w ≤ width c
  trailing : all_trailing (w - 1) (cell + 1) o c ≡ true
  goes_on : matching_end (to_u16 (cell + w)) (o + 1) text widths c ≡ some e

round :
    (cell o x w e : ℕ) (text widths : List ℕ) (c : Cells)
    → matching_end cell o (x ∷ text) (w ∷ widths) c ≡ some e
    → IsRound cell o x w e text widths c
unfolding matching_end
round cell o x w e text widths c h = record {
  inside = ground arith;
  here = ground arith;
  wide = ground arith;
  fits = ground arith;
  trailing = ground arith;
  goes_on = ground arith;
}

-- The offset where a round starts is the one that is expected there.
match_here :
    (text widths : List ℕ) (cell o e : ℕ) (c : Cells)
    → matching_end cell o text widths c ≡ some e
    → col_offset c e ≡ o + length text
    → col_offset c cell ≡ o
unfolding matching_end
match_here [] widths cell o e c h end =
    let same : cell ≡ e = cc h in ap (col_offset c) same ∙ end ∙ omega arith
match_here (x ∷ text) [] cell o e c h end = absurd (ground arith)
match_here (x ∷ text) (w ∷ widths) cell o e c h end = (round cell o x w e text widths c h).here

no_widths :
    (x cell o e : ℕ) (text : List ℕ) (c : Cells)
    → matching_end cell o (x ∷ text) [] c ≡ some e
    → 1 ≤ 0
unfolding matching_end
no_widths x cell o e text c h = absurd (ground arith)

-- A glyph that passes a round, with the next glyph where it is expected, is as wide as the width.
exactly_wide :
    (c : Cells) (ls gs : List Glyph) (g : Glyph) (w : ℕ)
    → IsLaid c (ls ++ (g ∷ gs))
    → all_trailing (w - 1) (span ls + 1) (size ls) c ≡ true
    → 1 ≤ w
    → col_offset c (span ls + w) ≡ size ls + 1
    → g.extra ≡ w - 1
exactly_wide c ls gs g w h t wide here = elim (lt_cases g.extra (w - 1)) [
  | inl less ↦
      let behind : span ls + 1 + g.extra ≡ suc (span ls + g.extra) = omega arith in
      let a : is_trailing c (suc (span ls + g.extra)) ≡ true =
        rw (← behind) (all_trailing_at (w - 1) g.extra (span ls + 1) (size ls) c t less) in
      let b = (at_end ls gs g h).1 in absurd (ground arith)
  | inr more ↦ elim (le_cases (w - 1) g.extra more) [
    | inl e ↦ sym e
    | inr less ↦
        let next : suc (span ls + (w - 1)) ≡ span ls + w = omega arith in
        let a = (at_trailing ls gs g (w - 1) h less).0 in
        let b : col_offset c (span ls + w) ≡ size ls = rw (← next) a in absurd (omega arith)
  ]
]

-- The loop accepts only glyphs of one code point each, as wide as the run's.
Found-match :
    (text widths : List ℕ) (c : Cells) (ls gs : List Glyph) (e : ℕ)
    → IsLaid c (ls ++ gs)
    → matching_end (span ls) (size ls) text widths c ≡ some e
    → col_offset c e ≡ size ls + length text
    → Found gs (run_glyphs text widths)
Found-match [] widths c ls gs e h m end = record {
  middle = [];
  back = gs;
  parts = refl;
  alike = Alike-nil;
}
Found-match (x ∷ text) [] c ls gs e h m end =
    absurd (let z = no_widths x (span ls) (size ls) e text c m in omega arith)
Found-match (x ∷ text) (w ∷ widths) c ls [] e h m end =
    let r = round (span ls) (size ls) x w e text widths c m in
    absurd (omega (arith, r.inside, width-laid h, span-append ls []))
Found-match (x ∷ text) (w ∷ widths) c ls (g ∷ gs) e h m end =
    let r = round (span ls) (size ls) x w e text widths c m in
    let wide = r.wide in
    let fits = r.fits in
    let total = width-laid h in
    let narrow = h.narrow in
    let p = span-append ls (g ∷ gs) in
    let next : to_u16 (span ls + w) ≡ span ls + w = omega arith in
    let goes_on : matching_end (span ls + w) (size ls + 1) text widths c ≡ some e =
      rw (← next) r.goes_on in
    let end2 : col_offset c e ≡ size ls + 1 + length text = end ∙ omega arith in
    let here = match_here text widths (span ls + w) (size ls + 1) e c goes_on end2 in
    let extra = exactly_wide c ls gs g w h r.trailing wide here in
    let behind : suc (span ls + g.extra) ≡ span ls + w = omega arith in
    let stop : col_offset c (span ls + w) ≡ size ls + length g.text =
      rw (← behind) (at_end ls gs g h).0 in
    let one : length g.text ≡ 1 = omega arith in
    let ls2 = ls ++ (g ∷ []) in
    let next_laid : IsLaid c (ls2 ++ gs) = rw (append_assoc ls (g ∷ []) gs) h in
    let at : span ls2 ≡ span ls + w = omega (arith, span-append ls (g ∷ [])) in
    let offset : size ls2 ≡ size ls + 1 = omega (arith, size-append ls (g ∷ [])) in
    let next_end : matching_end (span ls2) (size ls2) text widths c ≡ some e =
      rw (at, offset) goes_on in
    let next_stop : col_offset c e ≡ size ls2 + length text = rw offset end2 in
    Found-cons g (record { text = x ∷ []; extra = w - 1 }) gs (run_glyphs text widths) one extra
      (Found-match text widths c ls2 gs e next_laid next_end next_stop)

-- What the guards of the function tell.
record IsMatch (col total : ℕ) (text widths : List ℕ) (c : Cells) : Type 0 where
  unflagged : is_trailing c col ≡ false
  end : ℕ
  found : matching_end col (col_offset c col) text widths c ≡ some end
  stop : col_offset c end ≡ col_offset c col + length text

is_at-eq : (o : Option ℕ) (n : ℕ) → is_at o n ≡ true → o ≡ some n
is_at-eq none n h = absurd (ground arith)
is_at-eq (some m) n h = ap some (ground arith)

IsMatch-guards :
    (col total : ℕ) (text widths : List ℕ) (c : Cells)
    → matches_layout col text widths total c ≡ true
    → IsMatch col total text widths c
unfolding matches_layout
IsMatch-guards col total text widths c h = record {
  unflagged = ground arith;
  end = to_u16 (col + total);
  found = is_at-eq _ _ (ground arith);
  stop = ground arith;
}

-- Where the layouts match, the text alone is written, and that is the run.
pub overwrite_matching-IsLaid :
    (r : Row) (gs : List Glyph) (col total attr : ℕ) (text widths : List ℕ)
    → IsLaid r.cells gs
    → IsRun text widths total
    → col + total ≤ span gs
    → matches_layout col text widths total r.cells ≡ true
    → IsLaid
        (overwrite_matching col text total attr r).cells
        (put col (col + total) (run_glyphs text widths) gs)
unfolding overwrite_matching
overwrite_matching-IsLaid r gs col total attr text widths h run le m =
    at_place h le (IsMatch-guards col total text widths r.cells m) (place gs col (omega arith))
  where
    at_place :
        {gs : List Glyph} {col : ℕ}
        → IsLaid r.cells gs
        → col + total ≤ span gs
        → IsMatch col total text widths r.cells
        → Place gs col
        → IsLaid
            (record r.cells {
              text = splice (col_offset r.cells col) (length text) text r.cells.text;
            })
            (put col (col + total) (run_glyphs text widths) gs)
    at_place h le m (Place.boundary ls rs e at) =
        let c = r.cells in
        let new = run_glyphs text widths in
        let h2 : IsLaid c (ls ++ rs) = rw (← e) h in
        let start : col_offset c (span ls) ≡ size ls = (at_start ls rs h2).0 in
        let m2 : IsMatch (span ls) total text widths c = rw (← at) m in
        let found : matching_end (span ls) (size ls) text widths c ≡ some m2.end =
          ap (λ k. matching_end (span ls) k text widths c) (sym start) ∙ m2.found in
        let stop : col_offset c m2.end ≡ size ls + length text =
          m2.stop ∙ ap (◌+ length text) start in
        let f = Found-match text widths c ls rs m2.end h2 found stop in
        let shape = e ∙ ap (ls ++◌) f.parts in
        let h3 : IsLaid c (ls ++ (f.middle ++ f.back)) = rw (← shape) h in
        let wide : total ≡ span f.middle =
          sym (span-run_glyphs text widths total run) ∙ sym f.alike.same_span in
        let long : size f.middle ≡ length text =
          f.alike.same_size ∙ size-run_glyphs text widths run.same_length in
        let shown =
          ap (put (span ls) (span ls + total) new) shape
          ∙ ap (λ k. put (span ls) (span ls + k) new (ls ++ (f.middle ++ f.back))) wide
          ∙ put_whole ls f.middle f.back new in
        let written =
          overwritten-IsLaid c ls f.middle new f.back text h3 f.alike
            (sym (text_of-run_glyphs text widths run.same_length)) in
        let placed : IsLaid
            (record c { text = splice (col_offset c (span ls)) (length text) text c.text })
            (ls ++ (new ++ f.back)) =
          subst
            (λ k.
              IsLaid (record c { text = splice k (length text) text c.text })
                (ls ++ (new ++ f.back)))
            (sym start)
            (subst
              (λ k.
                IsLaid (record c { text = splice (size ls) k text c.text }) (ls ++ (new ++ f.back)))
              long written) in
        rw (at, shown) placed
    at_place h le m (Place.inside ls rs g i e at less) =
        let h2 : IsLaid r.cells (ls ++ (g ∷ rs)) = rw (← e) h in
        let t = (at_trailing ls rs g i h2 less).1 in
        let f : is_trailing r.cells (suc (span ls + i)) ≡ false = rw (← at) m.unflagged in
        absurd (ground arith)
