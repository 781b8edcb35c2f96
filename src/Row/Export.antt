-- ===== src/Row/Export.antt =====
-- New rows, and the flags of wide glyphs that `to_char_info` gives.
use corehost.Base.{
  ℕ, zero, suc, ◌+◌, ◌-◌, ◌≤◌, ◌<◌, ◌≡◌, refl, sym, ap, ◌∙◌, true, false, ◌&&◌, ◌||◌, List, [], ◌∷◌,
  ◌++◌, arith, ltb, ◌==◌, if◌then◌else◌, length, length-append, length-take, length-replicate, take,
  replicate, if_true, if_false, Bool-cases, inl, inr, lt_cases,
}
use corehost.Row.{Row, Cells, width, is_trailing, dbcs_flags, default_attr, attr_at}
use corehost.Row.Write.{reset_fill}
use corehost.Row.Layout.{Glyph, singles, span, span-append}
use corehost.Row.Replace.{span-singles, size-singles}
use corehost.Row.Laid.{IsLaid, at_start, at_trailing}
use corehost.Row.Cut.{Place, place}
use corehost.Row.Shows.{Shows, laid, width-shown}
use corehost.Row.Read.{width_at, width_at_glyph, width_at-singles}
use corehost.Row.Colors.{IsColored, attr_at-column}
use corehost.Row.Attrs.{column_attr-uniform}

-- reset_fill, whatever the row was: a row of the width that shows one character in every column k,
-- with the attribute in each; all its attributes are stored as IsColored asks.
pub reset_fill-Shows :
    (row_width cp attr k : ℕ) (r : Row)
    → row_width ≤ 32767
    → k < row_width
    → Shows (reset_fill row_width cp attr r).cells (singles (replicate row_width cp))
      × (attr_at (reset_fill row_width cp attr r) k ≡ attr)
      × IsColored (reset_fill row_width cp attr r)
unfolding reset_fill width
reset_fill-Shows row_width cp attr k r h less =
    let cps = replicate row_width cp in
    let n = length-replicate row_width cp in
    let w = span-singles cps in
    let z = size-singles cps in
    let cs = r.cells.columns in
    let vs = r.attributes.values in
    let lc = length-append (take (row_width + 1) cs) (replicate (row_width + 1 - length cs) 0) in
    let lv = length-append (take row_width vs) (replicate (row_width - length vs) default_attr) in
    let a = length-take (row_width + 1) cs in
    let b = length-replicate {A = ℕ} (row_width + 1 - length cs) 0 in
    let c = length-take row_width vs in
    let d = length-replicate {A = ℕ} (row_width - length vs) default_attr in
    let same : row_width ≡ span (singles cps) = sym (w ∙ n) in
    (
      record {
        columns_width = omega arith;
        room = omega arith;
        narrow = omega arith;
        as_filled = λ e. ap (λ k. singles (replicate k cp)) same;
        as_singles = λ e s. absurd (ground arith);
        as_columns = λ e s. absurd (ground arith);
      },
      attr_at-column (reset_fill row_width cp attr r) k (omega arith)
          ∙ column_attr-uniform (reset_fill row_width cp attr r).attributes k refl,
      record { values_width = omega arith; filled_uniform = λ e. (refl, refl) },
    )

-- A column is trailing exactly where the glyph that covers it starts before it.
is_trailing-laid :
    (c : Cells) (gs : List Glyph) (col : ℕ)
    → IsLaid c gs
    → col < span gs
    → is_trailing c col ≡ (width_at gs col == 0)
is_trailing-laid c gs col h less = at_place h less (place gs col (omega arith))
  where
    at_place :
        {gs : List Glyph} {col : ℕ}
        → IsLaid c gs
        → col < span gs
        → Place gs col
        → is_trailing c col ≡ (width_at gs col == 0)
    at_place h less (Place.boundary ls [] e at) =
        absurd (omega (arith, ap span e, span-append ls []))
    at_place h less (Place.boundary ls (g ∷ rs) e at) =
        let h2 : IsLaid c (ls ++ (g ∷ rs)) = rw (← e) h in
        let none : span ls ≡ span ls + 0 = omega arith in
        let wide : width_at (ls ++ (g ∷ rs)) (span ls) ≡ suc g.extra =
          ap (width_at (ls ++ (g ∷ rs))) none ∙ width_at_glyph ls (g ∷ rs) 0 in
        rw (at, e, wide) ((at_start ls (g ∷ rs) h2).1 ∙ ground arith)
    at_place h less (Place.inside ls rs g i e at inside) =
        let h2 : IsLaid c (ls ++ (g ∷ rs)) = rw (← e) h in
        let next : suc (span ls + i) ≡ span ls + suc i = omega arith in
        let narrow : ltb i g.extra ≡ true = ground arith in
        let none : width_at (ls ++ (g ∷ rs)) (suc (span ls + i)) ≡ 0 =
          ap (width_at (ls ++ (g ∷ rs))) next
          ∙ width_at_glyph ls (g ∷ rs) (suc i)
          ∙ if_true _ _ narrow in
        rw (at, e, none) (at_trailing ls rs g i h2 inside).1

is_trailing-Shows :
    (c : Cells) (gs : List Glyph) (col : ℕ)
    → Shows c gs
    → col < span gs
    → is_trailing c col ≡ (width_at gs col == 0)
unfolding is_trailing
is_trailing-Shows c gs col h less = elim (Bool-cases c.filled) [
  | inl e ↦
      let g = h.as_filled e in
      let flat : c.filled || c.single_width_layout ≡ true = ground arith in
      let n = length-replicate (span gs) c.fill_char in
      let one =
        ap (λ k. width_at k col) g
        ∙ width_at-singles (replicate (span gs) c.fill_char) col (omega arith) in
      if_true _ _ flat ∙ rw one refl
  | inr e ↦ elim (Bool-cases c.single_width_layout) [
    | inl s ↦
        let g = h.as_singles e s in
        let flat : c.filled || c.single_width_layout ≡ true = ground arith in
        let n = ap span g ∙ span-singles c.text in
        let one = ap (λ k. width_at k col) g ∙ width_at-singles c.text col (omega arith) in
        if_true _ _ flat ∙ rw one refl
    | inr s ↦ is_trailing-laid c gs col (laid h e s) less
  ]
]

starts_wide : (gs : List Glyph) → 0 < span gs → 1 ≤ width_at gs 0
starts_wide [] h = absurd (omega arith)
starts_wide (g ∷ gs) h = omega arith

-- Behind the first column of a glyph is one where it goes on, if it is wide.
next_column :
    (gs : List Glyph) (col : ℕ)
    → col < span gs
    → 1 ≤ width_at gs col
    → (ltb (suc col) (span gs) && (width_at gs (suc col) == 0)) ≡ ltb 1 (width_at gs col)
next_column [] col less starts = absurd (omega arith)
next_column (g ∷ gs) zero less starts = elim (lt_cases 0 g.extra) [
  | inl wide ↦ let t : ltb 0 g.extra ≡ true = ground arith in rw t (ground arith)
  | inr narrow ↦
      let f : ltb 0 g.extra ≡ false = ground arith in
      let z : 0 - g.extra ≡ 0 = omega arith in
      rw (f, z)
        (elim (lt_cases 0 (span gs)) [
          | inl more ↦ let s = starts_wide gs more in ground arith
          | inr none ↦ ground arith
        ])
]
next_column (g ∷ gs) (suc col) less starts = elim (lt_cases col g.extra) [
  | inl inside ↦
      let t : ltb col g.extra ≡ true = ground arith in
      let none : width_at (g ∷ gs) (suc col) ≡ 0 = if_true _ _ t in absurd (omega arith)
  | inr behind ↦
      let f : ltb col g.extra ≡ false = ground arith in
      let f2 : ltb (suc col) g.extra ≡ false = ground arith in
      let own : width_at (g ∷ gs) (suc col) ≡ width_at gs (col - g.extra) = if_false _ _ f in
      let m : suc col - g.extra ≡ suc (col - g.extra) = omega arith in
      let more = next_column gs (col - g.extra) (omega arith) (omega arith) in
      let same : ltb (suc (suc col)) (span (g ∷ gs)) ≡ ltb (suc (col - g.extra)) (span gs) =
        ground arith in
      rw (own, f2, m, same) more
]

-- COMMON_LVB_TRAILING_BYTE marks the columns of a row where a wide glyph goes on, and
-- COMMON_LVB_LEADING_BYTE the columns before such a one where a glyph starts; others have none.
pub dbcs_flags-Shows :
    (c : Cells) (gs : List Glyph) (col : ℕ)
    → Shows c gs
    → col < span gs
    → dbcs_flags c col
      ≡ (if width_at gs col == 0 then 512 else if ltb 1 (width_at gs col) then 256 else 0)
unfolding dbcs_flags
dbcs_flags-Shows c gs col h less =
    let w = width-shown h in
    let here = is_trailing-Shows c gs col h less in
    let next : col + 1 ≡ suc col = omega arith in
    rw here (elim (lt_cases 0 (width_at gs col)) [
      | inr goes_on ↦ ground arith
      | inl starts ↦
          let n = next_column gs col less starts in
          let same : ltb (col + 1) (width c) && is_trailing c (col + 1) ≡ ltb 1 (width_at gs col) =
            elim (lt_cases (suc col) (span gs)) [
              | inl more ↦ let t = is_trailing-Shows c gs (suc col) h more in rw (next, t, w) n
              | inr last ↦
                  let f : ltb (suc col) (width c) ≡ false = ground arith in
                  rw (next, f)
                    (let f2 : ltb (suc col) (span gs) ≡ false = ground arith in ground arith)
            ] in
          rw same refl
    ])
