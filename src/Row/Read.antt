-- ===== src/Row/Read.antt =====
-- The readers of a row in each of its forms, against the glyphs that it shows.
use corehost.Base.{
  ℕ, zero, suc, ◌+◌, ◌-◌, ◌≤◌, ◌<◌, ◌≡◌, refl, sym, ap, ◌∙◌, true, false, ◌||◌, List, [], ◌∷◌, ◌++◌,
  arith, leb, ltb, if◌then◌else◌, length, take, drop, min, take-append_length, drop-append_length,
  replicate, length-replicate, if_true, if_false, Bool-cases, inl, inr, lt_cases,
}
use corehost.Row.{Cells, width, col_offset, is_trailing, glyph_end, slice, glyph_at, glyph_width}
use corehost.Row.Layout.{
  Glyph, singles, span, size, text_of, size-append, span-append, length-text_of, text_of-append,
}
use corehost.Row.Replace.{span-singles}
use corehost.Row.Laid.{IsLaid, width-laid, at_start, at_end, at_trailing, glyph_end-laid}
use corehost.Row.Cut.{Place, place}
use corehost.Row.Shows.{Shows, laid, width-shown}

-- The text of the glyph that covers a column.
abbrev pub text_at : List Glyph → ℕ → List ℕ
text_at [] col = []
text_at (g ∷ gs) col = if leb col g.extra then g.text else text_at gs (col - suc g.extra)

-- The columns of the glyph that starts in a column, 0 where none does.
abbrev pub width_at : List Glyph → ℕ → ℕ
width_at [] col = 0
width_at (g ∷ gs) zero = suc g.extra
width_at (g ∷ gs) (suc col) = if ltb col g.extra then 0 else width_at gs (col - g.extra)

text_at_glyph :
    (ls rs : List Glyph) (g : Glyph) (i : ℕ)
    → i ≤ g.extra
    → text_at (ls ++ (g ∷ rs)) (span ls + i) ≡ g.text
text_at_glyph [] rs g i h =
    let e : 0 + i ≡ i = omega arith in let t : leb i g.extra ≡ true = ground arith in rw (e, t) refl
text_at_glyph (f ∷ ls) rs g i h =
    let n = span (f ∷ ls) + i in
    let t : leb n f.extra ≡ false = ground arith in
    let m : n - suc f.extra ≡ span ls + i = omega arith in rw (t, m) (text_at_glyph ls rs g i h)

pub text_at_past : (gs : List Glyph) (col : ℕ) → span gs ≤ col → text_at gs col ≡ []
text_at_past [] col h = refl
text_at_past (g ∷ gs) col h =
    let f : leb col g.extra ≡ false = ground arith in
    rw f (text_at_past gs (col - suc g.extra) (omega arith))

pub width_at_glyph :
    (ls rs : List Glyph) (col : ℕ) → width_at (ls ++ rs) (span ls + col) ≡ width_at rs col
width_at_glyph [] rs col = let e : 0 + col ≡ col = omega arith in rw e refl
width_at_glyph (g ∷ ls) rs col =
    let e : span (g ∷ ls) + col ≡ suc (g.extra + (span ls + col)) = omega arith in
    let f : ltb (g.extra + (span ls + col)) g.extra ≡ false = ground arith in
    let m : g.extra + (span ls + col) - g.extra ≡ span ls + col = omega arith in
    rw (e, f, m) (width_at_glyph ls rs col)

pub width_at_past : (gs : List Glyph) (col : ℕ) → span gs ≤ col → width_at gs col ≡ 0
width_at_past [] col h = refl
width_at_past (g ∷ gs) zero h = absurd (omega arith)
width_at_past (g ∷ gs) (suc col) h =
    let f : ltb col g.extra ≡ false = ground arith in
    rw f (width_at_past gs (col - g.extra) (omega arith))

-- The two of a row of single columns.
text_at-singles : (t : List ℕ) (col : ℕ) → text_at (singles t) col ≡ take 1 (drop col t)
text_at-singles [] zero = refl
text_at-singles [] (suc col) = refl
text_at-singles (x ∷ t) zero = refl
text_at-singles (x ∷ t) (suc col) =
    let m : suc col - 1 ≡ col = omega arith in
    let f : leb (suc col) 0 ≡ false = ground arith in rw (f, m) (text_at-singles t col)

pub width_at-singles : (t : List ℕ) (col : ℕ) → col < length t → width_at (singles t) col ≡ 1
width_at-singles [] col h = absurd (omega arith)
width_at-singles (x ∷ t) zero h = refl
width_at-singles (x ∷ t) (suc col) h =
    let f : ltb col 0 ≡ false = ground arith in
    let m : col - 0 ≡ col = omega arith in rw (f, m) (width_at-singles t col (omega arith))

slice_middle :
    (xs ys zs : List ℕ) → slice (length xs) (length xs + length ys) (xs ++ (ys ++ zs)) ≡ ys
unfolding slice
slice_middle xs [] zs = let t : leb (length xs + 0) (length xs) ≡ true = ground arith in rw t refl
slice_middle xs (y ∷ ys) zs =
    let f : leb (length xs + suc (length ys)) (length xs) ≡ false = ground arith in
    let n : length xs + suc (length ys) - length xs ≡ suc (length ys) = omega arith in
    rw (f, n, drop-append_length xs ((y ∷ ys) ++ zs)) (take-append_length (y ∷ ys) zs)

one_of : (n x col : ℕ) → col < n → take 1 (drop col (replicate n x)) ≡ x ∷ []
one_of zero x col h = absurd (omega arith)
one_of (suc n) x zero h = refl
one_of (suc n) x (suc col) h = one_of n x col (omega arith)

-- The two readers of a row with explicit columns.
module _ {c : Cells} {gs : List Glyph} (col : ℕ) where
  not_past : IsLaid c gs → col < span gs → leb (width c) col ≡ false
  not_past h less = let w = width-laid h in ground arith

  glyph_at_explicit :
      IsLaid c gs
      → col < span gs
      → glyph_at c col
        ≡ slice (col_offset c col) (min (col_offset c (glyph_end c col)) (length c.text)) c.text
  unfolding glyph_at
  glyph_at_explicit h less =
      if_false _ _ (not_past h less) ∙ if_false _ _ h.unfilled ∙ if_false _ _ h.explicit

  glyph_width_explicit :
      IsLaid c gs
      → col < span gs
      → glyph_width c col ≡ (if is_trailing c col then 0 else glyph_end c col - col)
  unfolding glyph_width
  glyph_width_explicit h less =
      let e = h.unfilled in
      let f = h.explicit in
      if_false _ _ (not_past h less)
      ∙ if_false {b = c.filled || c.single_width_layout} _ _ (ground arith)

module _ {c : Cells} (ls rs : List Glyph) (g : Glyph) (i : ℕ) where
  glyph_at_glyph :
      IsLaid c (ls ++ (g ∷ rs))
      → i ≤ g.extra
      → col_offset c (span ls + i) ≡ size ls
      → glyph_at c (span ls + i) ≡ g.text
  glyph_at_glyph h le start =
      let p = span-append ls (g ∷ rs) in
      let parts = h.text_eq ∙ text_of-append ls (g ∷ rs) in
      let l = ap length h.text_eq ∙ length-text_of (ls ++ (g ∷ rs)) in
      let s = size-append ls (g ∷ rs) in
      let m : min (size ls + length g.text) (length c.text) ≡ size ls + length g.text =
        omega arith in
      let k = length-text_of ls in
      let end = glyph_end-laid ls rs g i h le in
      let stop = (at_end ls rs g h).0 in
      glyph_at_explicit (span ls + i) h (omega arith)
      ∙ rw (start, end, stop, m)
          (ap (slice (size ls) (size ls + length g.text)) parts
            ∙ ap (λ n. slice n (n + length g.text) (text_of ls ++ (g.text ++ text_of rs))) (sym k)
            ∙ slice_middle (text_of ls) g.text (text_of rs))

-- What glyph_at and glyph_width tell of a row with explicit columns.
readers-laid :
    (c : Cells) (gs : List Glyph) (col : ℕ)
    → IsLaid c gs
    → col < span gs
    → (glyph_at c col ≡ text_at gs col) × (glyph_width c col ≡ width_at gs col)
readers-laid c gs col h less = at_place h less (place gs col (omega arith))
  where
    at_place :
        {gs : List Glyph} {col : ℕ}
        → IsLaid c gs
        → col < span gs
        → Place gs col
        → (glyph_at c col ≡ text_at gs col) × (glyph_width c col ≡ width_at gs col)
    at_place h less (Place.boundary ls [] e at) =
        absurd (omega (arith, ap span e, span-append ls []))
    at_place h less (Place.boundary ls (g ∷ rs) e at) =
        let h2 : IsLaid c (ls ++ (g ∷ rs)) = rw (← e) h in
        let p = span-append ls (g ∷ rs) in
        let none : span ls + 0 ≡ span ls = omega arith in
        let s = at_start ls (g ∷ rs) h2 in
        let start = ap (col_offset c) none ∙ s.0 in
        let flag = ap (is_trailing c) none ∙ s.1 in
        let end = glyph_end-laid ls rs g 0 h2 (omega arith) in
        rw (at ∙ sym none, e)
          (
            glyph_at_glyph ls rs g 0 h2 (omega arith) start
                ∙ sym (text_at_glyph ls rs g 0 (omega arith)),
            glyph_width_explicit (span ls + 0) h2 (omega arith)
                ∙ if_false _ _ flag
                ∙ rw end (omega arith)
                ∙ sym (width_at_glyph ls (g ∷ rs) 0),
          )
    at_place h less (Place.inside ls rs g i e at inside) =
        let h2 : IsLaid c (ls ++ (g ∷ rs)) = rw (← e) h in
        let p = span-append ls (g ∷ rs) in
        let next : span ls + suc i ≡ suc (span ls + i) = omega arith in
        let t = at_trailing ls rs g i h2 inside in
        let start = ap (col_offset c) next ∙ t.0 in
        let flag = ap (is_trailing c) next ∙ t.1 in
        let narrow : ltb i g.extra ≡ true = ground arith in
        rw (at ∙ sym next, e)
          (
            glyph_at_glyph ls rs g (suc i) h2 (omega arith) start
                ∙ sym (text_at_glyph ls rs g (suc i) (omega arith)),
            glyph_width_explicit (span ls + suc i) h2 (omega arith)
                ∙ if_true _ _ flag
                ∙ sym (width_at_glyph ls (g ∷ rs) (suc i) ∙ if_true _ _ narrow),
          )

-- Whatever form a row has, glyph_at and glyph_width tell of each column the glyphs it shows: the
-- text of the glyph that covers the column, and its width where it starts there.
pub readers-Shows :
    (c : Cells) (gs : List Glyph) (col : ℕ)
    → Shows c gs
    → (glyph_at c col ≡ text_at gs col) × (glyph_width c col ≡ width_at gs col)
unfolding glyph_at glyph_width
readers-Shows c gs col h = elim (lt_cases col (span gs)) [
  | inr past ↦
      let t : leb (width c) col ≡ true = let w = width-shown h in ground arith in
      (
        if_true _ _ t ∙ sym (text_at_past gs col past),
        if_true _ _ t ∙ sym (width_at_past gs col past),
      )
  | inl less ↦
      let f : leb (width c) col ≡ false = let w = width-shown h in ground arith in
      elim (Bool-cases c.filled) [
        | inl e ↦
            let g = h.as_filled e in
            let cps = replicate (span gs) c.fill_char in
            let n = length-replicate (span gs) c.fill_char in
            let flat : c.filled || c.single_width_layout ≡ true = ground arith in
            (
              if_false _ _ f
                  ∙ if_true _ _ e
                  ∙ sym (
                      ap (λ k. text_at k col) g
                      ∙ text_at-singles cps col
                      ∙ one_of (span gs) c.fill_char col less),
              if_false _ _ f
                  ∙ if_true _ _ flat
                  ∙ sym (ap (λ k. width_at k col) g ∙ width_at-singles cps col (omega arith)),
            )
        | inr e ↦ elim (Bool-cases c.single_width_layout) [
          | inl s ↦
              let g = h.as_singles e s in
              let n = ap span g ∙ span-singles c.text in
              let flat : c.filled || c.single_width_layout ≡ true = ground arith in
              (
                if_false _ _ f
                    ∙ if_false _ _ e
                    ∙ if_true _ _ s
                    ∙ sym (ap (λ k. text_at k col) g ∙ text_at-singles c.text col),
                if_false _ _ f
                    ∙ if_true _ _ flat
                    ∙ sym (ap (λ k. width_at k col) g ∙ width_at-singles c.text col (omega arith)),
              )
          | inr s ↦ readers-laid c gs col (laid h e s) less
        ]
      ]
]
