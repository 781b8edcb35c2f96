-- ===== src/Row/Cut.antt =====
-- `_blank_glyph_cut_at`: a cut glyph becomes spaces.
use corehost.Base.{
  ℕ, zero, suc, ◌+◌, ◌-◌, ◌≤◌, ◌<◌, ◌≡◌, refl, sym, ap, ◌∙◌, true, false, List, [], ◌∷◌, ◌++◌,
  arith, leb, length, replicate, length-replicate, splice, lt_cases, inl, inr,
}
use corehost.Row.{
  Cells, width, iota, shift_from, shift_columns_from, blank, blank_columns, blank_glyph_cut_at,
  minus16, count_between,
}
use corehost.Row.Layout.{Glyph, singles, span, size, entries, cut, size-append, span-append}
use corehost.Row.Replace.{
  span-singles, size-singles, text_of-singles, iota-singles, replaced-IsLaid,
}
use corehost.Row.Laid.{
  IsLaid, at_start, at_end, at_trailing, find_lead-laid, glyph_end-laid, width-laid,
}

abbrev pub blanks : ℕ → List Glyph
blanks n = singles (replicate n blank)

pub size-blanks : (n : ℕ) → size (blanks n) ≡ n
size-blanks n = size-singles (replicate n blank) ∙ length-replicate n blank

pub span-blanks : (n : ℕ) → span (blanks n) ≡ n
span-blanks n = span-singles (replicate n blank) ∙ length-replicate n blank

iota-blanks : (n v : ℕ) → v + n ≤ 65535 → iota n v ≡ entries v (blanks n)
iota-blanks n v h =
    let l = length-replicate n blank in
    ap (λ k. iota k v) (sym l) ∙ iota-singles (replicate n blank) v (omega arith)

module _ (ls rs : List Glyph) (g : Glyph) {c : Cells} where
  blank_columns-IsLaid :
      IsLaid c (ls ++ (g ∷ rs))
      → size (ls ++ (blanks (suc g.extra) ++ rs)) ≤ 32767
      → IsLaid
          (blank_columns (span ls) (suc (span ls + g.extra)) c)
          (ls ++ (blanks (suc g.extra) ++ rs))
  unfolding blank_columns shift_columns_from
  blank_columns-IsLaid h room =
      let n = suc g.extra in
      let mid = g ∷ [] in
      let s = at_start ls (g ∷ rs) h in
      let e = at_end ls rs g h in
      let count : suc (span ls + g.extra) - span ls ≡ n = omega arith in
      let len : count_between (size ls) (size ls + length g.text) ≡ size mid = ground arith in
      let new = size-append ls (blanks n ++ rs) in
      let new2 = size-append (blanks n) rs in
      let b = size-blanks n in
      let one = span-append mid rs in
      let old = size-append ls (g ∷ rs) in
      let h_room = h.room in
      let sp : span mid ≡ n = omega arith in
      let sm : size mid ≡ length g.text = omega arith in
      let d = minus16 n (minus16 (size ls + length g.text) (size ls)) in
      rw (s.0, e.0, count, len)
        (replaced-IsLaid ls mid rs (blanks n) c _ d (suc (span ls + g.extra)) h h.unfilled
          h.explicit
          (ap (λ t. splice (size ls) (size mid) t c.text)
            (sym (text_of-singles (replicate n blank))))
          (ap (λ es. shift_from (suc (span ls + g.extra)) d (splice (span ls) n es c.columns))
              (iota-blanks n (size ls) (omega arith))
            ∙ ap
                (λ k.
                  shift_from (suc (span ls + g.extra)) d
                    (splice (span ls) k (entries (size ls) (blanks n)) c.columns))
                (sym sp))
          (span-blanks n ∙ sym sp) (omega arith) (omega arith) room)

-- What the function makes of the glyphs of a row.
pub cut_before : (ls gs : List Glyph) (k : ℕ) → cut (span ls + k) (ls ++ gs) ≡ ls ++ cut k gs
cut_before [] gs k = let e : 0 + k ≡ k = omega arith in rw e
cut_before (g ∷ ls) gs k =
    let e : span (g ∷ ls) + k ≡ suc (g.extra + (span ls + k)) = omega arith in
    let t : leb g.extra (g.extra + (span ls + k)) ≡ true = ground arith in
    let m : g.extra + (span ls + k) - g.extra ≡ span ls + k = omega arith in
    rw (e, t, m) (ap (g ∷◌) (cut_before ls gs k))

pub cut_start : (ls rs : List Glyph) → cut (span ls) (ls ++ rs) ≡ ls ++ rs
cut_start ls rs =
    let e : span ls ≡ span ls + 0 = omega arith in ap (λ n. cut n (ls ++ rs)) e ∙ cut_before ls rs 0

pub cut_inside :
    (ls rs : List Glyph) (g : Glyph) (i : ℕ)
    → i < g.extra
    → cut (suc (span ls + i)) (ls ++ (g ∷ rs)) ≡ ls ++ (blanks (suc g.extra) ++ rs)
cut_inside ls rs g i h =
    let e : suc (span ls + i) ≡ span ls + suc i = omega arith in
    let f : leb g.extra i ≡ false = ground arith in
    let step : cut (suc i) (g ∷ rs) ≡ blanks (suc g.extra) ++ rs = rw f refl in
    rw e (cut_before ls (g ∷ rs) (suc i) ∙ ap (ls ++◌) step)

-- A column is a boundary between glyphs or inside of one.
pub data Place (gs : List Glyph) (col : ℕ) : Type 0 where
  boundary : (ls rs : List Glyph) → gs ≡ ls ++ rs → col ≡ span ls → Place gs col
  inside :
      (ls rs : List Glyph) (g : Glyph) (i : ℕ)
      → gs ≡ ls ++ (g ∷ rs)
      → col ≡ suc (span ls + i)
      → i < g.extra
      → Place gs col

behind : (g : Glyph) (gs : List Glyph) (n : ℕ) → Place gs n → Place (g ∷ gs) (suc (g.extra + n))
behind g gs n (Place.boundary ls rs e at) = Place.boundary (g ∷ ls) rs (ap (g ∷◌) e) (omega arith)
behind g gs n (Place.inside ls rs h i e at less) =
    Place.inside (g ∷ ls) rs h i (ap (g ∷◌) e) (omega arith) less

pub place : (gs : List Glyph) (col : ℕ) → col ≤ span gs → Place gs col
place gs zero h = Place.boundary [] gs refl refl
place [] (suc col) h = absurd (omega arith)
place (g ∷ gs) (suc col) h = elim (lt_cases col g.extra) [
  | inl less ↦ Place.inside [] gs g col refl (omega arith) less
  | inr more ↦
      let e : col ≡ g.extra + (col - g.extra) = omega arith in
      rw e (behind g gs (col - g.extra) (place gs (col - g.extra) (omega arith)))
]

blank_glyph_cut_at-boundary :
    (c : Cells) (ls rs : List Glyph) → IsLaid c (ls ++ rs) → blank_glyph_cut_at (span ls) c ≡ c
unfolding blank_glyph_cut_at
blank_glyph_cut_at-boundary c ls rs h = rw ((at_start ls rs h).1) (ground arith)

blank_glyph_cut_at-inside :
    (c : Cells) (ls rs : List Glyph) (g : Glyph) (i : ℕ)
    → IsLaid c (ls ++ (g ∷ rs))
    → i < g.extra
    → blank_glyph_cut_at (suc (span ls + i)) c ≡ blank_columns (span ls) (suc (span ls + g.extra)) c
unfolding blank_glyph_cut_at
blank_glyph_cut_at-inside c ls rs g i h less =
    let e : suc (span ls + i) ≡ span ls + suc i = omega arith in
    let p = span-append ls (g ∷ rs) in
    let w = width-laid h in
    let f : leb (width c) (suc (span ls + i)) ≡ false = ground arith in
    let lead = find_lead-laid ls rs g (suc i) h (omega arith) in
    let end = glyph_end-laid ls rs g (suc i) h (omega arith) in
    rw (f, (at_trailing ls rs g i h less).1, e, lead, end) refl

-- `_blank_glyph_cut_at` is `cut` on the glyphs that the row shows.
pub blank_glyph_cut_at-IsLaid :
    (c : Cells) (gs : List Glyph) (col : ℕ)
    → IsLaid c gs
    → col ≤ span gs
    → size (cut col gs) ≤ 32767
    → IsLaid (blank_glyph_cut_at col c) (cut col gs)
blank_glyph_cut_at-IsLaid c gs col h le room = at_place h room (place gs col le)
  where
    at_place :
        {gs : List Glyph} {col : ℕ}
        → IsLaid c gs
        → size (cut col gs) ≤ 32767
        → Place gs col
        → IsLaid (blank_glyph_cut_at col c) (cut col gs)
    at_place h room (Place.boundary ls rs e at) =
        let laid : IsLaid c (ls ++ rs) = rw (← e) h in
        rw (at, e, cut_start ls rs, blank_glyph_cut_at-boundary c ls rs laid) laid
    at_place h room (Place.inside ls rs g i e at less) =
        let laid : IsLaid c (ls ++ (g ∷ rs)) = rw (← e) h in
        let shape = ap (cut (suc (span ls + i))) e ∙ cut_inside ls rs g i less in
        let fits : size (ls ++ (blanks (suc g.extra) ++ rs)) ≤ 32767 = rw (← shape, ← at) room in
        rw (at, shape, blank_glyph_cut_at-inside c ls rs g i laid less)
          (blank_columns-IsLaid ls rs g laid fits)
