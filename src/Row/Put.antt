-- ===== src/Row/Put.antt =====
-- What `put` does to the glyphs of a row.
use corehost.Base.{
  ℕ, zero, suc, ◌+◌, ◌-◌, ◌*◌, ◌≤◌, ◌≡◌, refl, sym, ap, ◌∙◌, true, false, List, [], ◌∷◌, ◌++◌,
  arith, leb, length, replicate, splice, take, drop, append_assoc, lt_cases, inl, inr,
  take-append-drop, length-take, length-drop, drop-drop,
}
use corehost.Row.Layout.{
  Glyph, single, singles, span, size, cut, before, from, put, size-append, span-append,
}
use corehost.Row.Replace.{span-singles}
use corehost.Row.Cut.{cut_before, cut_start, blanks, size-blanks, span-blanks}

pub singles-append : (xs ys : List ℕ) → singles (xs ++ ys) ≡ singles xs ++ singles ys
singles-append [] ys = refl
singles-append (x ∷ xs) ys = ap (single x ∷◌) (singles-append xs ys)

pub replicate-append : (m n : ℕ) (x : ℕ) → replicate (m + n) x ≡ replicate m x ++ replicate n x
replicate-append zero n x = let e : 0 + n ≡ n = omega arith in rw e
replicate-append (suc m) n x =
    let e : suc m + n ≡ suc (m + n) = omega arith in rw e (ap (x ∷◌) (replicate-append m n x))

-- `gs` in two parts of which the first has `col` columns.
pub record Split (gs : List Glyph) (col : ℕ) : Type 0 where
  pub front : List Glyph
  pub back : List Glyph
  pub parts_eq : gs ≡ front ++ back
  pub at : span front ≡ col

under : (g : Glyph) (gs : List Glyph) (n : ℕ) → Split gs n → Split (g ∷ gs) (suc (g.extra + n))
under g gs n s = record {
  front = g ∷ s.front;
  back = s.back;
  parts_eq = ap (g ∷◌) s.parts_eq;
  at = let e = s.at in omega arith;
}

-- A boundary is where a cut was.
pub Split-cut : (gs : List Glyph) (col : ℕ) → col ≤ span gs → Split (cut col gs) col
Split-cut gs zero h = record { front = []; back = gs; parts_eq = refl; at = refl }
Split-cut [] (suc col) h = absurd (omega arith)
Split-cut (g ∷ gs) (suc col) h = elim (lt_cases col g.extra) [
  | inl less ↦
      let f : leb g.extra col ≡ false = ground arith in
      let n : suc g.extra ≡ suc col + (g.extra - col) = omega arith in
      rw f (record {
        front = blanks (suc col);
        back = blanks (g.extra - col) ++ gs;
        parts_eq =
            ap (λ k. singles k ++ gs)
              (ap (λ k. replicate k 32) n ∙ replicate-append (suc col) (g.extra - col) 32)
            ∙ ap (◌++ gs) (singles-append (replicate (suc col) 32) (replicate (g.extra - col) 32))
            ∙ append_assoc (blanks (suc col)) (blanks (g.extra - col)) gs;
        at = span-blanks (suc col);
      })
  | inr more ↦
      let t : leb g.extra col ≡ true = ground arith in
      let e : col ≡ g.extra + (col - g.extra) = omega arith in
      let s = under g _ _ (Split-cut gs (col - g.extra) (omega arith)) in
      rw t (record {
        front = s.front;
        back = s.back;
        parts_eq = s.parts_eq;
        at = s.at ∙ ap suc (sym e);
      })
]

-- A cut changes no width, and adds at most one code point for each column.
pub span-cut : (col : ℕ) (gs : List Glyph) → span (cut col gs) ≡ span gs
span-cut zero gs = refl
span-cut (suc col) [] = refl
span-cut (suc col) (g ∷ gs) = elim (lt_cases col g.extra) [
  | inl less ↦
      let f : leb g.extra col ≡ false = ground arith in
      rw f (span-append (blanks (suc g.extra)) gs ∙ ap (◌+ span gs) (span-blanks (suc g.extra)))
  | inr more ↦
      let t : leb g.extra col ≡ true = ground arith in
      rw t (ap (suc g.extra +◌) (span-cut (col - g.extra) gs))
]

pub size-cut : (col : ℕ) (gs : List Glyph) → size (cut col gs) ≤ size gs + span gs
size-cut zero gs = omega arith
size-cut (suc col) [] = omega arith
size-cut (suc col) (g ∷ gs) = elim (lt_cases col g.extra) [
  | inl less ↦
      let f : leb g.extra col ≡ false = ground arith in
      let a = size-append (blanks (suc g.extra)) gs in
      let b = size-blanks (suc g.extra) in rw f (omega arith)
  | inr more ↦
      let t : leb g.extra col ≡ true = ground arith in
      let r = size-cut (col - g.extra) gs in rw t (omega arith)
]

before_front : (ls gs : List Glyph) → before (span ls) (ls ++ gs) ≡ ls
before_front [] gs = refl
before_front (g ∷ ls) gs =
    let e : span (g ∷ ls) ≡ suc (g.extra + span ls) = omega arith in
    let t : leb g.extra (g.extra + span ls) ≡ true = ground arith in
    let m : g.extra + span ls - g.extra ≡ span ls = omega arith in
    rw (e, t, m) (ap (g ∷◌) (before_front ls gs))

from_back : (ls gs : List Glyph) → from (span ls) (ls ++ gs) ≡ gs
from_back [] gs = refl
from_back (g ∷ ls) gs =
    let e : span (g ∷ ls) ≡ suc (g.extra + span ls) = omega arith in
    let t : leb g.extra (g.extra + span ls) ≡ true = ground arith in
    let m : g.extra + span ls - g.extra ≡ span ls = omega arith in rw (e, t, m) (from_back ls gs)

-- The row around a range of columns, with what the range's ends cut made blank.
pub record Around (gs : List Glyph) (col n : ℕ) : Type 0 where
  pub front : List Glyph
  pub middle : List Glyph
  pub back : List Glyph
  pub whole : cut (col + n) (cut col gs) ≡ front ++ (middle ++ back)
  pub at : span front ≡ col
  pub wide : span middle ≡ n

pub around : (gs : List Glyph) (col n : ℕ) → col + n ≤ span gs → Around gs col n
around gs col n h =
    let a = Split-cut gs col (omega arith) in
    let s = span-cut col gs in
    let at = a.at in
    let p = span-append a.front a.back in
    let q = ap span a.parts_eq in
    let b = Split-cut a.back n (omega arith) in
    record {
      front = a.front;
      middle = b.front;
      back = b.back;
      whole =
          ap (cut (col + n)) a.parts_eq
          ∙ ap (λ k. cut (k + n) (a.front ++ a.back)) (sym a.at)
          ∙ cut_before a.front a.back n
          ∙ ap (a.front ++◌) b.parts_eq;
      at = a.at;
      wide = b.at;
    }

module _ {gs : List Glyph} {col n : ℕ} (a : Around gs col n) where
  pub put-around : (new : List Glyph) → put col (col + n) new gs ≡ a.front ++ (new ++ a.back)
  unfolding put
  put-around new =
      let e : col + n ≡ span (a.front ++ a.middle) =
        omega (arith, a.at, a.wide, span-append a.front a.middle) in
      let front =
        ap (before col) a.whole
        ∙ ap (λ k. before k (a.front ++ (a.middle ++ a.back))) (sym a.at)
        ∙ before_front a.front (a.middle ++ a.back) in
      let back =
        ap (from (col + n)) a.whole
        ∙ ap (from (col + n)) (sym (append_assoc a.front a.middle a.back))
        ∙ ap (λ k. from k ((a.front ++ a.middle) ++ a.back)) e
        ∙ from_back (a.front ++ a.middle) a.back in
      ap (◌++ (new ++ from (col + n) (cut (col + n) (cut col gs)))) front
      ∙ ap (λ k. a.front ++ (new ++ k)) back

-- Between boundaries nothing is cut.
pub put_whole :
    (ls mid rs new : List Glyph)
    → put (span ls) (span ls + span mid) new (ls ++ (mid ++ rs)) ≡ ls ++ (new ++ rs)
put_whole ls mid rs new =
    put-around
      (record {
        front = ls;
        middle = mid;
        back = rs;
        whole =
            ap (cut (span ls + span mid)) (cut_start ls (mid ++ rs))
            ∙ cut_before ls (mid ++ rs) (span mid)
            ∙ ap (ls ++◌) (cut_start mid rs);
        at = refl;
        wide = refl;
      })
      new

-- Single columns in a row of single columns.
pub put-singles :
    (i n : ℕ) (new t : List ℕ)
    → i + n ≤ length t
    → put i (i + n) (singles new) (singles t) ≡ singles (splice i n new t)
put-singles i n new t h =
    let a = take i t in
    let b = take n (drop i t) in
    let c = drop (i + n) t in
    let parts : a ++ (b ++ c) ≡ t =
      ap (λ k. a ++ (b ++ k)) (sym (drop-drop n i t))
      ∙ ap (a ++◌) (take-append-drop n (drop i t))
      ∙ take-append-drop i t in
    let whole : singles a ++ (singles b ++ singles c) ≡ singles t =
      ap (singles a ++◌) (sym (singles-append b c))
      ∙ sym (singles-append a (b ++ c))
      ∙ ap singles parts in
    let m : span (singles a) ≡ i = omega (arith, span-singles a, length-take i t) in
    let k : span (singles b) ≡ n =
      omega (arith, span-singles b, length-take n (drop i t), length-drop i t) in
    let goal = put_whole (singles a) (singles b) (singles c) (singles new) in
    ap (put i (i + n) (singles new)) (sym whole)
    ∙ ap (λ j. put j (j + n) (singles new) (singles a ++ (singles b ++ singles c))) (sym m)
    ∙ ap
        (λ j.
          put (span (singles a)) (span (singles a) + j) (singles new)
            (singles a ++ (singles b ++ singles c)))
        (sym k)
    ∙ goal
    ∙ ap (singles a ++◌) (sym (singles-append new c))
    ∙ sym (singles-append a (new ++ c))

-- What replaces as many columns keeps the width.
pub span-put :
    (gs new : List Glyph) (col n : ℕ)
    → col + n ≤ span gs
    → span new ≡ n
    → span (put col (col + n) new gs) ≡ span gs
span-put gs new col n h e =
    let a = around gs col n h in
    let c = span-cut col gs in
    let d = span-cut (col + n) (cut col gs) in
    let w = ap span a.whole in
    let wide = a.wide in
    let p = span-append a.front (a.middle ++ a.back) in
    let q = span-append a.middle a.back in
    let s = span-append a.front (new ++ a.back) in
    let t = span-append new a.back in ap span (put-around a new) ∙ omega arith

pub size-put :
    (gs new : List Glyph) (col n : ℕ)
    → col + n ≤ span gs
    → size (put col (col + n) new gs) ≤ size gs + 2 * span gs + size new
size-put gs new col n h =
    let a = around gs col n h in
    let w = ap size a.whole in
    let m = span-cut col gs in
    let c = size-cut col gs in
    let d = size-cut (col + n) (cut col gs) in
    let p = size-append a.front (a.middle ++ a.back) in
    let q = size-append a.middle a.back in
    let s = size-append a.front (new ++ a.back) in
    let t = size-append new a.back in let e = ap size (put-around a new) in omega arith
