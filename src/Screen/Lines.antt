-- ===== src/Screen/Lines.antt =====
-- The lines of a screen buffer, whose rows are a ring.
use corehost.Base.{
  ℕ, zero, suc, ◌+◌, ◌-◌, ◌%◌, ◌≤◌, ◌<◌, ◌≡◌, refl, sym, ap, ◌∙◌, Bool, true, false, ◌&&◌, List,
  arith, ltb, leb, ◌==◌, if◌then◌else◌, length, length-drop, length-set, take, drop, get_or,
  get_or-set, get_or-append, get_or-append_left, get_or-take, get_or-drop, set, if_true, if_false,
  Bool-cases, inl, inr, lt_cases,
}
use native.Mathlib.Nat.{mod-eq_of_lt, add-mod_right}
use corehost.Row.{Row}
use corehost.Row.Write.{text_attribute, reset_fill}
use corehost.Screen.{
  Screen, row, with_row, physical_row_index, absent_row, rotate, fill_row, fill_rows,
}

-- One row for each line, and an origin among them.
pub record IsRing (s : Screen) : Type 0 where
  pub rows_length : length s.rows ≡ s.lines
  pub origin_less : s.row_origin < s.lines

mod_once : (a n : ℕ) → n ≤ a → a < n + n → a % n ≡ a - n
mod_once a n h less =
    let e : a ≡ a - n + n = omega arith in
    ap (◌% n) e ∙ add-mod_right (a - n) n ∙ mod-eq_of_lt (omega arith)

pub index_any :
    (s : Screen) (z : ℕ) → IsRing s → physical_row_index s z ≡ (s.row_origin + z) % s.lines
unfolding physical_row_index
index_any s z h =
    let o = h.origin_less in
    let l = h.rows_length in
    let f : length s.rows == 0 ≡ false = ground arith in
    if_false _ _ f ∙ ap ((s.row_origin + z) %◌) l

-- The place of a line: behind the origin, or before it.
module _ (s : Screen) (y : ℕ) where
  place_ahead : IsRing s → s.row_origin + y < s.lines → physical_row_index s y ≡ s.row_origin + y
  unfolding physical_row_index
  place_ahead h less =
      let l = h.rows_length in
      let f : length s.rows == 0 ≡ false = ground arith in
      if_false _ _ f ∙ mod-eq_of_lt (omega arith)

  place_wrapped :
      IsRing s
      → y < s.lines
      → s.lines ≤ s.row_origin + y
      → physical_row_index s y ≡ s.row_origin + y - s.lines
  unfolding physical_row_index
  place_wrapped h less more =
      let l = h.rows_length in
      let o = h.origin_less in
      let f : length s.rows == 0 ≡ false = ground arith in
      if_false _ _ f ∙ mod_once _ _ (omega arith) (omega arith) ∙ omega arith

  pub index_less : IsRing s → y < s.lines → physical_row_index s y < length s.rows
  index_less h less = elim (lt_cases (s.row_origin + y) s.lines) [
    | inl a ↦ let p = place_ahead h a in let l = h.rows_length in omega arith
    | inr w ↦
        let p = place_wrapped h less w in
        let l = h.rows_length in let o = h.origin_less in omega arith
  ]

  -- Line y of the ring is element y of the rows from the origin on.
  pub row-rotate :
      IsRing s → y < s.lines → row s y ≡ get_or (rotate s.row_origin s.rows) y absent_row
  unfolding row
  row-rotate h less =
      let l = h.rows_length in
      let o = h.origin_less in
      let n = length-drop s.row_origin s.rows in
      elim (lt_cases (s.row_origin + y) s.lines) [
        | inl a ↦
            ap (λ i. get_or s.rows i absent_row) (place_ahead h a)
            ∙ sym (
                get_or-append_left (drop s.row_origin s.rows) (take s.row_origin s.rows) y
                  absent_row (omega arith)
                ∙ get_or-drop s.row_origin y s.rows absent_row)
        | inr w ↦
            let i = s.row_origin + y - s.lines in
            let at : y ≡ length (drop s.row_origin s.rows) + i = omega arith in
            ap (λ i. get_or s.rows i absent_row) (place_wrapped h less w)
            ∙ sym (
                ap (λ k. get_or (rotate s.row_origin s.rows) k absent_row) at
                ∙ get_or-append (drop s.row_origin s.rows) (take s.row_origin s.rows) i absent_row
                ∙ get_or-take s.row_origin i s.rows absent_row (omega arith))
      ]

-- Different lines are different rows.
index_distinct :
    (s : Screen) (y z : ℕ)
    → IsRing s
    → y < s.lines
    → z < s.lines
    → physical_row_index s y ≡ physical_row_index s z
    → y ≡ z
index_distinct s y z h less less2 e =
    let o = h.origin_less in
    elim (lt_cases (s.row_origin + y) s.lines) [
      | inl a ↦ elim (lt_cases (s.row_origin + z) s.lines) [
        | inl b ↦ let p = place_ahead s y h a in let q = place_ahead s z h b in omega arith
        | inr b ↦ let p = place_ahead s y h a in let q = place_wrapped s z h less2 b in omega arith
      ]
      | inr a ↦ elim (lt_cases (s.row_origin + z) s.lines) [
        | inl b ↦ let p = place_wrapped s y h less a in let q = place_ahead s z h b in omega arith
        | inr b ↦
            let p = place_wrapped s y h less a in let q = place_wrapped s z h less2 b in omega arith
      ]
    ]

index_same :
    (s : Screen) (rows : List Row) (z : ℕ)
    → length rows ≡ length s.rows
    → physical_row_index (record s { rows = rows }) z ≡ physical_row_index s z
unfolding physical_row_index
index_same s rows z e = ap (λ n. if n == 0 then 0 else (s.row_origin + z) % n) e

index_test :
    (s : Screen) (y z : ℕ)
    → IsRing s
    → y < s.lines
    → z < s.lines
    → (physical_row_index s y == physical_row_index s z) ≡ (y == z)
index_test s y z h less less2 = elim (Bool-cases (y == z)) [
  | inl e ↦
      let same : y ≡ z = ground arith in
      let same_index = ap (physical_row_index s) same in ground arith
  | inr e ↦ elim (Bool-cases (physical_row_index s y == physical_row_index s z)) [
    | inl f ↦ let same = index_distinct s y z h less less2 (ground arith) in absurd (ground arith)
    | inr f ↦ f ∙ sym e
  ]
]

-- A line that is written is read back, and the other lines are as before.
pub row-with_row :
    (s : Screen) (y z : ℕ) (r : Row)
    → IsRing s
    → y < s.lines
    → z < s.lines
    → row (with_row y r s) z ≡ (if y == z then r else row s z)
unfolding row with_row
row-with_row s y z r h less less2 =
    let i = physical_row_index s y in
    let k = physical_row_index s z in
    ap (λ k. get_or (set s.rows i r) k absent_row)
      (index_same s (set s.rows i r) z (length-set s.rows i r))
    ∙ get_or-set s.rows i k r absent_row (index_less s z h less2)
    ∙ ap (λ (b : Bool). if b then r else get_or s.rows k absent_row) (index_test s y z h less less2)

pub with_row-IsRing : (s : Screen) (y : ℕ) (r : Row) → IsRing s → IsRing (with_row y r s)
unfolding with_row
with_row-IsRing s y r h = record {
  rows_length = length-set s.rows (physical_row_index s y) r ∙ h.rows_length;
  origin_less = h.origin_less;
}

lines_kept : (s : Screen) (y : ℕ) (r : Row) → (with_row y r s).lines ≡ s.lines
unfolding with_row
lines_kept s y r = refl

-- What filling makes of a row.
abbrev pub filled : ℕ → ℕ → ℕ → Row → Row
filled columns cp attr r = reset_fill columns cp (text_attribute attr) r

pub row-fill_rows :
    (n y z cp attr : ℕ) (s : Screen)
    → IsRing s
    → y + n ≤ s.lines
    → z < s.lines
    → row (fill_rows n y cp attr s) z
      ≡ (if leb y z && ltb z (y + n) then filled s.columns cp attr (row s z) else row s z)
unfolding fill_rows fill_row with_row
row-fill_rows zero y z cp attr s h fits less =
    let f : leb y z && ltb z (y + 0) ≡ false = ground arith in rw (if_false _ _ f) refl
row-fill_rows (suc n) y z cp attr s h fits less =
    let r = filled s.columns cp attr (row s y) in
    let next =
      row-fill_rows n (suc y) z cp attr (with_row y r s) (with_row-IsRing s y r h) (omega arith)
        less in
    let here = row-with_row s y z r h (omega arith) less in
    let columns = s.columns in
    next ∙ elim (Bool-cases (y == z)) [
      | inl e ↦
          let same : y ≡ z = ground arith in
          let f : leb (suc y) z && ltb z (suc y + n) ≡ false = ground arith in
          let t : leb y z && ltb z (y + suc n) ≡ true = ground arith in
          rw (if_false _ _ f, if_true _ _ t)
            (here ∙ if_true _ _ e ∙ ap (λ k. filled columns cp attr (row s k)) same)
      | inr e ↦
          let same : leb (suc y) z && ltb z (suc y + n) ≡ leb y z && ltb z (y + suc n) =
            ground arith in
          let kept = here ∙ if_false _ _ e in
          ap (λ k. if leb (suc y) z && ltb z (suc y + n) then filled columns cp attr k else k) kept
          ∙ ap (λ (b : Bool). if b then filled columns cp attr (row s z) else row s z) same
    ]
