-- ===== src/Screen/Scroll.antt =====
-- A screen buffer scrolled as a whole: only the origin of its ring moves.
use corehost.Base.{
  ℕ, ◌+◌, ◌-◌, ◌%◌, ◌<◌, ◌≡◌, refl, sym, ap, ◌∙◌, true, false, ◌&&◌, ◌||◌, ◌++◌, arith, ltb, leb,
  ◌==◌, if◌then◌else◌, min, append_nil, length, length-append, length-take, length-drop, take, drop,
  get_or, if_true, if_false, Bool-cases, inl, inr, lt_cases,
}
use native.Mathlib.Nat.{mod-lt, add-mod_right, mod-add-mod}
use corehost.Screen.{
  Screen, row, physical_row_index, absent_row, rotate, linearize_rows, scroll_all_up,
  scroll_all_down,
}
use corehost.Screen.Lines.{IsRing, index_any, filled, row-fill_rows, row-rotate}

-- The origin moved by some lines, all of them behind it, is the lines moved.
module _ (s : Screen) (distance y : ℕ) where
  abbrev moved : Screen
  moved = record s { row_origin = (s.row_origin + distance) % s.lines }

  moved-IsRing : IsRing s → IsRing moved
  moved-IsRing h = record {
    rows_length = h.rows_length;
    origin_less = mod-lt (s.row_origin + distance) (let o = h.origin_less in omega arith);
  }

  index-moved : IsRing s → physical_row_index moved y ≡ (s.row_origin + (y + distance)) % s.lines
  index-moved h =
      let sum : s.row_origin + distance + y ≡ s.row_origin + (y + distance) = omega arith in
      index_any moved y (moved-IsRing h)
      ∙ mod-add-mod (s.row_origin + distance) s.lines y
      ∙ ap (◌% s.lines) sum

  row-moved :
      IsRing s
      → distance < s.lines
      → y < s.lines
      → row moved y ≡ (
          if ltb (y + distance) s.lines
          then row s (y + distance)
          else row s (y + distance - s.lines))
  unfolding row
  row-moved h short less = elim (lt_cases (y + distance) s.lines) [
    | inl fits ↦
        let t : ltb (y + distance) s.lines ≡ true = ground arith in
        let at = index-moved h ∙ sym (index_any s (y + distance) h) in
        ap (λ k. get_or s.rows k absent_row) at ∙ sym (if_true _ _ t)
    | inr past ↦
        let z = y + distance - s.lines in
        let f : ltb (y + distance) s.lines ≡ false = ground arith in
        let sum : s.row_origin + (y + distance) ≡ s.row_origin + z + s.lines = omega arith in
        let at =
          index-moved h
          ∙ ap (◌% s.lines) sum
          ∙ add-mod_right (s.row_origin + z) s.lines
          ∙ sym (index_any s z h) in
        ap (λ k. get_or s.rows k absent_row) at ∙ sym (if_false _ _ f)
  ]

-- The first way of scroll moves every line up by the distance and fills the lines that come free.
pub row-scroll_all_up :
    (s : Screen) (distance y cp attr : ℕ)
    → IsRing s
    → distance < s.lines
    → y < s.lines
    → row (scroll_all_up distance cp attr s) y ≡ (
        if ltb (y + distance) s.lines
        then row s (y + distance)
        else filled s.columns cp attr (row s (y + distance - s.lines)))
unfolding scroll_all_up
row-scroll_all_up s distance y cp attr h short less =
    let count : min distance s.lines ≡ distance = omega arith in
    let f : distance == s.lines ≡ false = ground arith in
    let m = moved s distance y in
    let fill =
      row-fill_rows distance (s.lines - distance) y cp attr m (moved-IsRing s distance y h)
        (omega arith) less in
    let at = row-moved s distance y h short less in
    rw (count, if_false _ _ f)
      (fill ∙ elim (lt_cases (y + distance) s.lines) [
        | inl fits ↦
            let g : leb (s.lines - distance) y && ltb y (s.lines - distance + distance) ≡ false =
              ground arith in
            let t : ltb (y + distance) s.lines ≡ true = ground arith in
            if_false _ _ g ∙ at ∙ if_true _ _ t ∙ sym (if_true _ _ t)
        | inr past ↦
            let g : leb (s.lines - distance) y && ltb y (s.lines - distance + distance) ≡ true =
              ground arith in
            let t : ltb (y + distance) s.lines ≡ false = ground arith in
            if_true _ _ g
            ∙ ap (filled s.columns cp attr) (at ∙ if_false _ _ t)
            ∙ sym (if_false _ _ t)
      ])

-- The same downwards.
pub row-scroll_all_down :
    (s : Screen) (distance y cp attr : ℕ)
    → IsRing s
    → 0 < distance
    → distance < s.lines
    → y < s.lines
    → row (scroll_all_down distance cp attr s) y ≡ (
        if ltb y distance
        then filled s.columns cp attr (row s (y + s.lines - distance))
        else row s (y - distance))
unfolding scroll_all_down
row-scroll_all_down s distance y cp attr h some short less =
    let count : min distance s.lines ≡ distance = omega arith in
    let f : distance == s.lines ≡ false = ground arith in
    let up = s.lines - distance in
    let origin : s.row_origin + s.lines - distance ≡ s.row_origin + up = omega arith in
    let m = moved s up y in
    let fill = row-fill_rows distance 0 y cp attr m (moved-IsRing s up y h) (omega arith) less in
    let at = row-moved s up y h (omega arith) less in
    rw (count, if_false _ _ f, origin)
      (fill ∙ elim (lt_cases y distance) [
        | inl free ↦
            let g : leb 0 y && ltb y (0 + distance) ≡ true = ground arith in
            let t : ltb (y + up) s.lines ≡ true = ground arith in
            let d : ltb y distance ≡ true = ground arith in
            let z : y + up ≡ y + s.lines - distance = omega arith in
            if_true _ _ g
            ∙ ap (filled s.columns cp attr) (at ∙ if_true _ _ t ∙ ap (row s) z)
            ∙ sym (if_true _ _ d)
        | inr kept ↦
            let g : leb 0 y && ltb y (0 + distance) ≡ false = ground arith in
            let t : ltb (y + up) s.lines ≡ false = ground arith in
            let d : ltb y distance ≡ false = ground arith in
            let z : y + up - s.lines ≡ y - distance = omega arith in
            if_false _ _ g ∙ at ∙ if_false _ _ t ∙ ap (row s) z ∙ sym (if_false _ _ d)
      ])

-- Rotating the rows back to the origin 0 keeps every line.
pub row-linearize_rows :
    (s : Screen) (y : ℕ)
    → IsRing s
    → y < s.lines
    → (row (linearize_rows s) y ≡ row s y) × ((linearize_rows s).row_origin ≡ 0)
unfolding linearize_rows
row-linearize_rows s y h less =
    let l = h.rows_length in
    let o = h.origin_less in
    elim (Bool-cases ((s.row_origin == 0) || (length s.rows == 0))) [
      | inl e ↦ rw (if_true _ _ e) (refl, ground arith)
      | inr e ↦
          let rows2 = rotate s.row_origin s.rows in
          let s2 = record s { rows = rows2; row_origin = 0 } in
          let n = length-append (drop s.row_origin s.rows) (take s.row_origin s.rows) in
          let a = length-drop s.row_origin s.rows in
          let b = length-take s.row_origin s.rows in
          let h2 : IsRing s2 = record { rows_length = omega arith; origin_less = omega arith } in
          let same : drop 0 rows2 ++ take 0 rows2 ≡ rows2 = append_nil rows2 in
          rw (if_false _ _ e) (
            row-rotate s2 y h2 less
                ∙ ap (λ rows. get_or rows y absent_row) same
                ∙ sym (row-rotate s y h less),
            refl,
          )
    ]
