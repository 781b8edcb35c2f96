-- ===== src/Screen/Reach.antt =====
-- How far fill_char and fill_attr go.
use corehost.Base.{
  ℕ, zero, suc, ◌+◌, ◌-◌, ◌≡◌, refl, min, arith, Bool, true, false, not, ltb, ◌==◌, if◌then◌else◌,
  if_true, if_false, Bool-cases, inl, inr, ◌∙◌, ap,
}
use corehost.Row.{Row}
use corehost.Screen.{Screen, row, with_row, valid}
use corehost.Screen.Fill.{FillResult, fill_lines, char_line, attr_line, fill_char, fill_attr}

-- The cells from column x on, over `left` lines.
abbrev pub cells_left : ℕ → ℕ → ℕ → ℕ
cells_left columns x zero = 0
cells_left columns x (suc left) = columns - x + cells_left columns 0 left

fill_lines-length_read :
    (line : ℕ → ℕ → Row → Row) (left x y count : ℕ) (s : Screen)
    → (fill_lines line left x y count s).length_read ≡ min count (cells_left s.columns x left)
unfolding fill_lines with_row
fill_lines-length_read line zero x y count s = omega arith
fill_lines-length_read line (suc left) x y count s =
    let n = if ltb count (s.columns - x) then count else s.columns - x in
    let s2 = with_row y (line x n (row s y)) s in
    let rest = fill_lines-length_read line left 0 (suc y) (count - n) s2 in
    elim (Bool-cases (count == 0)) [
      | inl e ↦
          let none : count ≡ 0 = ground arith in
          ap (λ (r : FillResult). r.length_read) (if_true _ _ e) ∙ omega arith
      | inr e ↦ ap (λ (r : FillResult). r.length_read) (if_false _ _ e) ∙ ground arith
    ]

-- From a cell of the buffer fill_char and fill_attr both count the cells asked for, or all that are left in
-- the buffer from there on; from elsewhere they count none.
pub fill_lem :
    (cp attr x y count : ℕ) (s : Screen)
    → let cells = if valid s x y then min count (cells_left s.columns x (s.lines - y)) else 0 in
      ((fill_char cp x y count s).length_read ≡ cells)
      × ((fill_attr attr x y count s).length_read ≡ cells)
unfolding fill_char fill_attr
fill_lem cp attr x y count s =
    let a = fill_lines-length_read (char_line cp) (s.lines - y) x y count s in
    let b = fill_lines-length_read (attr_line attr) (s.lines - y) x y count s in
    (reach (valid s x y) _ _ a, reach (valid s x y) _ _ b)
  where
    reach :
        (b : Bool) (r : FillResult) (n : ℕ)
        → r.length_read ≡ n
        → (if not b then record { length_read = 0; screen = s } else r).length_read
          ≡ (if b then n else 0)
    reach true r n e = e
    reach false r n e = refl
