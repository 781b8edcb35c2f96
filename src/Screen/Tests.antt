-- ===== src/Screen/Tests.antt =====
-- Runs and witnesses for screens.
use corehost.Base.{
  ℕ, ◌≡◌, refl, ◌+◌, ◌≤◌, List, [], ◌∷◌, arith, replicate, if◌then◌else◌, ◌==◌, ◌<◌, ◌⊎◌, ◌||◌, ltb,
  get_or,
}
use corehost.Base.Int.{pos}
use corehost.Row.Write.{new_row, reset_fill}
use corehost.Row.Layout.{singles, put}
use corehost.Row.Shows.{Shows}
use corehost.Row.Store.{run_glyphs, sum}
use corehost.Row.Export.{reset_fill-Shows}
use corehost.Screen.{
  Screen, row, physical_row_index, linearize_rows, scroll_all_up, scroll_all_down,
}
use corehost.Screen.Text.{write_text_at, fit_text, one_more}
use corehost.Screen.Fill.{fill_char, fill_attr}
use corehost.Screen.Reach.{fill_lem}
use corehost.Screen.Fits.{widths_of, cell_width}
use corehost.Screen.Lines.{IsRing}
use corehost.Screen.Scroll.{row-scroll_all_up, row-scroll_all_down, row-linearize_rows}
use corehost.Screen.Shows.{write_text_at-Shows, consumed_text}

-- Three lines of six columns, the first of them last in the ring.
abbrev small : Screen
small = record {
  columns = 6;
  lines = 3;
  rows = new_row 6 7 ∷ (reset_fill 6 65 7 (new_row 6 7) ∷ (reset_fill 6 66 7 (new_row 6 7) ∷ []));
  row_origin = 2;
}

small-IsRing : IsRing small
small-IsRing = record { rows_length = refl; origin_less = omega arith }

-- Line 0 shows six times B.
small-Shows : Shows (row small 0).cells (singles (replicate 6 66))
unfolding row physical_row_index
small-Shows = (reset_fill-Shows 6 66 7 0 (new_row 6 7) (omega arith) (omega arith)).0

-- 20013 is wide.
abbrev measure : ℕ → ℕ
measure cp = if cp == 20013 then 2 else 1

write_text_at-Shows_example :
    let text : List ℕ = 97 ∷ (20013 ∷ (98 ∷ [])) in
    let t = write_text_at measure 5 2 0 text 7 small in
    let run = consumed_text text t in
    let end = 2 + sum (widths_of measure run) in
    Shows (row t.screen 0).cells (
      if t.consumed == 0
      then singles (replicate 6 66)
      else put 2 end (run_glyphs run (widths_of measure run)) (singles (replicate 6 66)))
    × (row t.screen 1 ≡ row small 1)
    × (end ≤ 6)
    × ((t.consumed ≡ 3) ⊎ (6 < end + cell_width (measure (get_or text t.consumed 0))))
    × (t.cursor ≡ record { x = pos end; y = pos 0 })
    × (t.row_end ≡ (ltb 5 end || ltb t.consumed 3))
write_text_at-Shows_example =
    write_text_at-Shows measure 5 2 0 7 1 (97 ∷ (20013 ∷ (98 ∷ []))) small
      (singles (replicate 6 66)) small-IsRing (omega arith) (omega arith) small-Shows (omega arith)
      (omega arith) (omega arith)

-- All of it fits; of one column less, the b does not.
write_text_at_run :
    ((write_text_at measure 5 2 0 (97 ∷ (20013 ∷ (98 ∷ []))) 7 small).consumed ≡ 3)
    × ((write_text_at measure 4 2 0 (97 ∷ (20013 ∷ (98 ∷ []))) 7 small).consumed ≡ 2)
unfolding write_text_at fit_text one_more
write_text_at_run = (refl, refl)

row-scroll_all_up_example : row (scroll_all_up 1 32 7 small) 1 ≡ row small 2
row-scroll_all_up_example =
    row-scroll_all_up small 1 1 32 7 small-IsRing (omega arith) (omega arith)

row-scroll_all_down_example : row (scroll_all_down 1 32 7 small) 1 ≡ row small 0
row-scroll_all_down_example =
    row-scroll_all_down small 1 1 32 7 small-IsRing (omega arith) (omega arith) (omega arith)

row-linearize_rows_example :
    (row (linearize_rows small) 1 ≡ row small 1) × ((linearize_rows small).row_origin ≡ 0)
row-linearize_rows_example = row-linearize_rows small 1 small-IsRing (omega arith)

fill_lem_example :
    ((fill_char 65 2 1 8 small).length_read ≡ 8) × ((fill_attr 9 2 1 8 small).length_read ≡ 8)
fill_lem_example = fill_lem 65 9 2 1 8 small
