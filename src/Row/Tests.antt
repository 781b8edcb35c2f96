-- ===== src/Row/Tests.antt =====
-- Runs and witnesses for rows.
use corehost.Base.{◌≡◌, refl, true, false, List, [], ◌∷◌, arith, replicate, if◌then◌else◌}
use corehost.Row.{
  Row, width, col_offset, is_trailing, glyph_at, glyph_width, dbcs_flags, attr_at, filled_cells,
  materialize_filled, blank_glyph_cut_at,
}
use corehost.Row.Write.{reset_fill, write_glyph}
use corehost.Row.Layout.{Glyph, singles, put, cut, text_of}
use corehost.Row.Laid.{IsLaid}
use corehost.Row.Cut.{blank_glyph_cut_at-IsLaid}
use corehost.Row.Shows.{Shows, Shows-IsLaid}
use corehost.Row.Written.{write_glyph-Shows}
use corehost.Row.Read.{readers-Shows}
use corehost.Row.Store.{IsRun}
use corehost.Row.Runs.{write_measured_run-Shows}
use corehost.Row.Single.{try_write_single_width_run-Shows}
use corehost.Row.Run.{write_measured_run, try_write_single_width_run, plain_columns}
use corehost.Row.Colors.{IsColored, attr_at-write_glyph}
use corehost.Row.Export.{reset_fill-Shows, dbcs_flags-Shows}

-- The row of the source's comment: abc, a wide glyph, d.
abbrev wide_glyph : Glyph
wide_glyph = record { text = 20013 ∷ []; extra = 1 }

abbrev sample_glyphs : List Glyph
sample_glyphs =
    record { text = 97 ∷ []; extra = 0 }
    ∷ (record { text = 98 ∷ []; extra = 0 }
        ∷ (record { text = 99 ∷ []; extra = 0 }
            ∷ (wide_glyph ∷ (record { text = 100 ∷ []; extra = 0 } ∷ []))))

abbrev sample : Row
sample = record {
  cells = record {
    text = 97 ∷ (98 ∷ (99 ∷ (20013 ∷ (100 ∷ []))));
    columns = 0 ∷ (1 ∷ (2 ∷ (3 ∷ (32771 ∷ (4 ∷ (5 ∷ []))))));
    single_width_layout = false;
    filled = false;
    fill_char = 32;
  };
  attributes = record {
    values = 7 ∷ (7 ∷ (7 ∷ (7 ∷ (7 ∷ (7 ∷ [])))));
    uniform = false;
    uniform_attr = 7;
    fill_attr = 7;
  };
}

sample-IsLaid : IsLaid sample.cells sample_glyphs
sample-IsLaid = record {
  unfilled = refl;
  explicit = refl;
  columns_eq = refl;
  text_eq = refl;
  room = omega arith;
  narrow = omega arith;
}

sample-Shows : Shows sample.cells sample_glyphs
sample-Shows = Shows-IsLaid sample-IsLaid

sample-IsColored : IsColored sample
unfolding width
sample-IsColored = record { values_width = refl; filled_uniform = λ e. absurd (ground arith) }

write_glyph-Shows_example :
    Shows
      (write_glyph 4 (120 ∷ []) 1 9 sample).cells
      (put 4 5 (record { text = 120 ∷ []; extra = 0 } ∷ []) sample_glyphs)
write_glyph-Shows_example =
    write_glyph-Shows sample sample_glyphs 4 1 9 (120 ∷ []) sample-Shows (omega arith) (omega arith)
      (omega arith)

-- The wide glyph that the write cuts is blank in its other column.
write_glyph_run :
    text_of (put 4 5 (record { text = 120 ∷ []; extra = 0 } ∷ []) sample_glyphs)
    ≡ 97 ∷ (98 ∷ (99 ∷ (32 ∷ (120 ∷ (100 ∷ [])))))
unfolding put
write_glyph_run = refl

sample-IsRun : IsRun (20013 ∷ (120 ∷ [])) (2 ∷ (1 ∷ [])) 3
sample-IsRun = record { same_length = refl; adds_up = refl; positive = refl }

write_measured_run-Shows_example :
    Shows
      (write_measured_run 2 (20013 ∷ (120 ∷ [])) (2 ∷ (1 ∷ [])) 3 false 9 sample).cells
      (put 2 5 (wide_glyph ∷ (record { text = 120 ∷ []; extra = 0 } ∷ [])) sample_glyphs)
write_measured_run-Shows_example =
    write_measured_run-Shows sample sample_glyphs 2 3 9 (20013 ∷ (120 ∷ [])) (2 ∷ (1 ∷ [])) false
      sample-Shows sample-IsRun (omega arith) (omega arith) (omega arith) (omega arith)

try_write_single_width_run-Shows_example :
    Shows (try_write_single_width_run 0 (120 ∷ (121 ∷ [])) 9 sample).1.cells (
      if (try_write_single_width_run 0 (120 ∷ (121 ∷ [])) 9 sample).0
      then put 0 2 (singles (120 ∷ (121 ∷ []))) sample_glyphs
      else sample_glyphs)
try_write_single_width_run-Shows_example =
    try_write_single_width_run-Shows sample sample_glyphs 0 9 (120 ∷ (121 ∷ [])) sample-Shows
      (omega arith)

-- It takes the columns before the wide glyph, and refuses those of it.
try_write_single_width_run_run :
    ((try_write_single_width_run 0 (120 ∷ (121 ∷ [])) 9 sample).0 ≡ true)
    × ((try_write_single_width_run 2 (120 ∷ (121 ∷ [])) 9 sample).0 ≡ false)
unfolding try_write_single_width_run plain_columns materialize_filled filled_cells width is_trailing
    col_offset
try_write_single_width_run_run = (refl, refl)

readers-Shows_example : (glyph_at sample.cells 4 ≡ 20013 ∷ []) × (glyph_width sample.cells 4 ≡ 0)
readers-Shows_example = readers-Shows sample.cells sample_glyphs 4 sample-Shows

blank_glyph_cut_at-IsLaid_example : IsLaid (blank_glyph_cut_at 4 sample.cells) (cut 4 sample_glyphs)
blank_glyph_cut_at-IsLaid_example =
    blank_glyph_cut_at-IsLaid sample.cells sample_glyphs 4 sample-IsLaid (omega arith) (omega arith)

attr_at-write_glyph_example : attr_at (write_glyph 3 (20013 ∷ []) 2 9 sample) 4 ≡ 9
attr_at-write_glyph_example =
    attr_at-write_glyph sample sample_glyphs 3 2 9 4 (20013 ∷ []) sample-Shows sample-IsColored
      (omega arith) (omega arith) (omega arith) (omega arith)

reset_fill-Shows_example :
    Shows (reset_fill 80 32 7 sample).cells (singles (replicate 80 32))
    × (attr_at (reset_fill 80 32 7 sample) 79 ≡ 7)
    × IsColored (reset_fill 80 32 7 sample)
reset_fill-Shows_example = reset_fill-Shows 80 32 7 79 sample (omega arith) (omega arith)

dbcs_flags-Shows_example : dbcs_flags sample.cells 3 ≡ 256
dbcs_flags-Shows_example = dbcs_flags-Shows sample.cells sample_glyphs 3 sample-Shows (omega arith)
