-- ===== src/Vt/Sgr/Tests.antt =====
-- Examples of the theorems on SGR.
use corehost.Base.{◌≡◌, refl, [], ◌∷◌, some}
use corehost.Vt.Sgr.{
  Flag, Color, Sgr, no_change, set, sgr_loop, sgr_param, flag_on, flag_off, color_param,
}
use corehost.Vt.Sgr.Effect.{after}
use corehost.Vt.Sgr.Order.{sgr_loop-one_by_one, sgr_loop-reset_swap}

-- 1 switches bold on, and 31 makes the text red.
abbrev bold : Sgr
bold = set Flag.bold no_change

abbrev red : Sgr
red = record no_change { fg = Color.indexed 1 }

bold_run : sgr_loop (1 ∷ []) 0 no_change ≡ some bold
unfolding sgr_loop sgr_param flag_on
bold_run = refl

red_run : sgr_loop (31 ∷ []) 0 no_change ≡ some red
unfolding sgr_loop sgr_param flag_on flag_off color_param
red_run = refl

sgr_loop-one_by_one_example : sgr_loop (1 ∷ 31 ∷ []) 0 no_change ≡ some (after bold red)
sgr_loop-one_by_one_example = sgr_loop-one_by_one 1 (31 ∷ []) bold red refl refl bold_run red_run

sgr_loop-reset_swap_example : sgr_loop (1 ∷ 0 ∷ []) 0 no_change ≡ sgr_loop (0 ∷ 1 ∷ []) 0 no_change
sgr_loop-reset_swap_example = sgr_loop-reset_swap 1 [] no_change refl refl
