-- ===== src/History/Tests.antt =====
-- Runs of the history, and its theorems at such inputs.
use corehost.Base.{◌≡◌, refl, [], ◌∷◌, some, arith, take_last}
use corehost.History.{
  Text, History, no_selection, initial, push, browse_up, browse_down, set_capacity,
}
use corehost.History.Invariant.{IsValid, capacity_set, pushed, went_up, run, run-initial-IsValid}
use corehost.History.Log.{entries, push_all, commands-push_all}
use corehost.History.Browse.{climb, climbed, descend, climb_lem, browse_down-climb}

abbrev dir : Text
dir = b'd' ∷ b'i' ∷ b'r' ∷ []

abbrev cd : Text
cd = b'c' ∷ b'd' ∷ []

abbrev cls : Text
cls = b'c' ∷ b'l' ∷ b's' ∷ []

abbrev two : History
two = record {
  commands = dir ∷ cd ∷ [];
  capacity = 2;
  browse_index = no_selection;
  saved_input = [];
}

-- The repeat and the empty command are not kept, and the oldest command falls out.
push_all_run : (push_all (cd ∷ [] ∷ cls ∷ []) two).commands ≡ cd ∷ cls ∷ []
unfolding push_all push corehost.History.text_eq corehost.History.ends_with
push_all_run = refl

run-initial-IsValid_example :
    IsValid (run (pushed dir ∷ pushed cd ∷ went_up cls ∷ capacity_set 1 (omega arith) ∷ []) initial)
run-initial-IsValid_example =
    run-initial-IsValid (pushed dir ∷ pushed cd ∷ went_up cls ∷ capacity_set 1 (omega arith) ∷ [])

commands-push_all_example :
    (push_all (dir ∷ dir ∷ cd ∷ []) (record two { commands = [] })).commands
    ≡ take_last 2 (entries [] (dir ∷ dir ∷ cd ∷ []))
commands-push_all_example =
    commands-push_all (dir ∷ dir ∷ cd ∷ []) (record two { commands = [] }) (omega arith) refl

climb_lem_example :
    climbed cls (dir ∷ []) two ≡ (record two { browse_index = 0; saved_input = cls }, some dir)
climb_lem_example = climb_lem cls (dir ∷ []) two (λ e. cc) (omega arith) refl

browse_down-climb_example : browse_down (descend 1 (climb (cls ∷ dir ∷ []) two)) ≡ (two, some cls)
browse_down-climb_example =
    browse_down-climb cls (dir ∷ []) two (refl, refl) (omega arith) (omega arith)
