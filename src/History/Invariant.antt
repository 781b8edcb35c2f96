-- ===== src/History/Invariant.antt =====
-- The invariant of the history, over every operation of the class.
use corehost.Base.{
  ℕ, ◌-◌, ◌≤◌, ◌<◌, ◌≡◌, refl, ◌⊎◌, inl, List, [], ◌∷◌, ◌++◌, arith, length, length-drop,
}
use corehost.History.{
  Text, History, no_selection, initial, reset_browse, break_browse, trim_to_capacity, set_capacity,
  clear, push, browse_up, browse_down,
}

-- No more commands than the capacity; a selected index names a command; nothing is saved while
-- no command is selected.
pub record IsValid (h : History) : Type 0 where
  pub bounded : length h.commands ≤ h.capacity
  pub sized : h.capacity ≤ no_selection
  pub selected :
      ((h.browse_index ≡ no_selection) × (h.saved_input ≡ []))
      ⊎ (h.browse_index < length h.commands)

pub data Call : Type 0 where
  capacity_set : (n : ℕ) → n ≤ no_selection → Call
  cleared browse_reset browse_broken went_down : Call
  pushed went_up : Text → Call

pub after : Call → History → History
after (capacity_set n _) h = set_capacity n h
after cleared h = clear h
after browse_reset h = reset_browse h
after browse_broken h = break_browse h
after went_down h = (browse_down h).0
after (pushed t) h = push t h
after (went_up t) h = (browse_up t h).0

pub run : List Call → History → History
run [] h = h
run (c ∷ cs) h = run cs (after c h)

trim_to_capacity-IsValid :
    (h : History)
    → h.capacity ≤ no_selection
    → ((h.browse_index ≡ no_selection) × (h.saved_input ≡ [])) ⊎ (h.browse_index < no_selection)
    → IsValid (trim_to_capacity h)
unfolding trim_to_capacity
trim_to_capacity-IsValid h c s =
    ground (arith, length-drop (length h.commands - h.capacity) h.commands)

set_capacity-IsValid :
    (n : ℕ) (h : History) → n ≤ no_selection → IsValid h → IsValid (set_capacity n h)
unfolding set_capacity
set_capacity-IsValid n h b v = trim_to_capacity-IsValid _ b (ground arith)

push-IsValid : (t : Text) (h : History) → IsValid h → IsValid (push t h)
unfolding push
push-IsValid t h v =
    let longer : History = record h { commands = h.commands ++ t ∷ [] } in
    ground (arith, trim_to_capacity-IsValid longer v.sized)

browse_up-IsValid : (t : Text) (h : History) → IsValid h → IsValid (browse_up t h).0
unfolding browse_up
browse_up-IsValid t h v = go h.commands refl
  where
    go : (cs : List Text) → h.commands ≡ cs → IsValid (browse_up t h).0
    go [] e = ground arith
    go (x ∷ xs) e = ground arith

-- Every operation keeps the invariant.
pub after-IsValid : (c : Call) (h : History) → IsValid h → IsValid (after c h)
unfolding after
after-IsValid (capacity_set n b) h v = set_capacity-IsValid n h b v
after-IsValid cleared h v = unfold clear in ground arith
after-IsValid browse_reset h v = unfold reset_browse in ground arith
after-IsValid browse_broken h v = unfold break_browse in ground arith
after-IsValid went_down h v = unfold browse_down in ground arith
after-IsValid (pushed t) h v = push-IsValid t h v
after-IsValid (went_up t) h v = browse_up-IsValid t h v

initial-IsValid : IsValid initial
unfolding initial
initial-IsValid = record { bounded = omega arith; sized = omega arith; selected = inl (refl, refl) }

run-IsValid : (cs : List Call) (h : History) → IsValid h → IsValid (run cs h)
unfolding run
run-IsValid [] h v = v
run-IsValid (c ∷ cs) h v = run-IsValid cs (after c h) (after-IsValid c h v)

-- After any history of calls: at most `capacity` commands are kept, a selected index is one of
-- theirs, and no input is saved while none is selected.
pub run-initial-IsValid : (cs : List Call) → IsValid (run cs initial)
run-initial-IsValid cs = run-IsValid cs initial initial-IsValid
