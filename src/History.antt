-- ===== src/History.antt =====
-- libcorehost/command_history_state.hpp: the DOSKEY command history and its browsing with Up/Down.
-- A `size_t` is a number below 2 ^ 64; a `u32string` is the list of its code points. A selected
-- command is returned as an Option: `none` where the code returns false and writes nothing.
pub mod Invariant
pub mod Log
pub mod Browse
mod Tests
use corehost.Base.{
  ℕ, ◌+◌, ◌-◌, ◌≤◌, ◌<◌, ◌≡◌, ◌⊎◌, Bool, true, false, not, ◌&&◌, ◌||◌, List, [], ◌∷◌, ◌++◌, Option,
  none, some, ltb, leb, ◌==◌, if◌then◌else◌, length, drop, get_or,
}

abbrev pub Text : Type 0
Text = List ℕ

-- static_cast<size_t>(-1).
abbrev pub no_selection : ℕ
no_selection = 18446744073709551615

pub record History : Type 0 where
  pub commands : List Text
  pub capacity : ℕ
  pub browse_index : ℕ
  pub saved_input : Text

pub initial : History
initial = record { commands = []; capacity = 50; browse_index = no_selection; saved_input = [] }

pub text_eq : Text → Text → Bool
text_eq [] [] = true
text_eq (x ∷ xs) (y ∷ ys) = x == y && text_eq xs ys
text_eq _ _ = false

-- `!_commands.empty() && _commands.back() == command`.
pub ends_with : List Text → Text → Bool
ends_with [] t = false
ends_with (x ∷ []) t = text_eq x t
ends_with (x ∷ y ∷ xs) t = ends_with (y ∷ xs) t

abbrev pub is_empty {ℓ} : {A : Type ℓ} → List A → Bool
is_empty [] = true
is_empty (x ∷ xs) = false

pub reset_browse : History → History
reset_browse h = record h { browse_index = no_selection; saved_input = [] }

pub break_browse : History → History
unfolding reset_browse
break_browse h = if h.browse_index == no_selection then h else reset_browse h

abbrev pub trimmed : ℕ → List Text → List Text
trimmed capacity cs = if ltb capacity (length cs) then drop (length cs - capacity) cs else cs

pub trim_to_capacity : History → History
unfolding reset_browse
trim_to_capacity h =
    let kept = record h { commands = trimmed h.capacity h.commands } in
    if not (kept.browse_index == no_selection) && leb (length kept.commands) kept.browse_index
    then reset_browse kept
    else kept

pub set_capacity : ℕ → History → History
unfolding trim_to_capacity
set_capacity max_commands h = trim_to_capacity (record h { capacity = max_commands })

pub clear : History → History
unfolding reset_browse
clear h = reset_browse (record h { commands = [] })

pub push : Text → History → History
unfolding trim_to_capacity
push command h =
    if is_empty command
    then h
    else if ends_with h.commands command
    then h
    else trim_to_capacity (record h { commands = h.commands ++ command ∷ [] })

select : History → History × Option Text
select h = (h, some (get_or h.commands h.browse_index []))

pub browse_up : Text → History → History × Option Text
unfolding select
browse_up current_input h =
    if is_empty h.commands
    then (h, none)
    else if h.browse_index == no_selection
    then select (record h { saved_input = current_input; browse_index = length h.commands - 1 })
    else if ltb 0 h.browse_index
    then select (record h { browse_index = h.browse_index - 1 })
    else select h

pub browse_down : History → History × Option Text
unfolding select reset_browse
browse_down h =
    if h.browse_index == no_selection
    then (h, none)
    else if ltb (h.browse_index + 1) (length h.commands)
    then select (record h { browse_index = h.browse_index + 1 })
    else (reset_browse h, some h.saved_input)
