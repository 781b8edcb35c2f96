-- ===== src/Vt/Sgr.antt =====
-- SGR: vt_sgr_payload, its two flag sets, and the loop of `_dispatch_csi` over the parameters.
pub mod Effect
pub mod Rounds
pub mod Order
mod Tests
use corehost.Base.{
  ℕ, zero, suc, ◌+◌, ◌-◌, ◌%◌, Bool, true, false, List, [], ◌∷◌, Option, none, some, ◌==◌, within,
  if◌then◌else◌,
}

pub data Flag : Type 0 where
  reset bold faint italic underline blink negative conceal strikethrough : Flag

abbrev pub same_flag : Flag → Flag → Bool
same_flag Flag.reset Flag.reset = true
same_flag Flag.bold Flag.bold = true
same_flag Flag.faint Flag.faint = true
same_flag Flag.italic Flag.italic = true
same_flag Flag.underline Flag.underline = true
same_flag Flag.blink Flag.blink = true
same_flag Flag.negative Flag.negative = true
same_flag Flag.conceal Flag.conceal = true
same_flag Flag.strikethrough Flag.strikethrough = true
same_flag _ _ = false

-- vt_sgr_color_payload, by its kind.
pub data Color : Type 0 where
  unchanged default : Color
  indexed : ℕ → Color
  rgb : ℕ → ℕ → ℕ → Color

-- A bit mask is the function that tells which of its bits are set.
pub record Sgr : Type 0 where
  pub set_flags : Flag → Bool
  pub clear_flags : Flag → Bool
  pub fg : Color
  pub bg : Color

abbrev pub no_change : Sgr
no_change = record {
  set_flags = λ f. false;
  clear_flags = λ f. false;
  fg = Color.unchanged;
  bg = Color.unchanged;
}

-- One bit of a mask given anew.
abbrev pub with_bit : Flag → Bool → (Flag → Bool) → Flag → Bool
with_bit flag b mask f = if same_flag f flag then b else mask f

unfoldable pub set : Flag → Sgr → Sgr
set flag s = record s {
  set_flags = with_bit flag true s.set_flags;
  clear_flags = with_bit flag false s.clear_flags;
}

unfoldable pub clear : Flag → Sgr → Sgr
clear flag s = record s {
  clear_flags = with_bit flag true s.clear_flags;
  set_flags = with_bit flag false s.set_flags;
}

-- The color that 38 or 48 introduces, from the parameters behind it, and how many of them it
-- takes; `none` where the code gives the sequence up.
unfoldable pub extended_color : List ℕ → Option (Color × ℕ)
extended_color (kind ∷ []) = none
extended_color (kind ∷ v ∷ []) = if kind == 5 then some (Color.indexed (v % 256), 2) else none
extended_color (kind ∷ v ∷ g ∷ []) = if kind == 5 then some (Color.indexed (v % 256), 2) else none
extended_color (kind ∷ v ∷ g ∷ b ∷ rest) =
    if kind == 5
    then some (Color.indexed (v % 256), 2)
    else if kind == 2
    then some (Color.rgb (v % 256) (g % 256) (b % 256), 4)
    else none
extended_color [] = none

abbrev with_fg : Sgr → Color × ℕ → Sgr × ℕ
with_fg s (c, k) = (record s { fg = c }, k)

abbrev with_bg : Sgr → Color × ℕ → Sgr × ℕ
with_bg s (c, k) = (record s { bg = c }, k)

abbrev map_some {ℓ κ} : {A : Type ℓ} {B : Type κ} → (A → B) → Option A → Option B
map_some f none = none
map_some f (some a) = some (f a)

abbrev is_empty : List ℕ → Bool
is_empty [] = true
is_empty (x ∷ xs) = false

-- The colors: 30 and up.
unfoldable pub color_param : ℕ → List ℕ → Sgr → Option (Sgr × ℕ)
color_param v rest s =
    if within 30 37 v
    then some (record s { fg = Color.indexed (v - 30) }, 0)
    else if v == 38
    then (if is_empty rest then some (s, 0) else map_some (with_fg s) (extended_color rest))
    else if v == 39
    then some (record s { fg = Color.default }, 0)
    else if within 40 47 v
    then some (record s { bg = Color.indexed (v - 40) }, 0)
    else if v == 48
    then (if is_empty rest then some (s, 0) else map_some (with_bg s) (extended_color rest))
    else if v == 49
    then some (record s { bg = Color.default }, 0)
    else if within 90 97 v
    then some (record s { fg = Color.indexed (v - 90 + 8) }, 0)
    else if within 100 107 v
    then some (record s { bg = Color.indexed (v - 100 + 8) }, 0)
    else some (s, 0)

-- The attributes that are switched on, and those that are switched off; `none` for other numbers.
unfoldable pub flag_on : ℕ → Option Flag
flag_on v =
    if v == 0
    then some Flag.reset
    else if v == 1
    then some Flag.bold
    else if v == 2
    then some Flag.faint
    else if v == 3
    then some Flag.italic
    else if v == 4
    then some Flag.underline
    else if v == 5
    then some Flag.blink
    else if v == 7
    then some Flag.negative
    else if v == 8
    then some Flag.conceal
    else if v == 9
    then some Flag.strikethrough
    else none

unfoldable pub flag_off : ℕ → Option Flag
flag_off v =
    if v == 23
    then some Flag.italic
    else if v == 24
    then some Flag.underline
    else if v == 25
    then some Flag.blink
    else if v == 27
    then some Flag.negative
    else if v == 28
    then some Flag.conceal
    else if v == 29
    then some Flag.strikethrough
    else none

-- One round of the loop: the new payload, and how many parameters behind this one it used up.
unfoldable pub sgr_param : ℕ → List ℕ → Sgr → Option (Sgr × ℕ)
sgr_param v rest s = elim (flag_on v) [
  | some f ↦ some (set f s, 0)
  | none ↦
      if v == 22
      then some (clear Flag.faint (clear Flag.bold s), 0)
      else elim (flag_off v) [ some f ↦ some (clear f s, 0) | none ↦ color_param v rest s ]
]

-- `for (i = 0; i != _param_index; ++i)`: `skip` counts the parameters that `i += …` jumps over.
unfoldable pub sgr_loop : List ℕ → ℕ → Sgr → Option Sgr
sgr_loop [] skip s = some s
sgr_loop (v ∷ rest) (suc k) s = sgr_loop rest k s
sgr_loop (v ∷ rest) zero s = elim (sgr_param v rest s) [
  | none ↦ none
  | some (s', k) ↦ sgr_loop rest k s'
]
