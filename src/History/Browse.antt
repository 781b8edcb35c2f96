-- ===== src/History/Browse.antt =====
-- Up and Down: what a run of them selects, and that Down undoes Up.
use corehost.Base.{
  ℕ, zero, suc, ◌+◌, ◌-◌, ◌≤◌, ◌<◌, ◌≡◌, ◌≢◌, refl, ap, ◌∙◌, List, [], ◌∷◌, Option, some, arith,
  length, get_or,
}
use corehost.History.{Text, History, no_selection, browse_up, browse_down}

-- Up once with the user's input, then again with whatever stands in the line.
pub climb : List Text → History → History
climb [] h = h
climb (t ∷ ts) h = climb ts (browse_up t h).0

pub descend : ℕ → History → History
descend zero h = h
descend (suc n) h = descend n (browse_down h).0

abbrev pub IsIdle : History → Type 0
IsIdle h = (h.browse_index ≡ no_selection) × (h.saved_input ≡ [])

-- Up with `t` in the line, then once for each text of the list: the last one's outcome.
pub climbed : Text → List Text → History → History × Option Text
climbed t [] h = browse_up t h
climbed t (u ∷ us) h = climbed u us (browse_up t h).0

browse_up_first :
    (t : Text) (h : History)
    → h.commands ≢ []
    → h.browse_index ≡ no_selection
    → browse_up t h ≡ (
      record h { browse_index = length h.commands - 1; saved_input = t },
      some (get_or h.commands (length h.commands - 1) []),
    )
unfolding browse_up
browse_up_first t h ne e = ground arith

at_zero : (h : History) → h.browse_index ≡ 0 → h.browse_index - 1 ≡ h.browse_index
at_zero h e = omega arith

pred-lt : (cs : List Text) → cs ≢ [] → length cs ≤ no_selection → length cs - 1 < no_selection
pred-lt [] ne q = absurd (ne refl)
pred-lt (c ∷ cs) ne q = omega arith

browse_up_again :
    (t : Text) (h : History)
    → h.commands ≢ []
    → h.browse_index ≢ no_selection
    → browse_up t h ≡ (
      record h { browse_index = h.browse_index - 1 },
      some (get_or h.commands (h.browse_index - 1) []),
    )
unfolding browse_up
browse_up_again t h ne e = ground (arith, at_zero h)

climbed-eq :
    (t : Text) (ts : List Text) (h : History)
    → h.commands ≢ []
    → h.browse_index < no_selection
    → let i = h.browse_index - suc (length ts) in
      climbed t ts h ≡ (record h { browse_index = i }, some (get_or h.commands i []))
unfolding climbed
climbed-eq t [] h ne e = browse_up_again t h ne (omega arith)
climbed-eq t (u ∷ us) h ne e =
    let next : History = record h { browse_index = h.browse_index - 1 } in
    let same : h.browse_index - 1 - suc (length us) ≡ h.browse_index - suc (suc (length us)) =
      omega arith in
    rw (browse_up_again t h ne (omega arith)) (
      climbed-eq u us next ne (omega arith)
      ∙ ap (λ (i : ℕ). (record h { browse_index = i }, some (get_or h.commands i []))) same)

climb-climbed : (t : Text) (ts : List Text) (h : History) → climb (t ∷ ts) h ≡ (climbed t ts h).0
unfolding climb climbed
climb-climbed t [] h = refl
climb-climbed t (u ∷ us) h = climb-climbed u us (browse_up t h).0

descend-eq :
    (n : ℕ) (h : History)
    → h.browse_index + n < length h.commands
    → length h.commands ≤ no_selection
    → descend n h ≡ record h { browse_index = h.browse_index + n }
unfolding descend browse_down
descend-eq zero h p q = ground arith
descend-eq (suc n) h p q =
    let next : History = record h { browse_index = h.browse_index + 1 } in
    let one : (browse_down h).0 ≡ next = ground arith in
    rw one (
      descend-eq n next (omega arith) q
      ∙ ap (λ (i : ℕ). record h { browse_index = i }) (omega arith))

module _ (t : Text) (ts : List Text) (h : History) where
  -- From a history with commands that is not being browsed, the first Up saves the input, and each
  -- further Up goes one command back and stays at the oldest: after `1 + n` of them the index is
  -- `size - 1 - n`, or 0, the last one gives the command there, and nothing else has changed.
  pub climb_lem :
      h.commands ≢ []
      → length h.commands ≤ no_selection
      → h.browse_index ≡ no_selection
      → let i = length h.commands - 1 - length ts in
        climbed t ts h
        ≡ (record h { browse_index = i; saved_input = t }, some (get_or h.commands i []))
  unfolding climbed
  climb_lem ne q e = by_more ts
    where
      by_more :
          (ts : List Text)
          → climbed t ts h ≡ (
            record h { browse_index = length h.commands - 1 - length ts; saved_input = t },
            some (get_or h.commands (length h.commands - 1 - length ts) []),
          )
      by_more [] =
          let z : length h.commands - 1 ≡ length h.commands - 1 - 0 = omega arith in
          browse_up_first t h ne e
          ∙ ap
              (λ (i : ℕ).
                (record h { browse_index = i; saved_input = t }, some (get_or h.commands i [])))
              z
      by_more (u ∷ us) =
          let first : History = record h {
            browse_index = length h.commands - 1;
            saved_input = t;
          } in
          rw (browse_up_first t h ne e) (climbed-eq u us first ne (pred-lt h.commands ne q))

  -- From a history that is not being browsed and has nothing saved, Up `1 + n` times, for `1 + n` at
  -- most the number of commands, then Down as often: the last Down gives back the input that the first
  -- Up saved, and the history is as it was.
  pub browse_down-climb :
      IsIdle h
      → length ts < length h.commands
      → length h.commands ≤ no_selection
      → browse_down (descend (length ts) (climb (t ∷ ts) h)) ≡ (h, some t)
  unfolding browse_down
  browse_down-climb idle p q =
      let top : History = record h {
        browse_index = length h.commands - 1 - length ts;
        saved_input = t;
      } in
      let last : length h.commands - 1 - length ts + length ts ≡ length h.commands - 1 =
        omega arith in
      let ne : h.commands ≢ [] = λ e. absurd (omega (arith, ap length e)) in
      rw (climb-climbed t ts h, climb_lem ne q idle.0)
        (rw (descend-eq (length ts) top (omega arith) q) (ground arith))
