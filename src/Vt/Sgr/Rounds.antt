-- ===== src/Vt/Sgr/Rounds.antt =====
-- The loop over the SGR parameters: each round adds its change behind those before it.
use corehost.Base.{
  ℕ, zero, suc, ◌+◌, ◌-◌, ◌%◌, ◌≡◌, refl, sym, ap, ◌∙◌, List, [], ◌∷◌, Option, none, some, ◌==◌,
  within, if◌then◌else◌, Bool-cases, Option-cases, inl, inr,
}
use corehost.Vt.Sgr.{
  Flag, Color, Sgr, no_change, set, clear, extended_color, color_param, flag_on, flag_off,
  sgr_param, sgr_loop, with_fg, with_bg, map_some, is_empty,
}
use corehost.Vt.Sgr.Effect.{
  after, over, after-set, after-clear, after-no_change, after-after, behind, choice, plain_fg,
  plain_bg,
}

extended-behind :
    (s : Sgr) (rest : List ℕ)
    → (map_some (with_fg s) (extended_color rest)
        ≡ behind s (map_some (with_fg no_change) (extended_color rest)))
      × (map_some (with_bg s) (extended_color rest)
          ≡ behind s (map_some (with_bg no_change) (extended_color rest)))
unfolding extended_color over
extended-behind s [] = (refl, refl)
extended-behind s (kind ∷ []) = (refl, refl)
extended-behind s (kind ∷ v ∷ []) = elim (Bool-cases (kind == 5)) [
  | inl y ↦ rw y (
    plain_fg s (Color.indexed (v % 256)) (λ d. refl) 2,
    plain_bg s (Color.indexed (v % 256)) (λ d. refl) 2,
  )
  | inr n ↦ rw n (refl, refl)
]
extended-behind s (kind ∷ v ∷ g ∷ []) = elim (Bool-cases (kind == 5)) [
  | inl y ↦ rw y (
    plain_fg s (Color.indexed (v % 256)) (λ d. refl) 2,
    plain_bg s (Color.indexed (v % 256)) (λ d. refl) 2,
  )
  | inr n ↦ rw n (refl, refl)
]
extended-behind s (kind ∷ v ∷ g ∷ b ∷ rest) = elim (Bool-cases (kind == 5)) [
  | inl y ↦ rw y (
    plain_fg s (Color.indexed (v % 256)) (λ d. refl) 2,
    plain_bg s (Color.indexed (v % 256)) (λ d. refl) 2,
  )
  | inr n ↦ elim (Bool-cases (kind == 2)) [
    | inl y ↦
        rw (n, y)
          (
            plain_fg s (Color.rgb (v % 256) (g % 256) (b % 256)) (λ d. refl) 4,
            plain_bg s (Color.rgb (v % 256) (g % 256) (b % 256)) (λ d. refl) 4,
          )
    | inr m ↦ rw (n, m) (refl, refl)
  ]
]

nothing : (s : Sgr) (k : ℕ) → some (s, k) ≡ behind s (some (no_change, k))
nothing s k = ap (λ t. some (t, k)) (after-no_change s)

color_param-behind :
    (v : ℕ) (rest : List ℕ) (s : Sgr)
    → color_param v rest s ≡ behind s (color_param v rest no_change)
unfolding color_param over
color_param-behind v rest s =
    let (fg, bg) = extended-behind s rest in
    choice s (within 30 37 v) _ _ _ _ (plain_fg s (Color.indexed (v - 30)) (λ d. refl) 0) (
      choice s (v == 38) _ _ _ _ (choice s (is_empty rest) _ _ _ _ (nothing s 0) fg) (
        choice s (v == 39) _ _ _ _ (plain_fg s Color.default (λ d. refl) 0) (
          choice s (within 40 47 v) _ _ _ _ (plain_bg s (Color.indexed (v - 40)) (λ d. refl) 0) (
            choice s (v == 48) _ _ _ _ (choice s (is_empty rest) _ _ _ _ (nothing s 0) bg) (
              choice s (v == 49) _ _ _ _ (plain_bg s Color.default (λ d. refl) 0) (
                choice s (within 90 97 v) _ _ _ _
                  (plain_fg s (Color.indexed (v - 90 + 8)) (λ d. refl) 0)
                  (choice s (within 100 107 v) _ _ _ _
                    (plain_bg s (Color.indexed (v - 100 + 8)) (λ d. refl) 0) (nothing s 0))))))))

flag_off-behind :
    (v : ℕ) (rest : List ℕ) (s : Sgr) (o : Option Flag)
    → (elim o [ some f ↦ some (clear f s, 0) | none ↦ color_param v rest s ])
      ≡ behind s
          (elim o [ some f ↦ some (clear f no_change, 0) | none ↦ color_param v rest no_change ])
flag_off-behind v rest s none = color_param-behind v rest s
flag_off-behind v rest s (some f) = ap (λ t. some (t, 0)) (after-clear f s)

clear_both :
    (s : Sgr)
    → clear Flag.faint (clear Flag.bold s) ≡ after s (clear Flag.faint (clear Flag.bold no_change))
clear_both s =
    let bold = clear Flag.bold no_change in
    let faint = clear Flag.faint no_change in
    after-clear Flag.faint (clear Flag.bold s)
    ∙ ap (λ t. after t faint) (after-clear Flag.bold s)
    ∙ after-after s bold faint
    ∙ ap (after s) (sym (after-clear Flag.faint bold))

flag_on-behind :
    (v : ℕ) (rest : List ℕ) (s : Sgr) (o : Option Flag)
    → (elim o [
      | some f ↦ some (set f s, 0)
      | none ↦
          if v == 22
          then some (clear Flag.faint (clear Flag.bold s), 0)
          else elim (flag_off v) [ some f ↦ some (clear f s, 0) | none ↦ color_param v rest s ]
    ])
      ≡ behind s (elim o [
        | some f ↦ some (set f no_change, 0)
        | none ↦
            if v == 22
            then some (clear Flag.faint (clear Flag.bold no_change), 0)
            else elim (flag_off v) [
              | some f ↦ some (clear f no_change, 0)
              | none ↦ color_param v rest no_change
            ]
      ])
flag_on-behind v rest s (some f) = ap (λ t. some (t, 0)) (after-set f s)
flag_on-behind v rest s none =
    choice s (v == 22) _ _ _ _ (ap (λ t. some (t, 0)) (clear_both s))
      (flag_off-behind v rest s (flag_off v))

pub sgr_param-behind :
    (v : ℕ) (rest : List ℕ) (s : Sgr) → sgr_param v rest s ≡ behind s (sgr_param v rest no_change)
unfolding sgr_param
sgr_param-behind v rest s = flag_on-behind v rest s (flag_on v)

abbrev pub then_after : Sgr → Option Sgr → Option Sgr
then_after s none = none
then_after s (some t) = some (after s t)

then_after-after :
    (s t : Sgr) (o : Option Sgr) → then_after (after s t) o ≡ then_after s (then_after t o)
then_after-after s t none = refl
then_after-after s t (some u) = ap some (after-after s t u)

-- The loop from `s` is the loop from nothing, behind `s`.
pub sgr_loop-behind :
    (ps : List ℕ) (k : ℕ) (s : Sgr) → sgr_loop ps k s ≡ then_after s (sgr_loop ps k no_change)
unfolding sgr_loop
sgr_loop-behind [] k s = ap some (after-no_change s)
sgr_loop-behind (v ∷ rest) (suc k) s = sgr_loop-behind rest k s
sgr_loop-behind (v ∷ rest) zero s = elim (Option-cases (sgr_param v rest no_change)) [
  | inl e ↦
      let f : sgr_param v rest s ≡ none = sgr_param-behind v rest s ∙ ap (behind s) e in
      rw (sgr_loop, e, f)
  | inr ((t, k), e) ↦
      let f : sgr_param v rest s ≡ some (after s t, k) =
        sgr_param-behind v rest s ∙ ap (behind s) e in
      rw (sgr_loop, e, f)
        (sgr_loop-behind rest k (after s t)
          ∙ then_after-after s t (sgr_loop rest k no_change)
          ∙ ap (then_after s) (sym (sgr_loop-behind rest k t)))
]
