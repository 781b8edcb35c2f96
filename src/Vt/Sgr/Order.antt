-- ===== src/Vt/Sgr/Order.antt =====
-- How far the order of the SGR parameters reaches the payload.
use corehost.Base.{
  ℕ, ◌≡◌, refl, sym, ap, ◌∙◌, Bool, true, false, not, ◌&&◌, ◌||◌, List, [], ◌∷◌, Option, some, ◌==◌,
  within, if◌then◌else◌, Bool-cases, Option-cases, inl, inr, arith,
}
use corehost.Vt.Sgr.{
  Flag, Sgr, no_change, set, clear, color_param, flag_on, flag_off, sgr_param, sgr_loop, same_flag,
}
use corehost.Vt.Sgr.Effect.{after, over, after-no_change, behind}
use corehost.Vt.Sgr.Rounds.{sgr_param-behind, sgr_loop-behind, then_after}

-- A round that reads no parameter behind its own, and does not clear the reset.
Alone : Option (Sgr × ℕ) → Option (Sgr × ℕ) → Type 0
Alone o o' = (t : Sgr) × (o ≡ some (t, 0)) × (o' ≡ some (t, 0)) × (t.clear_flags Flag.reset ≡ false)

same : (t : Sgr) → t.clear_flags Flag.reset ≡ false → Alone (some (t, 0)) (some (t, 0))
unfolding Alone
same t h = (t, refl, refl, h)

pick :
    (b : Bool) (x y x' y' : Option (Sgr × ℕ))
    → Alone x x'
    → Alone y y'
    → Alone (if b then x else y) (if b then x' else y')
pick true x y x' y' h k = h
pick false x y x' y' h k = k

color_param-Alone :
    (v : ℕ) (rest : List ℕ)
    → (v == 38) ≡ false
    → (v == 48) ≡ false
    → Alone (color_param v rest no_change) (color_param v [] no_change)
unfolding color_param
color_param-Alone v rest h k =
    rw (h, k)
      (pick (within 30 37 v) _ _ _ _ (same _ refl) (
        pick (v == 39) _ _ _ _ (same _ refl) (
          pick (within 40 47 v) _ _ _ _ (same _ refl) (
            pick (v == 49) _ _ _ _ (same _ refl) (
              pick (within 90 97 v) _ _ _ _ (same _ refl)
                (pick (within 100 107 v) _ _ _ _ (same _ refl) (same _ refl)))))))

flag_off-kept : (v : ℕ) (f : Flag) → flag_off v ≡ some f → same_flag Flag.reset f ≡ false
unfolding flag_off
flag_off-kept v f e = ground arith

sgr_param-Alone :
    (v : ℕ) (rest : List ℕ)
    → (v == 38) ≡ false
    → (v == 48) ≡ false
    → Alone (sgr_param v rest no_change) (sgr_param v [] no_change)
unfolding sgr_param
sgr_param-Alone v rest h k = elim (Option-cases (flag_on v)) [
  | inr (f, e) ↦ rw (sgr_param, e) (same (set f no_change) (reset_set f))
  | inl e ↦
      rw (sgr_param, e)
        (pick (v == 22) _ _ _ _ (same (clear Flag.faint (clear Flag.bold no_change)) cleared)
          (elim (Option-cases (flag_off v)) [
            | inr (f, g) ↦ rw g (
                same (clear f no_change)
                  (unfold clear in ap (λ b. if b then true else false) (flag_off-kept v f g)))
            | inl g ↦ rw g (color_param-Alone v rest h k)
          ]))
]
  where
    cleared : (clear Flag.faint (clear Flag.bold no_change)).clear_flags Flag.reset ≡ false
    cleared = unfold clear in refl

    reset_set : (f : Flag) → (set f no_change).clear_flags Flag.reset ≡ false
    reset_set f =
        unfold set in elim (Bool-cases (same_flag Flag.reset f)) [ inl y ↦ rw y | inr n ↦ rw n ]

sgr_loop-cons :
    (v : ℕ) (rest : List ℕ) (t : Sgr)
    → sgr_param v rest no_change ≡ some (t, 0)
    → sgr_loop (v ∷ rest) 0 no_change ≡ then_after t (sgr_loop rest 0 no_change)
unfolding sgr_loop
sgr_loop-cons v rest t e = rw (sgr_loop, e) (sgr_loop-behind rest 0 t)

-- A first parameter other than 38 and 48, before parameters that are accepted: the payload is that of
-- the first parameter with the payload of the rest behind it, so that of the parameters that name a
-- flag or a color the last one decides it.
pub sgr_loop-one_by_one :
    (v : ℕ) (rest : List ℕ) (a b : Sgr)
    → (v == 38) ≡ false
    → (v == 48) ≡ false
    → sgr_loop (v ∷ []) 0 no_change ≡ some a
    → sgr_loop rest 0 no_change ≡ some b
    → sgr_loop (v ∷ rest) 0 no_change ≡ some (after a b)
unfolding Alone sgr_loop
sgr_loop-one_by_one v rest a b h k e f =
    let (t, x, y, _) = sgr_param-Alone v rest h k in
    let first : t ≡ a = cc (sym (sgr_loop-cons v [] t y) ∙ e, after-no_change t) in
    sgr_loop-cons v rest t x ∙ ap (then_after t) f ∙ ap (λ u. some (after u b)) first

-- A mask and a reset behind each other, in either order, where the mask does not clear the reset.
set_swap :
    (r v vc x : Bool)
    → (r && vc) ≡ false
    → ((if r then true else false) || ((v || (x && not vc)) && not (if r then false else false)))
      ≡ (v || (((if r then true else false) || (x && not (if r then false else false))) && not vc))
set_swap true true vc x h = refl
set_swap true false true x h = cc
set_swap true false false x h = refl
set_swap false v vc x h = ground arith

clear_swap :
    (r v vc x : Bool)
    → (r && vc) ≡ false
    → ((if r then false else false) || ((vc || (x && not v)) && not (if r then true else false)))
      ≡ (vc || (((if r then false else false) || (x && not (if r then true else false))) && not v))
clear_swap true v vc x h = ground arith
clear_swap false v vc x h = ground arith

reset_kept :
    (t : Sgr) (f : Flag)
    → t.clear_flags Flag.reset ≡ false
    → (same_flag f Flag.reset && t.clear_flags f) ≡ false
reset_kept t Flag.reset h = h
reset_kept t _ h = refl

reset_swap :
    (s t : Sgr)
    → t.clear_flags Flag.reset ≡ false
    → after (after s t) (set Flag.reset no_change) ≡ after (after s (set Flag.reset no_change)) t
unfolding after set over
reset_swap s t h = λ i. record {
  set_flags = λ f.
      set_swap (same_flag f Flag.reset) (t.set_flags f) (t.clear_flags f) (s.set_flags f)
        (reset_kept t f h) i;
  clear_flags = λ f.
      clear_swap (same_flag f Flag.reset) (t.set_flags f) (t.clear_flags f) (s.clear_flags f)
        (reset_kept t f h) i;
  fg = over t.fg s.fg;
  bg = over t.bg s.bg;
}

sgr_loop-step :
    (v : ℕ) (rest : List ℕ) (s t : Sgr)
    → sgr_param v rest no_change ≡ some (t, 0)
    → sgr_loop (v ∷ rest) 0 s ≡ sgr_loop rest 0 (after s t)
unfolding sgr_loop
sgr_loop-step v rest s t e =
    let f : sgr_param v rest s ≡ some (after s t, 0) =
      sgr_param-behind v rest s ∙ ap (behind s) e in
    rw (sgr_loop, f)

-- A reset directly behind a parameter other than 38 and 48 gives the payload that it gives
-- directly before it: the attribute or color outlives the reset.
pub sgr_loop-reset_swap :
    (v : ℕ) (rest : List ℕ) (s : Sgr)
    → (v == 38) ≡ false
    → (v == 48) ≡ false
    → sgr_loop (v ∷ 0 ∷ rest) 0 s ≡ sgr_loop (0 ∷ v ∷ rest) 0 s
unfolding Alone sgr_param flag_on
sgr_loop-reset_swap v rest s h k =
    let (t, x, y, c) = sgr_param-Alone v (0 ∷ rest) h k in
    let (u, x', y', _) = sgr_param-Alone v rest h k in
    let first : t ≡ u = cc (sym y ∙ y') in
    let r = set Flag.reset no_change in
    sgr_loop-step v (0 ∷ rest) s t x
    ∙ sgr_loop-step 0 rest (after s t) r refl
    ∙ ap (sgr_loop rest 0) (reset_swap s t c ∙ ap (after (after s r)) first)
    ∙ sym (sgr_loop-step v rest (after s r) u x')
    ∙ sym (sgr_loop-step 0 (v ∷ rest) s r refl)
