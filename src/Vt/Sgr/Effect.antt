-- ===== src/Vt/Sgr/Effect.antt =====
-- Payloads one behind the other: what a second one leaves of the first.
use corehost.Base.{
  ℕ, ◌≡◌, refl, sym, Bool, true, false, not, ◌&&◌, ◌||◌, Option, none, some, if◌then◌else◌, arith,
}
use corehost.Vt.Sgr.{Flag, same_flag, Color, Sgr, no_change, set, clear}

-- A color that a payload leaves unchanged is the one before it.
unfoldable pub over : Color → Color → Color
over Color.unchanged c = c
over Color.default c = Color.default
over (Color.indexed n) c = Color.indexed n
over (Color.rgb r g b) c = Color.rgb r g b

-- The payload of two, one behind the other: a flag is set or cleared as the later one says that names
-- it, and so is a color.
unfoldable pub after : Sgr → Sgr → Sgr
unfolding over
after s t = record {
  set_flags = λ f. t.set_flags f || (s.set_flags f && not (t.clear_flags f));
  clear_flags = λ f. t.clear_flags f || (s.clear_flags f && not (t.set_flags f));
  fg = over t.fg s.fg;
  bg = over t.bg s.bg;
}

-- One bit of a mask given a value, on the value it had.
bit_on :
    (b x : Bool)
    → (if b then true else x)
      ≡ ((if b then true else false) || (x && not (if b then false else false)))
bit_on true x = refl
bit_on false true = refl
bit_on false false = refl

bit_off :
    (b x : Bool)
    → (if b then false else x)
      ≡ ((if b then false else false) || (x && not (if b then true else false)))
bit_off true true = refl
bit_off true false = refl
bit_off false true = refl
bit_off false false = refl

pub after-set : (f : Flag) (s : Sgr) → set f s ≡ after s (set f no_change)
unfolding set after over
after-set f s = λ i. record s {
  set_flags = λ g. bit_on (same_flag g f) (s.set_flags g) i;
  clear_flags = λ g. bit_off (same_flag g f) (s.clear_flags g) i;
}

pub after-clear : (f : Flag) (s : Sgr) → clear f s ≡ after s (clear f no_change)
unfolding clear after over
after-clear f s = λ i. record s {
  set_flags = λ g. bit_off (same_flag g f) (s.set_flags g) i;
  clear_flags = λ g. bit_on (same_flag g f) (s.clear_flags g) i;
}

pub and_true : (x : Bool) → x ≡ (x && true)
and_true true = refl
and_true false = refl

pub after-no_change : (s : Sgr) → s ≡ after s no_change
unfolding after over
after-no_change s = λ i. record s {
  set_flags = λ g. and_true (s.set_flags g) i;
  clear_flags = λ g. and_true (s.clear_flags g) i;
}

mask_assoc :
    (a c d e f : Bool)
    → (e || ((c || (a && not d)) && not f))
      ≡ ((e || (c && not f)) || (a && not (f || (d && not e))))
mask_assoc a c d true f = refl
mask_assoc a c d false f = ground arith

pub over-over : (a b c : Color) → over a (over b c) ≡ over (over a b) c
unfolding over
over-over Color.unchanged b c = refl
over-over Color.default b c = refl
over-over (Color.indexed n) b c = refl
over-over (Color.rgb r g d) b c = refl

pub after-after : (s t u : Sgr) → after (after s t) u ≡ after s (after t u)
unfolding after
after-after s t u = λ i. record {
  set_flags = λ f.
      mask_assoc (s.set_flags f) (t.set_flags f) (t.clear_flags f) (u.set_flags f) (u.clear_flags f)
        i;
  clear_flags = λ f.
      mask_assoc (s.clear_flags f) (t.clear_flags f) (t.set_flags f) (u.clear_flags f)
        (u.set_flags f) i;
  fg = over-over u.fg t.fg s.fg i;
  bg = over-over u.bg t.bg s.bg i;
}

-- One round of the loop from `s` is the round from nothing, behind `s`.
abbrev pub behind : Sgr → Option (Sgr × ℕ) → Option (Sgr × ℕ)
behind s none = none
behind s (some (t, k)) = some (after s t, k)

pub choice :
    (s : Sgr) (b : Bool) (x y x' y' : Option (Sgr × ℕ))
    → x ≡ behind s x'
    → y ≡ behind s y'
    → (if b then x else y) ≡ behind s (if b then x' else y')
choice s true x y x' y' h k = h
choice s false x y x' y' h k = k

pub plain_fg :
    (s : Sgr) (c : Color)
    → ((d : Color) → over c d ≡ c)
    → (k : ℕ) → some (record s { fg = c }, k) ≡ behind s (some (record no_change { fg = c }, k))
unfolding after
plain_fg s c h k = λ i. some (
  record {
    set_flags = λ g. and_true (s.set_flags g) i;
    clear_flags = λ g. and_true (s.clear_flags g) i;
    fg = sym (h s.fg) i;
    bg = s.bg;
  },
  k,
)

pub plain_bg :
    (s : Sgr) (c : Color)
    → ((d : Color) → over c d ≡ c)
    → (k : ℕ) → some (record s { bg = c }, k) ≡ behind s (some (record no_change { bg = c }, k))
unfolding after
plain_bg s c h k = λ i. some (
  record {
    set_flags = λ g. and_true (s.set_flags g) i;
    clear_flags = λ g. and_true (s.clear_flags g) i;
    fg = s.fg;
    bg = sym (h s.bg) i;
  },
  k,
)
