-- ===== src/Vt/Parser/Paths.antt =====
-- The ways through `parse`: a run of text, a control of its own, or the loop.
use corehost.Base.{
  ap, ℕ, ◌≤◌, ◌≡◌, refl, Bool, true, false, List, [], ◌∷◌, ◌++◌, Option, some, arith, length, ◌==◌,
}
use corehost.Vt.Message.{MessageId, is_continue, is_unknown}
use corehost.Vt.Parser.{Parser, Mode, is_c0_or_del}
use corehost.Vt.Parser.Parse.{
  parse_ground_control, GroundCharKind, classify_ground_char, control_message, text_run,
}

-- A message that involves no sequence.
pub record Plain (p q : Parser) (id : MessageId) : Type 0 where
  pub done : is_continue id ≡ false
  pub known : is_unknown id ≡ false
  pub raw_is : q.raw ≡ p.raw
  pub start_is : q.seq_start ≡ p.seq_start
  pub mode_is : q.mode ≡ p.mode

unfoldable pub GivesPlain : Parser → Option (Parser × MessageId) → Type 0
GivesPlain p o = (r : Parser × MessageId) × (o ≡ some r) × Plain p r.0 r.1

plain :
    (p q : Parser) (id : MessageId)
    → is_continue id ≡ false
    → is_unknown id ≡ false
    → q.raw ≡ p.raw
    → q.seq_start ≡ p.seq_start
    → q.mode ≡ p.mode
    → GivesPlain p (some (q, id))
unfolding GivesPlain
plain p q id d k r s m =
    ((q, id), refl, record { done = d; known = k; raw_is = r; start_is = s; mode_is = m })

-- The classes of the controls but ESC.
abbrev is_message : GroundCharKind → Bool
is_message GroundCharKind.printable = false
is_message GroundCharKind.escape = false
is_message _ = true

classify-message :
    (ch : ℕ)
    → is_c0_or_del ch ≡ true
    → (ch == 0x1b) ≡ false
    → is_message (classify_ground_char ch) ≡ true
unfolding classify_ground_char
classify-message ch c e = ground arith

classify-escape : (ch : ℕ) → (ch == 0x1b) ≡ true → classify_ground_char ch ≡ GroundCharKind.escape
unfolding classify_ground_char
classify-escape ch e = ground arith

kind-Plain :
    (k : GroundCharKind) (p : Parser) (ch : ℕ)
    → is_message k ≡ true
    → GivesPlain p (control_message k p ch)
unfolding control_message
kind-Plain GroundCharKind.printable p ch h = cc
kind-Plain GroundCharKind.escape p ch h = cc
kind-Plain GroundCharKind.carriage_return p ch h = plain p _ _ refl refl refl refl refl
kind-Plain GroundCharKind.line_feed p ch h = plain p _ _ refl refl refl refl refl
kind-Plain GroundCharKind.tab p ch h = plain p _ _ refl refl refl refl refl
kind-Plain GroundCharKind.nul p ch h = plain p _ _ refl refl refl refl refl
kind-Plain GroundCharKind.backspace p ch h = plain p _ _ refl refl refl refl refl
kind-Plain GroundCharKind.del p ch h = plain p _ _ refl refl refl refl refl
kind-Plain GroundCharKind.sub p ch h = plain p _ _ refl refl refl refl refl
kind-Plain GroundCharKind.other_control p ch h = plain p _ _ refl refl refl refl refl

pub control-Plain :
    (p : Parser) (ch : ℕ)
    → is_c0_or_del ch ≡ true
    → (ch == 0x1b) ≡ false
    → GivesPlain p (parse_ground_control p ch)
unfolding parse_ground_control
control-Plain p ch c e = kind-Plain (classify_ground_char ch) p ch (classify-message ch c e)

pub control-escape :
    (p : Parser) (c : ℕ)
    → (c == 0x1b) ≡ true
    → parse_ground_control p c
      ≡ some (
        record p { raw = p.raw ++ c ∷ []; seq_start = length p.raw; mode = Mode.esc },
        MessageId.continue_,
      )
unfolding parse_ground_control control_message
control-escape p c e = ap (λ k. control_message k p c) (classify-escape c e)

pub text_run_bound : (cs : List ℕ) → text_run cs ≤ length cs
unfolding text_run
text_run_bound [] = omega arith
text_run_bound (c ∷ cs) = let h = text_run_bound cs in ground arith

pub text_run_head : (c : ℕ) (cs : List ℕ) → text_run (c ∷ cs) ≡ 0 → is_c0_or_del c ≡ true
unfolding text_run
text_run_head c cs h = ground arith

pub text_run_escape : (c : ℕ) (cs : List ℕ) → (c == 0x1b) ≡ true → text_run (c ∷ cs) ≡ 0
unfolding text_run
text_run_escape c cs h = ground arith
