-- ===== src/Vt/Parser/Ways.antt =====
-- `parse` by its ways: at once, or through the loop over a sequence.
use corehost.Base.{
  ℕ, zero, suc, ◌≤◌, ◌<◌, ◌≡◌, refl, sym, ◌⊎◌, inl, inr, true, false, List, [], ◌∷◌, ◌++◌, Option,
  some, arith, take, length, Bool-cases, ◌==◌,
}
use mathlib.Core.List.{append-nil}
use corehost.Vt.Message.{MessageId, Payload}
use corehost.Vt.Parser.{Parser, Mode}
use corehost.Vt.Parser.Parse.{
  Parsed, scan, in_ground, parse, parse_in, parse_ground, text_run, scan_result, make_result,
  starts_escape,
}
use corehost.Vt.Parser.Runs.{Scan, Scanned, scan-Scanned}
use corehost.Vt.Parser.Paths.{
  Plain, GivesPlain, text_run_bound, text_run_head, text_run_escape, control-Plain, control-escape,
}

-- How `parse` comes from `p` before `input` to the loop: at `q`, before `rest`.
pub record Entry (p : Parser) (input : List ℕ) (q : Parser) (i : ℕ) (rest : List ℕ) : Type 0 where
  pub inside : in_ground q ≡ false
  pub read : List ℕ
  pub input_is : input ≡ read ++ rest
  pub index_is : i ≡ length read
  pub raw_is : q.raw ≡ p.raw ++ read
  pub start_is : (in_ground p ≡ true → p.raw ≡ []) → p.seq_start ≡ 0 → q.seq_start ≡ 0
  pub in_sequence : (in_ground p ≡ false) ⊎ (starts_escape input ≡ true)

pub data Way (p : Parser) (input : List ℕ) (r : Parsed) : Type 0 where
  at_once :
      (id : MessageId) (n : ℕ)
      → Plain p r.0 id
      → r.1 ≡ make_result r.0 id n
      → 0 < n
      → n ≤ length input
      → in_ground p ≡ true
      → starts_escape input ≡ false
      → Way p input r
  by_loop :
      (q : Parser) (i : ℕ) (rest : List ℕ) (s : Scan)
      → Entry p input q i rest
      → Scanned q i rest s
      → scan i rest q ≡ some s
      → r ≡ (s.0, make_result s.0 s.1 s.2)
      → Way p input r

Parses : Parser → List ℕ → Option Parsed → Type 0
Parses p input o = (r : Parsed) × (o ≡ some r) × Way p input r

loop-Parses :
    (p q : Parser) (input : List ℕ) (i : ℕ) (rest : List ℕ)
    → Entry p input q i rest
    → Parses p input (scan_result (scan i rest q))
unfolding scan_result Parses
loop-Parses p q input i rest e =
    let (s, f, h) = scan-Scanned rest i q e.inside in
    ((s.0, make_result s.0 s.1 s.2), rw f, Way.by_loop q i rest s e h f refl)

escape-Entry :
    (p : Parser) (c : ℕ) (cs : List ℕ)
    → (c == 0x1b) ≡ true
    → in_ground p ≡ true
    → Entry p
        (c ∷ cs)
        (record p { raw = p.raw ++ c ∷ []; seq_start = length p.raw; mode = Mode.esc })
        1
        cs
unfolding in_ground
escape-Entry p c cs e g = record {
  inside = refl;
  read = c ∷ [];
  input_is = refl;
  index_is = refl;
  raw_is = refl;
  start_is = λ h _. rw (h g);
  in_sequence = inr e;
}

-- A message that the first code points give without the loop.
Plain-Parses :
    (p q : Parser) (id : MessageId) (c : ℕ) (cs : List ℕ) (n : ℕ)
    → Plain p q id
    → 0 < n
    → n ≤ length (c ∷ cs)
    → in_ground p ≡ true
    → (c == 0x1b) ≡ false
    → Parses p (c ∷ cs) (some (q, make_result q id n))
unfolding Parses
Plain-Parses p q id c cs n h z b g e =
    ((q, make_result q id n), refl, Way.at_once id n h refl z b g e)

with_text-Plain :
    (p : Parser) (t : List ℕ)
    → Plain p (record p { payload = Payload.text t }) MessageId.continue_text
with_text-Plain p t = record {
  done = refl;
  known = refl;
  raw_is = refl;
  start_is = refl;
  mode_is = refl;
}

ground_text :
    (p : Parser) (c : ℕ) (cs : List ℕ) (n : ℕ)
    → text_run (c ∷ cs) ≡ suc n
    → in_ground p ≡ true
    → Parses p (c ∷ cs) (parse_ground (c ∷ cs) p)
unfolding parse_ground
ground_text p c cs n e g =
    let bound = text_run_bound (c ∷ cs) in
    elim (Bool-cases (c == 0x1b)) [
      | inl escape ↦ let z = text_run_escape c cs escape in absurd (omega (arith, e, z))
      | inr other ↦
          let k : (suc n == 0) ≡ false = ground arith in
          rw (parse_ground, e, k)
            (Plain-Parses p (record p { payload = Payload.text (take (suc n) (c ∷ cs)) })
              MessageId.continue_text c cs (suc n) (with_text-Plain p (take (suc n) (c ∷ cs)))
              (omega arith) (omega arith) g other)
    ]

ground_control :
    (p : Parser) (c : ℕ) (cs : List ℕ)
    → text_run (c ∷ cs) ≡ 0
    → in_ground p ≡ true
    → Parses p (c ∷ cs) (parse_ground (c ∷ cs) p)
unfolding parse_ground GivesPlain
ground_control p c cs e g = elim (Bool-cases (c == 0x1b)) [
  | inl escape ↦
      let next : Parser = record p {
        raw = p.raw ++ c ∷ [];
        seq_start = length p.raw;
        mode = Mode.esc;
      } in
      rw (parse_ground, e, control-escape p c escape)
        (loop-Parses p next (c ∷ cs) 1 cs (escape-Entry p c cs escape g))
  | inr other ↦
      let ((q, id), f, h) = control-Plain p c (text_run_head c cs e) other in
      rw (parse_ground, e, f, h.done)
        (Plain-Parses p q id c cs 1 h (omega arith) (omega arith) g other)
]

loop_Entry : (p : Parser) (input : List ℕ) → in_ground p ≡ false → Entry p input p 0 input
loop_Entry p input g = record {
  inside = g;
  read = [];
  input_is = refl;
  index_is = refl;
  raw_is = sym (append-nil p.raw);
  start_is = λ _ z. z;
  in_sequence = inl g;
}

parse_in-Parses :
    (m : Mode) (p : Parser) (c : ℕ) (cs : List ℕ)
    → in_ground p ≡ in_ground (record p { mode = m })
    → Parses p (c ∷ cs) (parse_in m (c ∷ cs) p)
unfolding parse_in in_ground
parse_in-Parses Mode.ground p c cs g = elim_run (text_run (c ∷ cs)) refl
  where
    elim_run : (n : ℕ) → text_run (c ∷ cs) ≡ n → Parses p (c ∷ cs) (parse_ground (c ∷ cs) p)
    elim_run zero e = ground_control p c cs e g
    elim_run (suc n) e = ground_text p c cs n e g
parse_in-Parses Mode.esc p c cs g = loop-Parses p p (c ∷ cs) 0 (c ∷ cs) (loop_Entry p (c ∷ cs) g)
parse_in-Parses Mode.csi p c cs g = loop-Parses p p (c ∷ cs) 0 (c ∷ cs) (loop_Entry p (c ∷ cs) g)
parse_in-Parses Mode.osc p c cs g = loop-Parses p p (c ∷ cs) 0 (c ∷ cs) (loop_Entry p (c ∷ cs) g)
parse_in-Parses Mode.osc_st p c cs g = loop-Parses p p (c ∷ cs) 0 (c ∷ cs) (loop_Entry p (c ∷ cs) g)
parse_in-Parses Mode.ss3 p c cs g = loop-Parses p p (c ∷ cs) 0 (c ∷ cs) (loop_Entry p (c ∷ cs) g)

-- On a range that is not empty `parse` returns, and goes one of the ways.
pub parse-Way :
    (p : Parser) (c : ℕ) (cs : List ℕ)
    → (r : Parsed) × (parse (c ∷ cs) p ≡ some r) × Way p (c ∷ cs) r
unfolding parse Parses
parse-Way p c cs = parse_in-Parses p.mode p c cs refl
