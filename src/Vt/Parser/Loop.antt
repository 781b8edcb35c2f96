-- ===== src/Vt/Parser/Loop.antt =====
-- `parse` as the loop: inside a sequence, behind an ESC, and on an empty range.
use corehost.Base.{ℕ, ◌≡◌, refl, true, false, List, [], ◌∷◌, ◌++◌, some, length, ◌==◌}
use corehost.Vt.Message.{MessageId}
use corehost.Vt.Parser.{Parser, Mode}
use corehost.Vt.Parser.Parse.{
  scan, in_ground, parse, parse_in, parse_ground, scan_result, make_result,
}
use corehost.Vt.Parser.Paths.{text_run_escape, control-escape}

-- Inside a sequence `parse` is the loop.
pub parse-inside :
    (p : Parser) (input : List ℕ)
    → in_ground p ≡ false
    → parse input p ≡ scan_result (scan 0 input p)
unfolding parse parse_in in_ground
parse-inside p input g = by_mode p.mode g
  where
    by_mode :
        (m : Mode)
        → in_ground (record p { mode = m }) ≡ false
        → parse_in m input p ≡ scan_result (scan 0 input p)
    by_mode Mode.ground g = cc
    by_mode Mode.esc g = refl
    by_mode Mode.csi g = refl
    by_mode Mode.osc g = refl
    by_mode Mode.osc_st g = refl
    by_mode Mode.ss3 g = refl

-- In ground an ESC leads to the loop over the rest.
pub parse-escape :
    (p : Parser) (c : ℕ) (cs : List ℕ)
    → in_ground p ≡ true
    → (c == 0x1b) ≡ true
    → parse (c ∷ cs) p
      ≡ scan_result (
          scan 1 cs (record p { raw = p.raw ++ c ∷ []; seq_start = length p.raw; mode = Mode.esc }))
unfolding parse parse_in in_ground parse_ground
parse-escape p c cs g e = by_mode p.mode g
  where
    by_mode :
        (m : Mode)
        → in_ground (record p { mode = m }) ≡ true
        → parse_in m (c ∷ cs) p
          ≡ scan_result (
              scan 1 cs
                (record p { raw = p.raw ++ c ∷ []; seq_start = length p.raw; mode = Mode.esc }))
    by_mode Mode.ground g = rw (parse_ground, text_run_escape c cs e, control-escape p c e)
    by_mode Mode.esc g = cc
    by_mode Mode.csi g = cc
    by_mode Mode.osc g = cc
    by_mode Mode.osc_st g = cc
    by_mode Mode.ss3 g = cc

pub parse-nil : (p : Parser) → parse [] p ≡ some (p, make_result p MessageId.continue_ 0)
unfolding parse parse_in parse_ground
parse-nil p = by_mode p.mode
  where
    by_mode : (m : Mode) → parse_in m [] p ≡ some (p, make_result p MessageId.continue_ 0)
    by_mode Mode.ground = refl
    by_mode Mode.esc = unfold scan scan_result in refl
    by_mode Mode.csi = unfold scan scan_result in refl
    by_mode Mode.osc = unfold scan scan_result in refl
    by_mode Mode.osc_st = unfold scan scan_result in refl
    by_mode Mode.ss3 = unfold scan scan_result in refl
