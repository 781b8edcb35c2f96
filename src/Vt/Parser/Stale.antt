-- ===== src/Vt/Parser/Stale.antt =====
-- A charset designation that a control breaks off, and the sequence after it.
use corehost.Base.{ℕ, ◌≡◌, refl, ◌∙◌, ap, Bool, true, false, ◌||◌, [], ◌∷◌, ◌++◌, some, arith, ◌==◌}
use corehost.Vt.Message.{MessageId, ParseResult}
use corehost.Vt.Csi.Dispatch.{dispatch_charset}
use corehost.Vt.Parser.{
  Parser, Mode, initial, is_c0_or_del, parse_esc, finish_seq, to_ground, broken,
}
use corehost.Vt.Parser.Parse.{in_ground, parse, make_result, step, step_in, reset, scan_result}
use corehost.Vt.Parser.Runs.{scan-more, scan-done}
use corehost.Vt.Parser.Loop.{parse-escape}
use corehost.Vt.Parser.Progress.{id-make_result}

-- The code points behind ESC that a left-over designation does not spoil: controls, prefixes and
-- charsets.
unfoldable pub has_meaning : ℕ → Bool
has_meaning ch =
    is_c0_or_del ch
    || ch == b'['
    || ch == b']'
    || ch == b'O'
    || ch == b'('
    || ch == b'0'
    || ch == b'B'

step-left_over :
    (p : Parser) (ch : ℕ)
    → p.mode ≡ Mode.esc
    → p.params.intermediate ≡ b'('
    → has_meaning ch ≡ false
    → (q : Parser) × (step p ch ≡ some (q, MessageId.unknown_sequence))
unfolding step step_in parse_esc has_meaning dispatch_charset finish_seq
step-left_over p ch m i o =
    let a : is_c0_or_del ch ≡ false = ground arith in
    let b : (ch == b'[') ≡ false = ground arith in
    let c : (ch == b']') ≡ false = ground arith in
    let d : (ch == b'O') ≡ false = ground arith in
    let e : (ch == b'(') ≡ false = ground arith in
    let f : (ch == b'0') ≡ false = ground arith in
    let g : (ch == b'B') ≡ false = ground arith in
    let q : Parser =
      to_ground
        (record p { raw = p.raw ++ ch ∷ []; params = record p.params { intermediate = 0 } }) in
    ((finish_seq q MessageId.continue_).0, rw (m, a, b, c, d, e, i, f, g))

-- After ESC and '(' a control breaks the designation off, and leaves the '(' behind.
step-broken_off :
    (p : Parser) (c : ℕ)
    → p.mode ≡ Mode.esc
    → is_c0_or_del c ≡ true
    → step p c ≡ some (broken (record p { raw = p.raw ++ c ∷ [] }))
unfolding step step_in parse_esc
step-broken_off p c m k = rw (m, k)

-- A '(' behind ESC waits for the charset.
step-designates :
    (p : Parser)
    → p.mode ≡ Mode.esc
    → step p b'('
      ≡ some (
        record p { raw = p.raw ++ b'(' ∷ []; params = record p.params { intermediate = b'(' } },
        MessageId.continue_,
      )
unfolding step step_in parse_esc
step-designates p m = rw m

-- A new parser that reads ESC, '(' and a control reports an unknown sequence. After its reset the
-- next ESC sequence is reported as unknown as well, if it is none of those that `ESC (`, a charset
-- or another prefix would make of it.
pub designation_left_over :
    (c ch : ℕ)
    → is_c0_or_del c ≡ true
    → has_meaning ch ≡ false
    → (p q : Parser) × (r s : ParseResult) × (parse (0x1b ∷ b'(' ∷ c ∷ []) initial ≡ some (p, r))
      × (r.id ≡ MessageId.unknown_sequence)
      × (parse (0x1b ∷ ch ∷ []) (reset p) ≡ some (q, s))
      × (s.id ≡ MessageId.unknown_sequence)
unfolding scan_result in_ground reset
designation_left_over c ch k o =
    let unknown = MessageId.unknown_sequence in
    let e : Parser = record initial { raw = 0x1b ∷ []; mode = Mode.esc } in
    let d : Parser = record e {
      raw = 0x1b ∷ b'(' ∷ [];
      params = record e.params { intermediate = b'(' };
    } in
    let p : Parser = (broken (record d { raw = d.raw ++ c ∷ [] })).0 in
    let n : Parser = record (reset p) { raw = 0x1b ∷ []; mode = Mode.esc } in
    let (q, f) = step-left_over n ch refl refl o in
    (
      p,
      q,
      make_result p unknown 3,
      make_result q unknown 2,
      parse-escape initial 0x1b (b'(' ∷ c ∷ []) refl refl
          ∙ ap scan_result (
              scan-more e d MessageId.continue_ 1 b'(' (c ∷ []) (step-designates e refl) refl
              ∙ scan-done d p unknown 2 c [] (step-broken_off d c refl k) refl),
      id-make_result p unknown 3,
      parse-escape (reset p) 0x1b (ch ∷ []) refl refl
          ∙ ap scan_result (scan-done n q unknown 1 ch [] f refl),
      id-make_result q unknown 2,
    )
