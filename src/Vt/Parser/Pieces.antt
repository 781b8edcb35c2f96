-- ===== src/Vt/Parser/Pieces.antt =====
-- The loop over a piece of a stream, and over more behind it.
use corehost.Base.{
  ℕ, suc, ◌+◌, ◌≡◌, refl, sym, ◌∙◌, ap, inl, inr, true, false, not, List, [], ◌∷◌, ◌++◌, Option,
  none, some, arith, length, Bool-cases, if◌then◌else◌, if_true, if_false,
}
use corehost.Vt.Message.{MessageId, is_continue, ParseResult}
use corehost.Vt.Parser.{Parser}
use corehost.Vt.Parser.Parse.{Parsed, in_ground, parse, make_result, scan, scan_result}
use corehost.Vt.Parser.Steps.{step-Handled}
use corehost.Vt.Parser.Runs.{scan-more, scan-done, scan-Scanned}
use corehost.Vt.Parser.Loop.{parse-inside}
use corehost.Vt.Parser.Progress.{id-make_result}

-- The same outcome with `k` code points consumed before it.
pub shifted : ℕ → Option Parsed → Option Parsed
shifted k none = none
shifted k (some (p, r)) = some (p, record r { consumed = k + r.consumed })

make_result-add :
    (p : Parser) (id : MessageId) (k n : ℕ)
    → make_result p id (k + n)
      ≡ record (make_result p id n) { consumed = k + (make_result p id n).consumed }
unfolding make_result
make_result-add p id k n = elim (Bool-cases (is_continue id)) [
  | inl more ↦ rw more
  | inr done ↦ rw done
]

scan_result-add :
    (cs : List ℕ) (k i : ℕ) (p : Parser)
    → in_ground p ≡ false
    → scan_result (scan (k + i) cs p) ≡ shifted k (scan_result (scan i cs p))
unfolding scan_result shifted
scan_result-add [] k i p m =
    unfold scan in ap (λ r. some (p, r)) (make_result-add p MessageId.continue_ k i)
scan_result-add (ch ∷ cs) k i p m =
    let ((q, id), e, h) = step-Handled p ch m in
    let assoc : k + i + 1 ≡ k + (i + 1) = omega arith in
    elim (Bool-cases (is_continue id)) [
      | inl more ↦
          let g = h.mode_is ∙ ap not more in
          rw (scan-more p q id (k + i) ch cs e more, scan-more p q id i ch cs e more, assoc)
            (scan_result-add cs k (i + 1) q g)
      | inr done ↦
          rw (scan-done p q id (k + i) ch cs e done, scan-done p q id i ch cs e done, assoc)
            (ap (λ r. some (q, r)) (make_result-add q id k (i + 1)))
    ]

scan-append :
    (cs bs : List ℕ) (i n : ℕ) (p p' : Parser) (id : MessageId)
    → in_ground p ≡ false
    → scan i cs p ≡ some (p', id, n)
    → is_continue id ≡ true
    → scan i (cs ++ bs) p ≡ scan (i + length cs) bs p'
unfolding scan
scan-append [] bs i n p p' id m e c =
    let z : i + 0 ≡ i = omega arith in let same : p ≡ p' = cc in rw (z, same)
scan-append (ch ∷ cs) bs i n p p' id m e c =
    let ((q, id'), f, h) = step-Handled p ch m in
    elim (Bool-cases (is_continue id')) [
      | inl more ↦
          let g = h.mode_is ∙ ap not more in
          let rest = sym (scan-more p q id' i ch cs f more) ∙ e in
          let assoc : i + 1 + length cs ≡ i + suc (length cs) = omega arith in
          scan-more p q id' i ch (cs ++ bs) f more
          ∙ scan-append cs bs (i + 1) n q p' id g rest c
          ∙ ap (λ j. scan j bs p') assoc
      | inr done ↦
          let stop = sym (scan-done p q id' i ch cs f done) ∙ e in
          let same : id' ≡ id = cc stop in cc (same, c, done)
    ]

pub some-injective :
    {p q : Parser} {r t : ParseResult}
    → ◌≡◌ {A = Option Parsed} (some (p, r)) (some (q, t))
    → (p ≡ q) × (r ≡ t)
some-injective e = (cc, cc)

-- The loop over the first piece gave no message: the loop over both goes on behind it.
loop-append :
    (q p' : Parser) (i : ℕ) (rest bs : List ℕ) (r : ParseResult)
    → in_ground q ≡ false
    → scan_result (scan i rest q) ≡ some (p', r)
    → is_continue r.id ≡ true
    → scan_result (scan i (rest ++ bs) q) ≡ shifted (i + length rest) (parse bs p')
unfolding scan_result
loop-append q p' i rest bs r g e c =
    let (s, f, h) = scan-Scanned rest i q g in
    let (same, result) : (s.0 ≡ p') × (make_result s.0 s.1 s.2 ≡ r) =
      some-injective (sym (ap scan_result f) ∙ e) in
    let more : is_continue s.1 ≡ true =
      ap is_continue (sym (id-make_result s.0 s.1 s.2) ∙ ap (λ t. t.id) result) ∙ c in
    let inside : in_ground p' ≡ false = sym (ap in_ground same) ∙ h.mode_is ∙ ap not more in
    let z : i + length rest ≡ i + length rest + 0 = omega arith in
    ap scan_result (scan-append rest bs i s.2 q s.0 s.1 g f more)
    ∙ ap (λ t. scan_result (scan (i + length rest) bs t)) same
    ∙ ap (λ n. scan_result (scan n bs p')) z
    ∙ scan_result-add bs (i + length rest) 0 p' inside
    ∙ ap (shifted (i + length rest)) (sym (parse-inside p' bs inside))

pub shifted_zero : (o : Option Parsed) → shifted 0 o ≡ o
unfolding shifted
shifted_zero none = refl
shifted_zero (some (p, r)) =
    let z : 0 + r.consumed ≡ r.consumed = omega arith in
    ap (λ n. some (p, record r { consumed = n })) z

-- A message ends the loop, whatever comes behind it.
scan-append_done :
    (cs bs : List ℕ) (i n : ℕ) (p p' : Parser) (id : MessageId)
    → in_ground p ≡ false
    → scan i cs p ≡ some (p', id, n)
    → is_continue id ≡ false
    → scan i (cs ++ bs) p ≡ some (p', id, n)
unfolding scan
scan-append_done [] bs i n p p' id m e c = let same : MessageId.continue_ ≡ id = cc in cc (same, c)
scan-append_done (ch ∷ cs) bs i n p p' id m e c =
    let ((q, id'), f, h) = step-Handled p ch m in
    elim (Bool-cases (is_continue id')) [
      | inl more ↦
          let g = h.mode_is ∙ ap not more in
          let rest = sym (scan-more p q id' i ch cs f more) ∙ e in
          scan-more p q id' i ch (cs ++ bs) f more
          ∙ scan-append_done cs bs (i + 1) n q p' id g rest c
      | inr done ↦
          scan-done p q id' i ch (cs ++ bs) f done ∙ sym (scan-done p q id' i ch cs f done) ∙ e
    ]

-- The outcome of two pieces by the outcome of the first: its message, or that of the second.
abbrev pub continued : Parser → ParseResult → ℕ → List ℕ → Option Parsed
continued p' r n b = if is_continue r.id then shifted n (parse b p') else some (p', r)

pub loop-append_any :
    (q p' : Parser) (i : ℕ) (rest bs : List ℕ) (r : ParseResult)
    → in_ground q ≡ false
    → scan_result (scan i rest q) ≡ some (p', r)
    → scan_result (scan i (rest ++ bs) q) ≡ continued p' r (i + length rest) bs
unfolding scan_result
loop-append_any q p' i rest bs r g e = elim (Bool-cases (is_continue r.id)) [
  | inl more ↦ rw (if_true _ _ more) (loop-append q p' i rest bs r g e more)
  | inr done ↦
      let (s, f, h) = scan-Scanned rest i q g in
      let (_, result) : (s.0 ≡ p') × (make_result s.0 s.1 s.2 ≡ r) =
        some-injective (sym (ap scan_result f) ∙ e) in
      let message : is_continue s.1 ≡ false =
        ap is_continue (sym (id-make_result s.0 s.1 s.2) ∙ ap (λ t. t.id) result) ∙ done in
      rw (if_false _ _ done) (
        ap scan_result (scan-append_done rest bs i s.2 q s.0 s.1 g f message)
        ∙ sym (ap scan_result f)
        ∙ e)
]
