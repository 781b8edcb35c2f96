-- ===== src/Vt/Parser/Progress.antt =====
-- What a call of `parse` consumes, and the mode in which it leaves the parser.
use corehost.Base.{
  ℕ, ◌≤◌, ◌<◌, ◌≡◌, refl, ◌∙◌, ap, ◌⊎◌, inl, inr, false, not, List, [], ◌∷◌, some, arith, length,
  Bool-cases, length-append,
}
use corehost.Vt.Message.{MessageId, is_continue, ParseResult}
use corehost.Vt.Parser.{Parser}
use corehost.Vt.Parser.Parse.{Parsed, in_ground, parse, make_result}
use corehost.Vt.Parser.Ways.{Way, parse-Way}

pub id-make_result : (p : Parser) (id : MessageId) (n : ℕ) → (make_result p id n).id ≡ id
unfolding make_result
id-make_result p id n = elim (Bool-cases (is_continue id)) [
  | inl more ↦ rw more
  | inr done ↦ rw done
]

pub consumed-make_result : (p : Parser) (id : MessageId) (n : ℕ) → (make_result p id n).consumed ≡ n
unfolding make_result
consumed-make_result p id n = elim (Bool-cases (is_continue id)) [
  | inl more ↦ rw more
  | inr done ↦ rw done
]

unfoldable pub Advances : List ℕ → Parser → ParseResult → Type 0
Advances input p' r =
    (0 < r.consumed)
    × (r.consumed ≤ length input)
    × (in_ground p' ≡ not (is_continue r.id))
    × ((r.consumed ≡ length input) ⊎ (is_continue r.id ≡ false))

pub Way-Advances :
    (p : Parser) (c : ℕ) (cs : List ℕ) (r : Parsed) → Way p (c ∷ cs) r → Advances (c ∷ cs) r.0 r.1
unfolding Advances in_ground
Way-Advances p c cs r (Way.at_once id n h e z b g s) =
    let i = id-make_result r.0 id n in
    let k = consumed-make_result r.0 id n in rw (e, i, k, h.done, h.mode_is) (z, b, g, inr refl)
Way-Advances p c cs r (Way.by_loop q i rest s e h f k) =
    let n = id-make_result s.0 s.1 s.2 in
    let m = consumed-make_result s.0 s.1 s.2 in
    let l = ap length e.input_is ∙ length-append e.read rest in
    rw (k, n, m)
      (
        omega (arith, l, h.consumed_is, h.some_read, e.index_is),
        omega (arith, l, h.consumed_is, h.count_bound, e.index_is),
        h.mode_is,
        elim h.all_read [
          | inl a ↦ inl (omega (arith, l, a, h.consumed_is, e.index_is))
          | inr d ↦ inr d
        ],
      )

-- On a range that is not empty `parse` returns: it consumes at least one code point and no more
-- than there are, and all of them if it has no message yet; then, and then only, it is left
-- inside a sequence.
pub parse_advances :
    (input : List ℕ) (p : Parser)
    → 0 < length input
    → (p' : Parser) × (r : ParseResult) × (parse input p ≡ some (p', r))
      × (0 < r.consumed)
      × (r.consumed ≤ length input)
      × (in_ground p' ≡ not (is_continue r.id))
      × ((r.consumed ≡ length input) ⊎ (is_continue r.id ≡ false))
unfolding Advances
parse_advances [] p h = elim h [ ]
parse_advances (c ∷ cs) p h =
    let (r, e, w) = parse-Way p c cs in
    let (z, b, m, a) = Way-Advances p c cs r w in (r.0, r.1, e, z, b, m, a)
