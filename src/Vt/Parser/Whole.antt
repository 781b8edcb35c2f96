-- ===== src/Vt/Parser/Whole.antt =====
-- `parse` from a parser whose buffer holds one sequence: it stays so, and each message shows it.
use corehost.Base.{
  ℕ, ◌<◌, ◌≡◌, refl, sym, ◌∙◌, ap, ◌⊎◌, inl, inr, true, false, not, List, [], ◌∷◌, ◌++◌, some,
  arith, length, take, Bool-cases, if◌then◌else◌,
}
use corehost.Vt.Message.{MessageId, Payload, is_continue, is_unknown, ParseResult}
use corehost.Vt.Parser.{Parser}
use corehost.Vt.Parser.Parse.{
  Parsed, in_ground, parse, make_result, raw_sequence, starts_escape, reset,
}
use corehost.Vt.Parser.Loop.{parse-nil}
use corehost.Vt.Parser.Ways.{Way, parse-Way}
use corehost.Vt.Parser.Progress.{Advances, Way-Advances, id-make_result, consumed-make_result}
use corehost.Vt.Parser.Raw.{
  IsAligned, Way-Kept, Entry-from_start, loop-Kept, reset-IsAligned, raw_sequence-whole,
  raw_sequence-make_result,
}
use corehost.Vt.Parser.Pieces.{some-injective}

-- An aligned parser inside a sequence, or before an ESC: what it has kept afterwards is what it
-- had and what it consumed, and a message delivers exactly that as its raw sequence.
pub parse_raw_sequence :
    (input : List ℕ) (p : Parser)
    → 0 < length input
    → IsAligned p
    → (in_ground p ≡ false) ⊎ (starts_escape input ≡ true)
    → (p' : Parser) × (r : ParseResult) × (parse input p ≡ some (p', r))
      × (p'.raw ≡ p.raw ++ take r.consumed input)
      × (r.raw_sequence ≡ (if is_continue r.id then [] else p'.raw))
unfolding Advances
parse_raw_sequence [] p h a e = elim h [ ]
parse_raw_sequence (c ∷ cs) p h a e =
    let (r, f, w) = parse-Way p c cs in
    let (z, _, _, _) = Way-Advances p c cs r w in
    let (k, s) = Way-Kept p c cs r w a e z in (r.0, r.1, f, k, s)

-- What a caller goes on with: the parser itself inside a sequence, and after a message the reset
-- one.
unfoldable pub next_parser : Parser → MessageId → Parser
next_parser p id = if is_continue id then p else reset p

Way-IsAligned :
    (p : Parser) (c : ℕ) (cs : List ℕ) (r : Parsed)
    → Way p (c ∷ cs) r
    → IsAligned p
    → 0 < r.1.consumed
    → IsAligned (next_parser r.0 r.1.id)
unfolding next_parser
Way-IsAligned p c cs r w a z = elim (Bool-cases (is_continue r.1.id)) [
  | inr done ↦ rw done (reset-IsAligned r.0)
  | inl more ↦ rw more (inside w more)
]
  where
    inside : Way p (c ∷ cs) r → is_continue r.1.id ≡ true → IsAligned r.0
    inside (Way.at_once id n h e y b g o) more =
        cc (ap (λ t. is_continue t.id) e, id-make_result r.0 id n, h.done, more)
    inside (Way.by_loop q i rest s e h f k) more =
        let n = consumed-make_result s.0 s.1 s.2 in
        let same : r.1.consumed ≡ s.2 = ap (λ t. t.1.consumed) k ∙ n in
        let kept = loop-Kept p q (c ∷ cs) i rest s a e h (omega (arith, same, z)) in
        let id_is : r.1.id ≡ s.1 = ap (λ t. t.1.id) k ∙ id-make_result s.0 s.1 s.2 in
        let mode : in_ground s.0 ≡ false =
          h.mode_is ∙ ap (λ x. not (is_continue x)) (sym id_is) ∙ ap not more in
        let parser_is : r.0 ≡ s.0 = ap (λ t. t.0) k in
        rw parser_is (record {
          from_start = kept.from_start;
          in_ground_empty = inl mode;
          inside_escape = inr kept.escape;
        })

-- Alignment is kept by `parse` followed by the reset that a caller makes after each message.
pub parse-IsAligned :
    (input : List ℕ) (p p' : Parser) (r : ParseResult)
    → IsAligned p
    → parse input p ≡ some (p', r)
    → IsAligned (next_parser p' r.id)
unfolding next_parser Advances
parse-IsAligned [] p p' r a e =
    let (k, l) : (p ≡ p') × (make_result p MessageId.continue_ 0 ≡ r) =
      some-injective (sym (parse-nil p) ∙ e) in
    let id_is : MessageId.continue_ ≡ r.id =
      sym (id-make_result p MessageId.continue_ 0) ∙ ap (λ t. t.id) l in
    rw (← id_is, ← k) a
parse-IsAligned (c ∷ cs) p p' r a e =
    let (t, f, w) = parse-Way p c cs in
    let (z, _, _, _) = Way-Advances p c cs t w in
    let (k, l) : (t.0 ≡ p') × (t.1 ≡ r) = some-injective (sym f ∙ e) in
    rw (← k, ← l) (Way-IsAligned p c cs t w a z)

pub message-make_result :
    (p : Parser) (id : MessageId) (n : ℕ)
    → is_continue id ≡ false
    → (make_result p id n).message.payload ≡ p.payload
unfolding make_result
message-make_result p id n done = rw done

unknown_done : (id : MessageId) → is_unknown id ≡ true → is_continue id ≡ false
unknown_done MessageId.unknown_sequence u = refl
unknown_done _ u = cc

Way-text :
    (p : Parser) (c : ℕ) (cs : List ℕ) (r : Parsed)
    → Way p (c ∷ cs) r
    → IsAligned p
    → 0 < r.1.consumed
    → is_unknown r.1.id ≡ true
    → (r.1.message.payload ≡ Payload.text r.1.raw_sequence)
      ⊎ (r.1.message.payload ≡ Payload.text [])
Way-text p c cs r (Way.at_once id n h e y b g o) a z u =
    cc (ap (λ t. is_unknown t.id) e, id-make_result r.0 id n, h.known, u)
Way-text p c cs r (Way.by_loop q i rest s e h f k) a z u =
    let n = consumed-make_result s.0 s.1 s.2 in
    let same : r.1.consumed ≡ s.2 = ap (λ t. t.1.consumed) k ∙ n in
    let kept = loop-Kept p q (c ∷ cs) i rest s a e h (omega (arith, same, z)) in
    let unknown : is_unknown s.1 ≡ true =
      sym (ap is_unknown (ap (λ t. t.1.id) k ∙ id-make_result s.0 s.1 s.2)) ∙ u in
    let done = unknown_done s.1 unknown in
    let payload = message-make_result s.0 s.1 s.2 done in
    let whole : r.1.raw_sequence ≡ s.0.raw =
      ap (λ t. t.1.raw_sequence) k
      ∙ raw_sequence-make_result s.0 s.1 s.2
      ∙ ap (λ b. if b then [] else raw_sequence s.0) done
      ∙ raw_sequence-whole s.0 kept.from_start kept.escape in
    rw k (elim (h.text_is (Entry-from_start p q (c ∷ cs) i rest a e) unknown) [
      | inl t ↦ inl (payload ∙ t ∙ ap Payload.text (sym whole ∙ ap (λ t. t.1.raw_sequence) k))
      | inr t ↦ inr (payload ∙ t)
    ])

-- What an aligned parser cannot read is delivered as a text: all of the sequence, or nothing.
pub parse_unknown_text :
    (input : List ℕ) (p p' : Parser) (r : ParseResult)
    → IsAligned p
    → parse input p ≡ some (p', r)
    → is_unknown r.id ≡ true
    → (r.message.payload ≡ Payload.text r.raw_sequence) ⊎ (r.message.payload ≡ Payload.text [])
unfolding Advances
parse_unknown_text [] p p' r a e u =
    let (_, l) : (p ≡ p') × (make_result p MessageId.continue_ 0 ≡ r) =
      some-injective (sym (parse-nil p) ∙ e) in
    cc (id-make_result p MessageId.continue_ 0, ap (λ t. is_unknown t.id) l, u)
parse_unknown_text (c ∷ cs) p p' r a e u =
    let (t, f, w) = parse-Way p c cs in
    let (z, _, _, _) = Way-Advances p c cs t w in
    let (_, l) : (t.0 ≡ p') × (t.1 ≡ r) = some-injective (sym f ∙ e) in
    rw (← l) (Way-text p c cs t w a z (ap (λ v. is_unknown v.id) l ∙ u))
