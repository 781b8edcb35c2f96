-- ===== src/Vt/Parser/Chunks.antt =====
-- A stream that comes in pieces: `parse` goes on where the last piece left it.
use corehost.Base.{
  ℕ, suc, ◌≡◌, refl, sym, ◌∙◌, ap, inl, inr, true, false, not, List, [], ◌∷◌, ◌++◌, some, arith,
  length, Bool-cases, ◌==◌, Bool, ◌≤◌, ◌&&◌, ◌⊎◌, leb, take, zero, if_true, if_false,
}
use corehost.Vt.Message.{MessageId, is_continue, ParseResult}
use corehost.Vt.Parser.{Parser, Mode}
use corehost.Vt.Parser.Parse.{
  Parsed, in_ground, parse, parse_in, parse_ground, text_run, make_result,
}
use corehost.Vt.Parser.Paths.{GivesPlain, control-Plain, text_run_bound, text_run_head}
use corehost.Vt.Parser.Loop.{parse-nil, parse-inside, parse-escape}
use corehost.Vt.Parser.Ways.{Way, parse-Way}
use corehost.Vt.Parser.Progress.{id-make_result}
use corehost.Vt.Parser.Pieces.{shifted_zero, some-injective, continued, loop-append_any}

-- A text has no control: no code point below the space, and no DEL.
abbrev pub all_text : List ℕ → Bool
all_text [] = true
all_text (c ∷ cs) = leb 32 c && not (c == 127) && all_text cs

text_run-append : (cs bs : List ℕ) → all_text cs ≡ false → text_run (cs ++ bs) ≡ text_run cs
unfolding text_run
text_run-append [] bs h = cc
text_run-append (c ∷ cs) bs h = elim (Bool-cases (all_text cs)) [
  | inl rest ↦ ground arith
  | inr rest ↦ let e = text_run-append cs bs rest in ground arith
]

take-append : (n : ℕ) (cs bs : List ℕ) → n ≤ length cs → take n (cs ++ bs) ≡ take n cs
take-append zero cs bs h = refl
take-append (suc n) [] bs h = absurd (omega arith)
take-append (suc n) (c ∷ cs) bs h = ap (c ∷◌) (take-append n cs bs (omega arith))

-- Other than by an ESC, a piece in ground that is not all text gives its message by itself.
parse_ground-append :
    (p : Parser) (c : ℕ) (cs bs : List ℕ)
    → all_text (c ∷ cs) ≡ false
    → (c == 0x1b) ≡ false
    → parse_ground (c ∷ (cs ++ bs)) p ≡ parse_ground (c ∷ cs) p
unfolding parse_ground GivesPlain
parse_ground-append p c cs bs mixed other = by_run (text_run (c ∷ cs)) refl
  where
    both : text_run (c ∷ (cs ++ bs)) ≡ text_run (c ∷ cs)
    both = text_run-append (c ∷ cs) bs mixed

    by_run :
        (n : ℕ) → text_run (c ∷ cs) ≡ n → parse_ground (c ∷ (cs ++ bs)) p ≡ parse_ground (c ∷ cs) p
    by_run zero e =
        let ((q, id), f, h) = control-Plain p c (text_run_head c cs e) other in
        rw (parse_ground, both, e, f, h.done) refl
    by_run (suc n) e =
        let k : (suc n == 0) ≡ false = ground arith in
        let bound = text_run_bound (c ∷ cs) in
        let same : take (suc n) (c ∷ (cs ++ bs)) ≡ take (suc n) (c ∷ cs) =
          take-append (suc n) (c ∷ cs) bs (omega arith) in
        rw (parse_ground, both, e, k, same) refl

-- In ground a text or another control gives a message at once.
at_once :
    (p : Parser) (c : ℕ) (cs : List ℕ) (r : Parsed)
    → Way p (c ∷ cs) r
    → in_ground p ≡ true
    → (c == 0x1b) ≡ false
    → is_continue r.1.id ≡ false
at_once p c cs r (Way.at_once id n h e z b g s) q o =
    ap is_continue (ap (λ t. t.id) e ∙ id-make_result r.0 id n) ∙ h.done
at_once p c cs r (Way.by_loop q i rest s e h f k) g o = elim e.in_sequence [
  | inl inside ↦ cc (inside, g)
  | inr escape ↦ cc (escape, o)
]

parse-ground :
    (p : Parser) (input : List ℕ) → in_ground p ≡ true → parse input p ≡ parse_ground input p
unfolding parse parse_in in_ground
parse-ground p input g = by_mode p.mode g
  where
    by_mode :
        (m : Mode)
        → in_ground (record p { mode = m }) ≡ true
        → parse_in m input p ≡ parse_ground input p
    by_mode Mode.ground g = refl
    by_mode Mode.esc g = cc
    by_mode Mode.csi g = cc
    by_mode Mode.osc g = cc
    by_mode Mode.osc_st g = cc
    by_mode Mode.ss3 g = cc

-- A piece and then more, where the piece is empty, or goes on with a sequence, or in ground is not only
-- text: if the piece gives no message, the outcome of both in one range is that of going on with the
-- second, with the length of the first added to what is consumed; if it gives one, that message is the
-- outcome of both. (A run of text that the end of the piece cuts is two messages.)
pub parse-append :
    (a b : List ℕ) (p p' : Parser) (r : ParseResult)
    → (length a ≡ 0) ⊎ ((in_ground p && all_text a) ≡ false)
    → parse a p ≡ some (p', r)
    → parse (a ++ b) p ≡ continued p' r (length a) b
unfolding in_ground
parse-append [] b p p' r whole e =
    let (same, result) : (p ≡ p') × (make_result p MessageId.continue_ 0 ≡ r) =
      some-injective (sym (parse-nil p) ∙ e) in
    let more : is_continue r.id ≡ true =
      ap is_continue (ap (λ t. t.id) (sym result) ∙ id-make_result p MessageId.continue_ 0) in
    rw (if_true _ _ more) (ap (parse b) same ∙ sym (shifted_zero (parse b p')))
parse-append (x ∷ xs) b p p' r whole e = elim (Bool-cases (in_ground p)) [
  | inr inside ↦
      parse-inside p (x ∷ (xs ++ b)) inside
      ∙ loop-append_any p p' 0 (x ∷ xs) b r inside (sym (parse-inside p (x ∷ xs) inside) ∙ e)
      ∙ ap (λ n. continued p' r n b) (omega arith)
  | inl g ↦ elim (Bool-cases (x == 0x1b)) [
    | inl escape ↦
        let next : Parser = record p {
          raw = p.raw ++ x ∷ [];
          seq_start = length p.raw;
          mode = Mode.esc;
        } in
        parse-escape p x (xs ++ b) g escape
        ∙ loop-append_any next p' 1 xs b r refl (sym (parse-escape p x xs g escape) ∙ e)
        ∙ ap (λ n. continued p' r n b) (omega arith)
    | inr other ↦
        let (t, f, w) = parse-Way p x xs in
        let (_, same) : (t.0 ≡ p') × (t.1 ≡ r) = some-injective (sym f ∙ e) in
        let done : is_continue r.id ≡ false =
          ap (λ v. is_continue v.id) (sym same) ∙ at_once p x xs t w g other in
        let mixed : all_text (x ∷ xs) ≡ false = not_text g whole in
        rw (if_false _ _ done) (
          parse-ground p (x ∷ (xs ++ b)) g
          ∙ parse_ground-append p x xs b mixed other
          ∙ sym (parse-ground p (x ∷ xs) g)
          ∙ e)
  ]
]
  where
    not_text :
        in_ground p ≡ true
        → (length (x ∷ xs) ≡ 0) ⊎ ((in_ground p && all_text (x ∷ xs)) ≡ false)
        → all_text (x ∷ xs) ≡ false
    not_text g (inl empty) = absurd (omega arith)
    not_text g (inr mixed) = ap (◌&& all_text (x ∷ xs)) (sym g) ∙ mixed
