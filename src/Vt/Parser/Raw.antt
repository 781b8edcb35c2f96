-- ===== src/Vt/Parser/Raw.antt =====
-- The raw text of a sequence, in `raw_sequence` and in the payload of an unknown one.
use corehost.Base.{
  ℕ, zero, suc, ◌+◌, ◌<◌, ◌≡◌, refl, sym, ◌∙◌, ap, ◌⊎◌, inl, inr, true, false, List, [], ◌∷◌, ◌++◌,
  arith, length, take, drop, Bool-cases, if◌then◌else◌,
}
use mathlib.Core.List.{append_assoc}
use corehost.Vt.Message.{MessageId, is_continue}
use corehost.Vt.Parser.{Parser}
use corehost.Vt.Parser.Parse.{Parsed, in_ground, make_result, raw_sequence, starts_escape, reset}
use corehost.Vt.Parser.Runs.{Scan, Scanned}
use corehost.Vt.Parser.Ways.{Way, Entry}
use corehost.Vt.Parser.Progress.{id-make_result, consumed-make_result}

-- The buffer holds the sequence that is being read, and nothing else.
pub record IsAligned (p : Parser) : Type 0 where
  pub from_start : p.seq_start ≡ 0
  pub in_ground_empty : (in_ground p ≡ false) ⊎ (p.raw ≡ [])
  pub inside_escape : (in_ground p ≡ true) ⊎ (starts_escape p.raw ≡ true)

pub reset-IsAligned : (p : Parser) → IsAligned (reset p)
unfolding reset in_ground
reset-IsAligned p = record {
  from_start = refl;
  in_ground_empty = inr refl;
  inside_escape = inl refl;
}

starts_escape-append : (xs ys : List ℕ) → starts_escape xs ≡ true → starts_escape (xs ++ ys) ≡ true
starts_escape-append [] ys h = cc
starts_escape-append (x ∷ xs) ys h = h

take-append_add : (xs ys : List ℕ) (n : ℕ) → take (length xs + n) (xs ++ ys) ≡ xs ++ take n ys
take-append_add [] ys n = let e : 0 + n ≡ n = omega arith in rw e
take-append_add (x ∷ xs) ys n =
    let e : suc (length xs) + n ≡ suc (length xs + n) = omega arith in
    rw e (ap (◌∷◌ x) (take-append_add xs ys n))

starts_escape-take :
    (n : ℕ) (xs : List ℕ) → 0 < n → starts_escape xs ≡ true → starts_escape (take n xs) ≡ true
starts_escape-take zero xs z h = elim z [ ]
starts_escape-take (suc n) [] z h = h
starts_escape-take (suc n) (x ∷ xs) z h = h

-- Wherever the sequence began, what is kept of it begins with its ESC.
starts_escape-kept :
    (p : Parser) (input : List ℕ) (n : ℕ)
    → IsAligned p
    → (in_ground p ≡ false) ⊎ (starts_escape input ≡ true)
    → 0 < n
    → starts_escape (p.raw ++ take n input) ≡ true
starts_escape-kept p input n a e z = elim a.inside_escape [
  | inr before ↦ starts_escape-append p.raw (take n input) before
  | inl ground ↦ elim e [
    | inl inside ↦ cc (inside, ground)
    | inr escape ↦ elim a.in_ground_empty [
      | inl inside ↦ cc (inside, ground)
      | inr empty ↦
          ap (λ l. starts_escape (l ++ take n input)) empty ∙ starts_escape-take n input z escape
    ]
  ]
]

-- After the loop from an aligned parser: all that was read of the sequence, from its ESC on.
pub record Kept (p : Parser) (input : List ℕ) (s : Scan) : Type 0 where
  pub from_start : s.0.seq_start ≡ 0
  pub raw_is : s.0.raw ≡ p.raw ++ take s.2 input
  pub escape : starts_escape s.0.raw ≡ true

pub Entry-from_start :
    (p q : Parser) (input : List ℕ) (i : ℕ) (rest : List ℕ)
    → IsAligned p
    → Entry p input q i rest
    → q.seq_start ≡ 0
Entry-from_start p q input i rest a e =
    e.start_is (λ g. elim a.in_ground_empty [ inl f ↦ cc (f, g) | inr n ↦ n ]) a.from_start

pub loop-Kept :
    (p q : Parser) (input : List ℕ) (i : ℕ) (rest : List ℕ) (s : Scan)
    → IsAligned p
    → Entry p input q i rest
    → Scanned q i rest s
    → 0 < s.2
    → Kept p input s
loop-Kept p q input i rest s a e h z =
    let n : s.2 ≡ length e.read + h.count = omega (arith, h.consumed_is, e.index_is) in
    let kept : s.0.raw ≡ p.raw ++ take s.2 input =
      h.raw_is
      ∙ ap (λ l. l ++ take h.count rest) e.raw_is
      ∙ append_assoc p.raw e.read (take h.count rest)
      ∙ ap (λ l. p.raw ++ l)
          (sym (take-append_add e.read rest h.count)
            ∙ ap (λ l. take (length e.read + h.count) l) (sym e.input_is)
            ∙ ap (λ m. take m input) (sym n)) in
    record {
      from_start = h.start_is (Entry-from_start p q input i rest a e);
      raw_is = kept;
      escape = ap starts_escape kept ∙ starts_escape-kept p input s.2 a e.in_sequence z;
    }

pub raw_sequence-make_result :
    (p : Parser) (id : MessageId) (n : ℕ)
    → (make_result p id n).raw_sequence ≡ (if is_continue id then [] else raw_sequence p)
unfolding make_result
raw_sequence-make_result p id n = elim (Bool-cases (is_continue id)) [
  | inl more ↦ rw more
  | inr done ↦ rw done
]

-- A sequence that begins with its ESC is delivered whole.
pub raw_sequence-whole :
    (p : Parser) → p.seq_start ≡ 0 → starts_escape p.raw ≡ true → raw_sequence p ≡ p.raw
unfolding raw_sequence
raw_sequence-whole p s e =
    let same : drop p.seq_start p.raw ≡ p.raw = ap (λ n. drop n p.raw) s in rw (same, e)

pub Way-Kept :
    (p : Parser) (c : ℕ) (cs : List ℕ) (r : Parsed)
    → Way p (c ∷ cs) r
    → IsAligned p
    → (in_ground p ≡ false) ⊎ (starts_escape (c ∷ cs) ≡ true)
    → 0 < r.1.consumed
    → (r.0.raw ≡ p.raw ++ take r.1.consumed (c ∷ cs))
      × (r.1.raw_sequence ≡ (if is_continue r.1.id then [] else r.0.raw))
Way-Kept p c cs r (Way.at_once id n h e z b g o) a (inl inside) _ = cc
Way-Kept p c cs r (Way.at_once id n h e z b g o) a (inr escape) _ = cc
Way-Kept p c cs r (Way.by_loop q i rest s e h f k) a _ z =
    let n = consumed-make_result s.0 s.1 s.2 in
    let m = id-make_result s.0 s.1 s.2 in
    let same : r.1.consumed ≡ s.2 = ap (λ t. t.1.consumed) k ∙ n in
    let kept = loop-Kept p q (c ∷ cs) i rest s a e h (omega (arith, same, z)) in
    let whole = raw_sequence-whole s.0 kept.from_start kept.escape in
    rw (k, n, m)
      (
        kept.raw_is,
        raw_sequence-make_result s.0 s.1 s.2 ∙ ap (λ l. if is_continue s.1 then [] else l) whole,
      )
