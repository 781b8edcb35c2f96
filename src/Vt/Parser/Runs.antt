-- ===== src/Vt/Parser/Runs.antt =====
-- The loop of `parse` from inside a sequence: it returns, and what it has read.
use corehost.Base.{
  ℕ, suc, ◌+◌, ◌≤◌, ◌<◌, ◌≡◌, refl, sym, ◌∙◌, ap, ◌⊎◌, inl, inr, true, false, not, List, [], ◌∷◌,
  ◌++◌, some, arith, take, drop, length, Bool-cases,
}
use mathlib.Core.List.{append-nil, append_assoc}
use corehost.Vt.Message.{MessageId, Payload, is_continue, is_unknown}
use corehost.Vt.Parser.{Parser}
use corehost.Vt.Parser.Parse.{step, scan, in_ground}
use corehost.Vt.Parser.Steps.{Handled, step-Handled}

abbrev pub Scan : Type 0
Scan = Parser × MessageId × ℕ

-- The loop from index `i` over `cs` read `count` code points and kept them; without a message it
-- read all of them.
pub record Scanned (p : Parser) (i : ℕ) (cs : List ℕ) (r : Scan) : Type 0 where
  pub count : ℕ
  pub mode_is : in_ground r.0 ≡ not (is_continue r.1)
  pub consumed_is : r.2 ≡ i + count
  pub count_bound : count ≤ length cs
  pub all_read : (count ≡ length cs) ⊎ (is_continue r.1 ≡ false)
  pub some_read : (0 < count) ⊎ (length cs ≡ 0)
  pub raw_is : r.0.raw ≡ p.raw ++ take count cs
  pub start_is : p.seq_start ≡ 0 → r.0.seq_start ≡ 0
  pub text_is :
      p.seq_start ≡ 0
      → is_unknown r.1 ≡ true
      → (r.0.payload ≡ Payload.text r.0.raw) ⊎ (r.0.payload ≡ Payload.text [])

-- A first step that reads on, before the rest of the loop.
Scanned-more :
    (p q : Parser) (i ch : ℕ) (cs : List ℕ) (r : Scan)
    → q.raw ≡ p.raw ++ ch ∷ []
    → (p.seq_start ≡ 0 → q.seq_start ≡ 0)
    → Scanned q (i + 1) cs r
    → Scanned p i (ch ∷ cs) r
Scanned-more p q i ch cs r e s h = record {
  count = suc h.count;
  mode_is = h.mode_is;
  consumed_is = omega (arith, h.consumed_is);
  count_bound = omega (arith, h.count_bound);
  all_read = elim h.all_read [ inl a ↦ inl (ap suc a) | inr b ↦ inr b ];
  some_read = inl (omega arith);
  raw_is =
      h.raw_is ∙ ap (λ l. l ++ take h.count cs) e ∙ append_assoc p.raw (ch ∷ []) (take h.count cs);
  start_is = λ z. h.start_is (s z);
  text_is = λ z u. h.text_is (s z) u;
}

Scanned-done :
    (p q : Parser) (id : MessageId) (i ch : ℕ) (cs : List ℕ)
    → Handled (record p { raw = p.raw ++ ch ∷ [] }) (q, id)
    → is_continue id ≡ false
    → Scanned p i (ch ∷ cs) (q, id, i + 1)
Scanned-done p q id i ch cs h d = record {
  count = 1;
  mode_is = h.mode_is;
  consumed_is = refl;
  count_bound = omega arith;
  all_read = inr d;
  some_read = inl (omega arith);
  raw_is = h.raw_is;
  start_is = h.start_is;
  text_is = λ z u. elim (h.text_is u) [
    | inl t ↦ inl (t ∙ ap Payload.text (ap (λ n. drop n (p.raw ++ ch ∷ [])) z ∙ sym h.raw_is))
    | inr t ↦ inr t
  ];
}

pub scan-more :
    (p q : Parser) (id : MessageId) (i ch : ℕ) (cs : List ℕ)
    → step p ch ≡ some (q, id)
    → is_continue id ≡ true
    → scan i (ch ∷ cs) p ≡ scan (i + 1) cs q
unfolding scan
scan-more p q id i ch cs e more = rw (scan, e, more)

pub scan-done :
    (p q : Parser) (id : MessageId) (i ch : ℕ) (cs : List ℕ)
    → step p ch ≡ some (q, id)
    → is_continue id ≡ false
    → scan i (ch ∷ cs) p ≡ some (q, id, i + 1)
unfolding scan
scan-done p q id i ch cs e done = rw (scan, e, done)

pub scan-Scanned :
    (cs : List ℕ) (i : ℕ) (p : Parser)
    → in_ground p ≡ false
    → (r : Scan) × (scan i cs p ≡ some r) × Scanned p i cs r
unfolding scan in_ground
scan-Scanned [] i p m = (
  (p, MessageId.continue_, i),
  refl,
  record {
    count = 0;
    mode_is = m;
    consumed_is = omega arith;
    count_bound = omega arith;
    all_read = inl refl;
    some_read = inr refl;
    raw_is = sym (append-nil p.raw);
    start_is = λ z. z;
    text_is = λ z u. cc;
  },
)
scan-Scanned (ch ∷ cs) i p m =
    let ((q, id), e, h) = step-Handled p ch m in
    elim (Bool-cases (is_continue id)) [
      | inl more ↦
          let k = h.mode_is in
          let (r, f, g) = scan-Scanned cs (i + 1) q (k ∙ ap not more) in
          (r, scan-more p q id i ch cs e more ∙ f, Scanned-more p q i ch cs r h.raw_is h.start_is g)
      | inr done ↦
          ((q, id, i + 1), scan-done p q id i ch cs e done, Scanned-done p q id i ch cs h done)
    ]
