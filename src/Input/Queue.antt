-- ===== src/Input/Queue.antt =====
-- The buffer as a first-in first-out queue.
use mathlib.Core.List.{append-nil, append_assoc}
use corehost.Base.{
  ℕ, ◌+◌, ◌≡◌, refl, sym, ap, ◌∙◌, List, [], ◌∷◌, ◌++◌, arith, length, take, drop, min,
  length-append, length-take, length-drop, take-append-drop, take-add, take-append_length,
  drop-append_length,
}
use corehost.Input.{EventApi, InputBuffer, accepted, write, prepend, peek, read}

-- A client writes records or asks for some.
pub data Traffic (R : Type 0) : Type 0 where
  put : List R → Traffic R
  get : ℕ → Traffic R

-- The buffer after some traffic, what the writes were told was taken, and what the reads returned.
pub record Served (E R : Type 0) : Type 0 where
  pub buffer : InputBuffer E R
  pub taken : List R
  pub returned : List R

module _ (api : EventApi) {R : Type 0} where
  open api use {Event}

  pub serve : List (Traffic R) → InputBuffer Event R → Served Event R
  serve [] b = record { buffer = b; taken = []; returned = [] }
  serve (put rs ∷ ts) b =
      let (b', n) = write api rs b in
      let later = serve ts b' in record later { taken = take n rs ++ later.taken }
  serve (get n ∷ ts) b =
      let (b', rs) = read api n b in
      let later = serve ts b' in record later { returned = rs ++ later.returned }

  -- What the reads return and what is left in the queue is, in order, what was in the queue and
  -- then what the writes took: no record is lost, doubled or overtaken.
  pub serve_in_order :
      (ts : List (Traffic R)) (b : InputBuffer Event R)
      → (serve ts b).returned ++ (serve ts b).buffer.events ≡ b.events ++ (serve ts b).taken
  unfolding serve read write
  serve_in_order [] b = sym (append-nil b.events)
  serve_in_order (put rs ∷ ts) b =
      serve_in_order ts (write api rs b).0
      ∙ append_assoc b.events (take (accepted (length rs) b.events) rs) _
  serve_in_order (get n ∷ ts) b =
      let k = min n (length b.events) in
      let later = serve ts (read api n b).0 in
      append_assoc (take k b.events) later.returned later.buffer.events
      ∙ ap (◌++◌ (take k b.events)) (serve_in_order ts (read api n b).0)
      ∙ sym (append_assoc (take k b.events) (drop k b.events) later.taken)
      ∙ ap (λ xs. xs ++ later.taken) (take-append-drop k b.events)

  -- A peek shows what a read of the same size returns, and two reads in a row return what one read
  -- of both sizes does.
  pub read-read :
      (m n : ℕ) (b : InputBuffer Event R)
      → (peek api m b ≡ (read api m b).1)
        × ((read api m b).1 ++ (read api n (read api m b).0).1 ≡ (read api (m + n) b).1)
  unfolding read peek
  read-read m n b =
      let k = min m (length b.events) in
      let j = min n (length (drop k b.events)) in
      (
        refl,
        take-add k j b.events ∙ ap (λ i. take i b.events) (omega (arith, length-drop k b.events)),
      )

  -- Records that `prepend` took are what the next read of that size returns, and the rest of the
  -- queue is then as it was.
  pub read-prepend :
      (rs : List R) (b : InputBuffer Event R)
      → let (b', n) = prepend api rs b in
        ((read api n b').1 ≡ take n rs) × ((read api n b').0.events ≡ b.events)
  unfolding read prepend
  read-prepend rs b =
      let n = accepted (length rs) b.events in
      let l : length (take n rs) ≡ n = unfold accepted in omega (arith, length-take n rs) in
      let k : min n (length (take n rs ++ b.events)) ≡ length (take n rs) =
        omega (arith, length-append (take n rs) b.events) in
      (
        ap (λ i. take i (take n rs ++ b.events)) k ∙ take-append_length (take n rs) b.events,
        ap (λ i. drop i (take n rs ++ b.events)) k ∙ drop-append_length (take n rs) b.events,
      )
