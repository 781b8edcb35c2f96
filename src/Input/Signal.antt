-- ===== src/Input/Signal.antt =====
-- What the event tells of the queue, and the bound of the queue.
use mathlib.Core.List.{append-nil}
use corehost.Base.{
  ℕ, zero, suc, ◌+◌, ◌≤◌, ◌<◌, ◌≡◌, refl, sym, ap, ◌∙◌, true, false, not, List, [], ◌∷◌, ◌++◌,
  Option, none, some, arith, length, length-append, length-take, length-drop, Bool-cases, inl, inr,
  ltb, if◌then◌else◌, take, drop, min, Bool, ◌||◌,
}
use corehost.Input.{
  EventApi, InputBuffer, max_events, is_empty, accepted, set_event, write, prepend, read, flush,
  on_some,
}

module _ (api : EventApi) {R : Type 0} where
  open api use {Event, is_signalled}

  -- A bound event is signalled while there are records; if `exact`, only then.
  abbrev pub Tells : Bool → Option Event → List R → Type 0
  Tells exact none queue = Unit
  Tells true (some e) queue = is_signalled e ≡ not (is_empty queue)
  Tells false (some e) queue = (is_empty queue || is_signalled e) ≡ true

  -- At most 4096 records, and what the event tells of them.
  pub record IsValid (exact : Bool) (b : InputBuffer Event R) : Type 0 where
    pub bounded : length b.events ≤ max_events
    pub told : Tells exact b.event b.events

pub accepted_bounds :
    {R : Type 0} (count : ℕ) (queue : List R)
    → length queue ≤ max_events
    → (accepted count queue ≤ count) × (accepted count queue + length queue ≤ max_events)
unfolding accepted
accepted_bounds count queue h = omega arith

is_empty-append_take :
    {R : Type 0} (n : ℕ) (queue rs : List R)
    → 0 < n
    → n ≤ length rs
    → is_empty (queue ++ take n rs) ≡ false
is_empty-append_take n (x ∷ queue) rs p h = refl
is_empty-append_take zero [] rs p h = absurd (omega arith)
is_empty-append_take (suc n) [] [] p h = absurd (omega arith)
is_empty-append_take (suc n) [] (r ∷ rs) p h = refl

is_empty-take_append :
    {R : Type 0} (n : ℕ) (queue rs : List R)
    → 0 < n
    → n ≤ length rs
    → is_empty (take n rs ++ queue) ≡ false
is_empty-take_append zero queue rs p h = absurd (omega arith)
is_empty-take_append (suc n) queue [] p h = absurd (omega arith)
is_empty-take_append (suc n) queue (r ∷ rs) p h = refl

module _ (api : EventApi) {R : Type 0} where
  open api use {Event, signal, unsignal, signal_lem, unsignal_lem}

  signal-Tells :
      (exact : Bool) (e : Option Event) (queue : List R)
      → is_empty queue ≡ false
      → Tells api exact (on_some signal e) queue
  signal-Tells exact none queue h = tt
  signal-Tells true (some e) queue h = signal_lem e ∙ ap not (sym h)
  signal-Tells false (some e) queue h = ground (arith, signal_lem e)

  unsignal-Tells :
      (exact : Bool) (e : Option Event) (queue : List R)
      → is_empty queue ≡ true
      → Tells api exact (on_some unsignal e) queue
  unsignal-Tells exact none queue h = tt
  unsignal-Tells true (some e) queue h = unsignal_lem e ∙ ap not (sym h)
  unsignal-Tells false (some e) queue h = ground arith

  same-Tells :
      (exact : Bool) (e : Option Event) (queue queue' : List R)
      → is_empty queue ≡ is_empty queue'
      → Tells api exact e queue
      → Tells api exact e queue'
  same-Tells exact none queue queue' h t = tt
  same-Tells true (some e) queue queue' h t = t ∙ ap not h
  same-Tells false (some e) queue queue' h t = rw (← h) t

  -- A signal from elsewhere.
  signalled-Tells : (e : Option Event) (queue : List R) → Tells api false (on_some signal e) queue
  signalled-Tells none queue = tt
  signalled-Tells (some e) queue = ground (arith, signal_lem e)

  grown-Tells :
      (exact : Bool) (e : Option Event) (n : ℕ) (queue queue' : List R)
      → (0 < n → is_empty queue' ≡ false)
      → (n ≡ 0 → queue' ≡ queue)
      → Tells api exact e queue
      → Tells api exact (if ltb 0 n then on_some signal e else e) queue'
  grown-Tells exact e n queue queue' some_new no_new t = elim (Bool-cases (ltb 0 n)) [
    | inl new ↦ rw new (signal-Tells exact e queue' (some_new (ground arith)))
    | inr old ↦ rw old (rw (no_new (ground arith)) t)
  ]

  set_event-IsValid :
      (exact : Bool) (e : Option Event) (b : InputBuffer Event R)
      → IsValid api exact b
      → IsValid api true (set_event api e b)
  unfolding set_event
  set_event-IsValid exact e b v = record {
    bounded = v.bounded;
    told = elim (Bool-cases (is_empty b.events)) [
      | inl empty ↦ rw empty (unsignal-Tells true e b.events empty)
      | inr full ↦ rw full (signal-Tells true e b.events full)
    ];
  }

  write-IsValid :
      (exact : Bool) (rs : List R) (b : InputBuffer Event R)
      → IsValid api exact b
      → IsValid api exact (write api rs b).0
  unfolding write
  write-IsValid exact rs b v =
      let n = accepted (length rs) b.events in
      let k = accepted_bounds (length rs) b.events v.bounded in
      record {
        bounded = omega (arith, length-append b.events (take n rs), length-take n rs);
        told =
            grown-Tells exact b.event n b.events (b.events ++ take n rs)
              (λ p. is_empty-append_take n b.events rs p k.0) (λ z. rw z (append-nil b.events))
              v.told;
      }

  prepend-IsValid :
      (exact : Bool) (rs : List R) (b : InputBuffer Event R)
      → IsValid api exact b
      → IsValid api exact (prepend api rs b).0
  unfolding prepend
  prepend-IsValid exact rs b v =
      let n = accepted (length rs) b.events in
      let k = accepted_bounds (length rs) b.events v.bounded in
      record {
        bounded = omega (arith, length-append (take n rs) b.events, length-take n rs);
        told =
            grown-Tells exact b.event n b.events (take n rs ++ b.events)
              (λ p. is_empty-take_append n b.events rs p k.0) (λ z. rw z) v.told;
      }

  read-IsValid :
      (exact : Bool) (n : ℕ) (b : InputBuffer Event R)
      → IsValid api exact b
      → IsValid api exact (read api n b).0
  unfolding read
  read-IsValid exact n b v =
      let k = min n (length b.events) in
      record {
        bounded = omega (arith, v.bounded, length-drop k b.events);
        told = elim (Bool-cases (is_empty (drop k b.events))) [
          | inl empty ↦ rw empty (unsignal-Tells exact b.event (drop k b.events) empty)
          | inr full ↦ rw full (
              same-Tells exact b.event b.events (drop k b.events) (was_full k b.events full) v.told)
        ];
      }
    where
      was_full :
          (k : ℕ) (queue : List R)
          → is_empty (drop k queue) ≡ false
          → is_empty queue ≡ is_empty (drop k queue)
      was_full zero queue h = refl
      was_full (suc k) [] h = cc
      was_full (suc k) (r ∷ queue) h = sym h

module _ (api : EventApi) (R : Type 0) where
  open api use {Event}

  -- Each operation of the class that changes it, but `init_event`; and a signal of the driver to the
  -- event.
  pub data Call : Type 0 where
    bound : Option Event → Call
    wrote prepended : List R → Call
    took : ℕ → Call
    flushed signalled : Call

module _ (api : EventApi) {R : Type 0} where
  open api use {Event, signal}

  pub after : Call api R → InputBuffer Event R → InputBuffer Event R
  after (bound e) b = set_event api e b
  after (wrote rs) b = (write api rs b).0
  after (prepended rs) b = (prepend api rs b).0
  after (took n) b = (read api n b).0
  after flushed b = flush api b
  after signalled b = record b { event = on_some signal b.event }

  pub run : List (Call api R) → InputBuffer Event R → InputBuffer Event R
  run [] b = b
  run (c ∷ cs) b = run cs (after c b)

  -- Whether the event is exact after a call: the driver signals it whatever the queue holds, and a
  -- call that sets it or resets it by the queue alone makes it exact.
  unfoldable pub exact_after : Bool → Call api R → Bool
  exact_after exact (bound e) = true
  exact_after exact (wrote rs) = exact
  exact_after exact (prepended rs) = exact
  exact_after exact (took n) = exact
  exact_after exact flushed = true
  exact_after exact signalled = false

  unfoldable pub still_exact : Bool → List (Call api R) → Bool
  still_exact exact [] = exact
  still_exact exact (c ∷ cs) = still_exact (exact_after exact c) cs

  after-IsValid :
      (exact : Bool) (c : Call api R) (b : InputBuffer Event R)
      → IsValid api exact b
      → IsValid api (exact_after exact c) (after c b)
  unfolding after exact_after
  after-IsValid exact (bound e) b v = set_event-IsValid api exact e b v
  after-IsValid exact (wrote rs) b v = write-IsValid api exact rs b v
  after-IsValid exact (prepended rs) b v = prepend-IsValid api exact rs b v
  after-IsValid exact (took n) b v = read-IsValid api exact n b v
  after-IsValid exact flushed b v =
      unfold flush in
      record { bounded = omega arith; told = unsignal-Tells api true b.event [] refl }
  after-IsValid exact signalled b v = record {
    bounded = v.bounded;
    told = signalled-Tells api b.event b.events;
  }

  -- After any sequence of calls (`init_event` aside) and of signals that the driver gives, the queue
  -- holds at most 4096 records, and a bound event is signalled while the queue is not empty; only then
  -- as well, unless the driver has signalled it since the event was bound or the queue was flushed.
  pub run-IsValid :
      (exact : Bool) (cs : List (Call api R)) (b : InputBuffer Event R)
      → IsValid api exact b
      → IsValid api (still_exact exact cs) (run cs b)
  unfolding run still_exact
  run-IsValid exact [] b v = v
  run-IsValid exact (c ∷ cs) b v =
      run-IsValid (exact_after exact c) cs (after c b) (after-IsValid exact c b v)
