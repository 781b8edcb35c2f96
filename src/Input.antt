-- ===== src/Input.antt =====
-- libcorehost/input_buffer.hpp: the queue of INPUT_RECORDs behind GetConsoleInput, with the
-- manual-reset event that tells waiting readers of it. `bizwen::deque` is used through operations
-- that std::deque has, and is a list here; the event object is an interface, and what it is
-- at a moment stands in the buffer. The driver, which has the same event, signals it too
-- (condrv_io.hpp); Signal has that as a step between the calls of this class.
pub mod Queue
pub mod Signal
mod Tests
use corehost.Base.{
  ℕ, zero, suc, ◌+◌, ◌-◌, ◌%◌, ◌^◌, ◌≤◌, ◌<◌, min, ◌≡◌, Bool, true, false, not, List, [], ◌∷◌, ◌++◌,
  Option, none, some, ltb, if◌then◌else◌, length, take, drop,
}

-- What CreateEvent (manual reset, not signalled), SetEvent and ResetEvent do to an event.
pub record EventApi : Type 1 where
  pub Event : Type 0
  pub created : Event
  pub signal : Event → Event
  pub unsignal : Event → Event
  pub is_signalled : Event → Bool
  pub created_lem : is_signalled created ≡ false
  pub signal_lem : (e : Event) → is_signalled (signal e) ≡ true
  pub unsignal_lem : (e : Event) → is_signalled (unsignal e) ≡ false

abbrev pub max_events : ℕ
max_events = 4096

-- Subtraction of `size_t`.
pub sub_size : ℕ → ℕ → ℕ
sub_size a b = (a + 2 ^ 64 - b) % 2 ^ 64

abbrev pub is_empty {ℓ} : {A : Type ℓ} → List A → Bool
is_empty [] = true
is_empty (x ∷ xs) = false

-- `event` is `input_available_event`, `none` where the handle is empty.
pub record InputBuffer (E R : Type 0) : Type 0 where
  pub event : Option E
  pub events : List R

abbrev pub on_some : {E : Type 0} → (E → E) → Option E → Option E
on_some f none = none
on_some f (some e) = some (f e)

-- How many of `count` records a queue takes.
pub accepted : {R : Type 0} → ℕ → List R → ℕ
unfolding sub_size
accepted count queue = min count (sub_size max_events (length queue))

module _ (api : EventApi) {R : Type 0} where
  open api use {Event, created, signal, unsignal}

  -- Binds the event of the driver, in whatever state it is, and makes it tell the queue's.
  pub set_event : Option Event → InputBuffer Event R → InputBuffer Event R
  set_event e b = record b { event = on_some (if is_empty b.events then unsignal else signal) e }

  pub init_event : InputBuffer Event R → InputBuffer Event R
  init_event b = elim b.event [ none ↦ record b { event = some created } | some e ↦ b ]

  -- `write` and `prepend` return the number of records taken; `span{events, n}` is the first n.
  pub write : List R → InputBuffer Event R → InputBuffer Event R × ℕ
  unfolding accepted
  write records b =
      let n = accepted (length records) b.events in
      (
        record b {
          event = if ltb 0 n then on_some signal b.event else b.event;
          events = b.events ++ take n records;
        },
        n,
      )

  pub prepend : List R → InputBuffer Event R → InputBuffer Event R × ℕ
  unfolding accepted
  prepend records b =
      let n = accepted (length records) b.events in
      (
        record b {
          event = if ltb 0 n then on_some signal b.event else b.event;
          events = take n records ++ b.events;
        },
        n,
      )

  -- The records copied to `out`; their number is the code's result.
  pub peek : ℕ → InputBuffer Event R → List R
  peek max_count b = take (min max_count (length b.events)) b.events

  pub read : ℕ → InputBuffer Event R → InputBuffer Event R × List R
  read max_count b =
      let n = min max_count (length b.events) in
      let rest = drop n b.events in
      (
        record b {
          event = if is_empty rest then on_some unsignal b.event else b.event;
          events = rest;
        },
        take n b.events,
      )

  pub flush : InputBuffer Event R → InputBuffer Event R
  flush b = record b { event = on_some unsignal b.event; events = [] }
