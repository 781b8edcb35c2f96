-- ===== src/Input/Tests.antt =====
-- Runs of the input buffer over an event that is its own flag, and its theorems there.
use corehost.Base.{ℕ, ◌≡◌, refl, Bool, true, false, [], ◌∷◌, ◌++◌, some, none, arith, take}
use corehost.Input.{EventApi, InputBuffer, prepend, peek, read}
use corehost.Input.Signal.{
  IsValid, bound, wrote, took, signalled, run, still_exact, exact_after, run-IsValid,
}
use corehost.Input.Queue.{put, get, serve, serve_in_order, read-read, read-prepend}

-- An event that is its own flag.
abbrev flag : EventApi
flag = record {
  Event = Bool;
  created = false;
  signal = λ e. true;
  unsignal = λ e. false;
  is_signalled = λ e. e;
  created_lem = refl;
  signal_lem = λ e. refl;
  unsignal_lem = λ e. refl;
}

abbrev empty : InputBuffer Bool ℕ
empty = record { event = none; events = [] }

abbrev three : InputBuffer Bool ℕ
three = record { event = some true; events = 1 ∷ 2 ∷ 3 ∷ [] }

read_run : read flag 5 three ≡ (record { event = some false; events = [] }, 1 ∷ 2 ∷ 3 ∷ [])
unfolding read
read_run = refl

empty-IsValid : IsValid flag true empty
empty-IsValid = record { bounded = omega arith; told = tt }

run-IsValid_example :
    IsValid flag true
      (run flag (signalled ∷ bound (some true) ∷ wrote (1 ∷ 2 ∷ []) ∷ took 2 ∷ []) empty)
unfolding still_exact exact_after
run-IsValid_example =
    run-IsValid flag true (signalled ∷ bound (some true) ∷ wrote (1 ∷ 2 ∷ []) ∷ took 2 ∷ []) empty
      empty-IsValid

serve_in_order_example :
    let s = serve flag (put (4 ∷ 5 ∷ []) ∷ get 2 ∷ get 9 ∷ []) three in
    s.returned ++ s.buffer.events ≡ three.events ++ s.taken
serve_in_order_example = serve_in_order flag (put (4 ∷ 5 ∷ []) ∷ get 2 ∷ get 9 ∷ []) three

read-read_example :
    (peek flag 2 three ≡ (read flag 2 three).1)
    × ((read flag 2 three).1 ++ (read flag 1 (read flag 2 three).0).1 ≡ (read flag 3 three).1)
read-read_example = read-read flag 2 1 three

read-prepend_example :
    let (b', n) = prepend flag (8 ∷ 9 ∷ []) three in
    ((read flag n b').1 ≡ take n (8 ∷ 9 ∷ [])) × ((read flag n b').0.events ≡ three.events)
read-prepend_example = read-prepend flag (8 ∷ 9 ∷ []) three
