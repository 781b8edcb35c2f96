-- ===== src/Pending/Tests.antt =====
-- The theorems on pending reads at a short run; messages are numbers.
use corehost.Base.{ℕ, true, false, some, List, [], ◌∷◌, ◌≡◌}
use corehost.Pending.{PendingKind, initial}
use corehost.Pending.Exclusive.{Call, run, waiting, last_eof, Shows, run-Shows, vt_eof-run}

-- A raw read that is completed, then a cooked one while the input ends.
abbrev calls : List (Call ℕ)
calls = Call.raw 7 true ∷ Call.cancel ∷ Call.cooked 8 false ∷ Call.eof true ∷ []

run-Shows_example : Shows (run calls initial) (PendingKind.console_reading, some 8)
unfolding waiting
run-Shows_example = run-Shows calls

vt_eof-run_example : (run calls initial).vt_eof ≡ true
unfolding last_eof
vt_eof-run_example = vt_eof-run calls initial
