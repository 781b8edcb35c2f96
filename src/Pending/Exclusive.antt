-- ===== src/Pending/Exclusive.antt =====
-- At most one read waits, and its kind tells which.
use corehost.Base.{Bool, Option, none, some, List, [], ◌∷◌, ◌≡◌, refl}
use corehost.Pending.{
  PendingKind, Pending, initial, begin_raw_read, begin_console_read, begin_console_input,
  set_vt_eof, clear,
}

-- The calls that change the state.
pub data Call (M : Type 0) : Type 0 where
  raw cooked : M → Bool → Call M
  records : M → Call M
  eof : Bool → Call M
  cancel : Call M

-- The pointers that the three kinds of reads should have.
pub record HasReads {M : Type 0} (p : Pending M) (raw console input : Option M) : Type 0 where
  pub raw_is : p.raw_read ≡ raw
  pub console_is : p.console_read ≡ console
  pub input_is : p.console_input ≡ input

module _ {M : Type 0} where
  unfoldable pub after : Call M → Pending M → Pending M
  after (Call.raw m z) p = begin_raw_read m z p
  after (Call.cooked m z) p = begin_console_read m z p
  after (Call.records m) p = begin_console_input m p
  after (Call.eof b) p = set_vt_eof b p
  after Call.cancel p = clear p

  unfoldable pub run : List (Call M) → Pending M → Pending M
  run [] p = p
  run (c ∷ cs) p = run cs (after c p)

  -- The message that waits according to the calls alone: the last one that began and was not
  -- cleared, with its kind.
  unfoldable pub waiting : List (Call M) → PendingKind × Option M → PendingKind × Option M
  waiting [] w = w
  waiting (Call.raw m z ∷ cs) w = waiting cs (PendingKind.raw_reading, some m)
  waiting (Call.cooked m z ∷ cs) w = waiting cs (PendingKind.console_reading, some m)
  waiting (Call.records m ∷ cs) w = waiting cs (PendingKind.console_inputting, some m)
  waiting (Call.eof b ∷ cs) w = waiting cs w
  waiting (Call.cancel ∷ cs) w = waiting cs (PendingKind.idle, none)

  -- The state that shows one waiting message, and no other.
  unfoldable pub Shows : Pending M → PendingKind × Option M → Type 0
  Shows p (PendingKind.idle, m) =
      (p.kind ≡ PendingKind.idle) × (m ≡ none) × HasReads p none none none
  Shows p (PendingKind.raw_reading, m) = (p.kind ≡ PendingKind.raw_reading) × HasReads p m none none
  Shows p (PendingKind.console_reading, m) =
      (p.kind ≡ PendingKind.console_reading) × HasReads p none m none
  Shows p (PendingKind.console_inputting, m) =
      (p.kind ≡ PendingKind.console_inputting) × HasReads p none none m

  reads : {p : Pending M} → HasReads p p.raw_read p.console_read p.console_input
  reads = record { raw_is = refl; console_is = refl; input_is = refl }

  set_vt_eof-Shows :
      (b : Bool) (p : Pending M) (w : PendingKind × Option M) → Shows p w → Shows (set_vt_eof b p) w
  unfolding Shows set_vt_eof
  set_vt_eof-Shows b p (PendingKind.idle, m) (k, n, h) =
      (k, n, record { raw_is = h.raw_is; console_is = h.console_is; input_is = h.input_is })
  set_vt_eof-Shows b p (PendingKind.raw_reading, m) (k, h) =
      (k, record { raw_is = h.raw_is; console_is = h.console_is; input_is = h.input_is })
  set_vt_eof-Shows b p (PendingKind.console_reading, m) (k, h) =
      (k, record { raw_is = h.raw_is; console_is = h.console_is; input_is = h.input_is })
  set_vt_eof-Shows b p (PendingKind.console_inputting, m) (k, h) =
      (k, record { raw_is = h.raw_is; console_is = h.console_is; input_is = h.input_is })

  run-Shows_from :
      (cs : List (Call M)) (p : Pending M) (w : PendingKind × Option M)
      → Shows p w
      → Shows (run cs p) (waiting cs w)
  unfolding run waiting after Shows begin_raw_read begin_console_read begin_console_input clear
  run-Shows_from [] p w h = h
  run-Shows_from (Call.raw m z ∷ cs) p w h = run-Shows_from cs _ _ (refl, reads)
  run-Shows_from (Call.cooked m z ∷ cs) p w h = run-Shows_from cs _ _ (refl, reads)
  run-Shows_from (Call.records m ∷ cs) p w h = run-Shows_from cs _ _ (refl, reads)
  run-Shows_from (Call.eof b ∷ cs) p w h = run-Shows_from cs _ w (set_vt_eof-Shows b p w h)
  run-Shows_from (Call.cancel ∷ cs) p w h = run-Shows_from cs _ _ (refl, refl, reads)

  -- After any calls the state shows exactly the message that began last and was not cleared, under
  -- its own kind; the pointers of the other kinds are null.
  pub run-Shows :
      (cs : List (Call M)) → Shows (run cs initial) (waiting cs (PendingKind.idle, none))
  unfolding Shows initial
  run-Shows cs = run-Shows_from cs initial (PendingKind.idle, none) (refl, refl, reads)

  -- What the calls alone say of the end of the input: the last value that was set.
  unfoldable pub last_eof : List (Call M) → Bool → Bool
  last_eof [] b = b
  last_eof (Call.eof b ∷ cs) _ = last_eof cs b
  last_eof (Call.raw m z ∷ cs) b = last_eof cs b
  last_eof (Call.cooked m z ∷ cs) b = last_eof cs b
  last_eof (Call.records m ∷ cs) b = last_eof cs b
  last_eof (Call.cancel ∷ cs) b = last_eof cs b

  -- The end of the input is a mark of the session: no beginning of a read and no `clear` changes it.
  pub vt_eof-run : (cs : List (Call M)) (p : Pending M) → (run cs p).vt_eof ≡ last_eof cs p.vt_eof
  unfolding run last_eof after begin_raw_read begin_console_read begin_console_input set_vt_eof
      clear
  vt_eof-run [] p = refl
  vt_eof-run (Call.eof b ∷ cs) p = vt_eof-run cs (set_vt_eof b p)
  vt_eof-run (Call.raw m z ∷ cs) p = vt_eof-run cs (begin_raw_read m z p)
  vt_eof-run (Call.cooked m z ∷ cs) p = vt_eof-run cs (begin_console_read m z p)
  vt_eof-run (Call.records m ∷ cs) p = vt_eof-run cs (begin_console_input m p)
  vt_eof-run (Call.cancel ∷ cs) p = vt_eof-run cs (clear p)
