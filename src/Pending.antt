-- ===== src/Pending.antt =====
-- libcorehost/pending_io_state.hpp: the one read of a client that waits for input. A message of the
-- driver is of any type `M`; a null pointer is `none`.
pub mod Exclusive
mod Tests
use corehost.Base.{Bool, true, false, not, Option, none, some, List, [], ◌∷◌}

pub data PendingKind : Type 0 where
  idle raw_reading console_reading console_inputting : PendingKind

pub record Pending (M : Type 0) : Type 0 where
  pub kind : PendingKind
  pub raw_read : Option M
  pub console_read : Option M
  pub console_input : Option M
  pub vt_eof : Bool
  pub process_control_z : Bool

module _ {M : Type 0} where
  unfoldable pub initial : Pending M
  initial = record {
    kind = PendingKind.idle;
    raw_read = none;
    console_read = none;
    console_input = none;
    vt_eof = false;
    process_control_z = false;
  }

  unfoldable pub has_pending : Pending M → Bool
  has_pending p = elim p.kind [ PendingKind.idle ↦ false | _ ↦ true ]

  unfoldable pub begin_raw_read : M → Bool → Pending M → Pending M
  begin_raw_read msg process_control_z p = record p {
    kind = PendingKind.raw_reading;
    raw_read = some msg;
    console_read = none;
    console_input = none;
    process_control_z = process_control_z;
  }

  unfoldable pub begin_console_read : M → Bool → Pending M → Pending M
  begin_console_read msg process_control_z p = record p {
    kind = PendingKind.console_reading;
    raw_read = none;
    console_read = some msg;
    console_input = none;
    process_control_z = process_control_z;
  }

  unfoldable pub begin_console_input : M → Pending M → Pending M
  begin_console_input msg p = record p {
    kind = PendingKind.console_inputting;
    raw_read = none;
    console_read = none;
    console_input = some msg;
  }

  unfoldable pub set_vt_eof : Bool → Pending M → Pending M
  set_vt_eof eof p = record p { vt_eof = eof }

  unfoldable pub clear : Pending M → Pending M
  clear p = record p {
    kind = PendingKind.idle;
    raw_read = none;
    console_read = none;
    console_input = none;
    process_control_z = false;
  }
