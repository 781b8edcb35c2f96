-- ===== src/Vt/Parser/Tests.antt =====
-- Runs of the parser, and the examples of its theorems.
use corehost.Base.{
  ℕ, ◌≡◌, ◌⊎◌, inl, inr, refl, arith, false, not, List, [], ◌∷◌, ◌++◌, Option, none, some, ◌<◌, ◌≤◌,
  ◌%◌, length, take, if◌then◌else◌,
}
use corehost.Vt.Message.{MessageId, Payload, ParseResult, is_continue}
use corehost.Vt.Csi.{csi_cursor, csi_position, get_positive_param, get_param}
use corehost.Vt.Csi.Dispatch.{csi_switch, csi_modifier}
use corehost.Vt.Parser.{
  Parser, Mode, initial, add_param, finish_seq, finish_csi, parse_esc, classify_csi_char,
  parse_csi_kind,
}
use corehost.Vt.Parser.Parse.{
  parse, parse_in, parse_ground, parse_ground_control, classify_ground_char, control_message,
  text_run, scan, scan_result, step, step_in, reset, in_ground, make_result, raw_sequence,
  no_message,
}
use corehost.Vt.Parser.Progress.{parse_advances}
use corehost.Vt.Parser.Chunks.{parse-append}
use corehost.Vt.Parser.Pieces.{continued}
use corehost.Vt.Parser.Raw.{IsAligned}
use corehost.Vt.Parser.Whole.{parse_raw_sequence, next_parser, parse-IsAligned, parse_unknown_text}
use corehost.Vt.Parser.Stale.{has_meaning, designation_left_over}
use corehost.Vt.Parser.Digits.{value_from, coordinate, cursor_position_digits}

-- ESC [ 5 ; 1 2 H
abbrev cup : List ℕ
cup = 0x1b ∷ b'[' ∷ b'5' ∷ b';' ∷ b'1' ∷ b'2' ∷ b'H' ∷ []

abbrev outcome : Option (Parser × ParseResult) → Option (MessageId × ℕ × List ℕ × Payload)
outcome none = none
outcome (some (p, r)) = some (r.id, r.consumed, r.raw_sequence, r.message.payload)

-- The sequence is read, and the letter behind it is left.
cup_run :
    outcome (parse (cup ++ b'x' ∷ []) initial)
    ≡ some (MessageId.cursor_position, 7, cup, Payload.position 5 12)
unfolding parse parse_in parse_ground parse_ground_control classify_ground_char control_message
    text_run scan scan_result step step_in make_result raw_sequence parse_esc classify_csi_char
    parse_csi_kind add_param finish_csi finish_seq csi_switch csi_modifier csi_cursor csi_position
    get_positive_param get_param
cup_run = refl

-- 65541 is 5 modulo 2 ^ 16.
wrapped_run : coordinate (value_from 0 (b'6' ∷ b'5' ∷ b'5' ∷ b'4' ∷ b'1' ∷ []) % 65536) ≡ 5
unfolding coordinate value_from
wrapped_run = refl

initial-IsAligned : IsAligned initial
unfolding in_ground
initial-IsAligned = record {
  from_start = refl;
  in_ground_empty = inr refl;
  inside_escape = inl refl;
}

-- ESC [ alone leaves the parser inside the sequence.
abbrev prefix : List ℕ
prefix = 0x1b ∷ b'[' ∷ []

abbrev inside : Parser
inside = record initial { raw = prefix; mode = Mode.csi }

abbrev waiting : ParseResult
waiting = record { id = MessageId.continue_; consumed = 2; raw_sequence = []; message = no_message }

prefix_run : parse prefix initial ≡ some (inside, waiting)
unfolding parse parse_in parse_ground parse_ground_control classify_ground_char control_message
    text_run scan scan_result step step_in make_result raw_sequence parse_esc
prefix_run = refl

-- ESC and a control: an unknown sequence.
abbrev broken_off : Parser
broken_off = record initial { payload = Payload.text (0x1b ∷ 0x18 ∷ []); raw = 0x1b ∷ 0x18 ∷ [] }

abbrev unknown_result : ParseResult
unknown_result = record {
  id = MessageId.unknown_sequence;
  consumed = 2;
  raw_sequence = 0x1b ∷ 0x18 ∷ [];
  message = record { payload = Payload.text (0x1b ∷ 0x18 ∷ []); key_modifier = 1 };
}

broken_off_run : parse (0x1b ∷ 0x18 ∷ []) initial ≡ some (broken_off, unknown_result)
unfolding parse parse_in parse_ground parse_ground_control classify_ground_char control_message
    text_run scan scan_result step step_in make_result raw_sequence parse_esc
broken_off_run = refl

parse_advances_example :
    (p' : Parser) × (r : ParseResult) × (parse cup initial ≡ some (p', r))
    × (0 < r.consumed)
    × (r.consumed ≤ length cup)
    × (in_ground p' ≡ not (is_continue r.id))
    × ((r.consumed ≡ length cup) ⊎ (is_continue r.id ≡ false))
parse_advances_example = parse_advances cup initial (omega arith)

parse-append_example : parse (prefix ++ b'A' ∷ []) initial ≡ continued inside waiting 2 (b'A' ∷ [])
unfolding in_ground
parse-append_example = parse-append prefix (b'A' ∷ []) initial inside waiting (inr refl) prefix_run

parse_raw_sequence_example :
    (p' : Parser) × (r : ParseResult) × (parse cup initial ≡ some (p', r))
    × (p'.raw ≡ take r.consumed cup)
    × (r.raw_sequence ≡ (if is_continue r.id then [] else p'.raw))
parse_raw_sequence_example =
    parse_raw_sequence cup initial (omega arith) initial-IsAligned (inr refl)

parse-IsAligned_example : IsAligned (next_parser inside MessageId.continue_)
parse-IsAligned_example = parse-IsAligned prefix initial inside waiting initial-IsAligned prefix_run

parse_unknown_text_example :
    (unknown_result.message.payload ≡ Payload.text unknown_result.raw_sequence)
    ⊎ (unknown_result.message.payload ≡ Payload.text [])
parse_unknown_text_example =
    parse_unknown_text (0x1b ∷ 0x18 ∷ []) initial broken_off unknown_result initial-IsAligned
      broken_off_run refl

-- ESC ( CAN, then ESC 7, which would save the cursor.
designation_left_over_example :
    (p q : Parser) × (r s : ParseResult) × (parse (0x1b ∷ b'(' ∷ 0x18 ∷ []) initial ≡ some (p, r))
    × (r.id ≡ MessageId.unknown_sequence)
    × (parse (0x1b ∷ b'7' ∷ []) (reset p) ≡ some (q, s))
    × (s.id ≡ MessageId.unknown_sequence)
unfolding has_meaning
designation_left_over_example = designation_left_over 0x18 b'7' refl refl

cursor_position_digits_example :
    (p : Parser) × (r : ParseResult) × (parse cup initial ≡ some (p, r))
    × (r.id ≡ MessageId.cursor_position)
    × (r.consumed ≡ 7)
    × (r.message.payload ≡ Payload.position 5 12)
unfolding value_from coordinate
cursor_position_digits_example = cursor_position_digits (b'5' ∷ []) (b'1' ∷ b'2' ∷ []) refl refl
