-- ===== src/Lib.antt =====
-- corehost replaces the Windows console host: clients talk to it through the ConDrv driver, and it
-- talks VT sequences to a terminal. This library models the parts of libcorehost/ that decide:
--
-- Vt: libcorehost/vt_parser.hpp, the parser of VT sequences over UTF-32. Vt/Message holds the
--   messages (vt_message_id, vt_message_payload, vt_parse_result); Vt/Sgr the SGR payload and its
--   loop; Vt/Csi and Vt/Csi/Dispatch the switch of _dispatch_csi, as a chain of tables that pass on
--   what they do not know, and _dispatch_esc, _dispatch_ss3 and _dispatch_charset; Vt/Osc
--   _dispatch_osc; Vt/Parser the state of the class vt_parser and the handler of each mode;
--   Vt/Parser/Parse the switch over the modes, parse, reset and in_ground. The other files below
--   Vt/Parser and Vt/Sgr are proofs: Answers (which ids a dispatch gives), Steps (one code point),
--   Runs (the loop), Paths, Ways and Loop (the ways through parse), Progress, Pieces, Chunks, Raw, Whole, Stale
--   and Digits; Sgr/Effect, Sgr/Rounds and Sgr/Order.
-- Row: libcorehost/screen_buffer_row.hpp, one row of a screen buffer. Row holds the record, the
--   readers and the private steps (materialize_*, write_attr_range, _blank_glyph_cut_at,
--   _shift_columns_from); Row/Write the writers of attributes and of one glyph, copy_from, fill and
--   to_char_info; Row/Run try_write_single_width_run, write_measured_run with its ways, and
--   from_char_info. Row/Layout is the abstract view, a list of glyphs, and `put`, what a write is
--   meant to do to it. The others are proofs: Laid (explicit columns), Replace, Cut and Put (a range
--   replaced, a glyph cut, what put does), Shows (the three forms of a row), Glyph and Written
--   (write_glyph), Store, Build, Generic, Measured, Whole, Alike, Single, Match and Runs (a run of text
--   and each of its ways), Read and Export (the readers), Attrs and Colors (the attributes).
-- Screen: libcorehost/screen_buffer.hpp, the rows as a ring from _row_origin on, clear, and the scroll of
--   the whole buffer; Screen/Text has write_text_row, Screen/Fill
--   fill_char and fill_attr. Fits, Ways and Shows (write_text_row), Reach (Fill), Lines and Scroll (the
--   ring) are proofs.
-- Viewport: libcorehost/console_viewport.hpp, the window rectangle of a screen buffer.
-- Cursor: libcorehost/terminal_cursor_state.hpp, where the host believes the cursor of the terminal.
-- Pending: libcorehost/pending_io_state.hpp, the one read of a client that waits for input.
-- History: libcorehost/command_history_state.hpp, the DOSKEY history behind Up and Down.
-- Input: libcorehost/input_buffer.hpp, the queue of INPUT_RECORDs and its event.
-- Base: names of the libraries, Boolean tests, lists measured by native numbers (Base/Lists),
--   integers (Base/Int) and the 16-bit SHORT (Base/Short).
--
-- How they interact: what the terminal sends is parsed by Vt into messages, which become input
-- records in Input; what clients write is parsed by the same class, and moves the cursor in the
-- Screen that Viewport shows, whose lines are Rows, and the Cursor that the host keeps. Pending holds the read that
-- waits for Input. History serves the line editor of cooked reads.
--
-- A class is a record, a method a function from the record (and its arguments) to the record and
-- the method's result, with the names of the source. A SHORT of the viewport is an integer, and
-- every cast wraps by to_short; a short of the parser is its 16-bit pattern, a number below 65536.
-- The set of SGR flags is a function from the flag, the union of payloads a data type whose
-- constructor is the branch written last. std::unreachable() is none.
-- An attribute, a code point and an entry of a row's columns are numbers; the flag of a trailing column
-- is the bit 32768 of its entry, a 16-bit difference is taken modulo 2^16. A store out of the bounds
-- of a row's text or columns changes nothing (the source is undefined there), and a row's theorems ask
-- that its offsets keep to 15 bits: the code points, twice the columns and the new text make at most
-- 32767, since a cut blanks a glyph with at most one space for each column.
-- The loops are structural recursion, over the input or over the columns left, which is what the
-- number in `run_end` (the columns behind the one it starts from) is enough for. A size_t is a
-- number; what the code subtracts from it is written out.
--
-- Assumed: bizwen::deque behaves as the list of its elements; an event object does what CreateEvent,
-- SetEvent and ResetEvent document (the interface EventApi of Input), and only the driver signals it besides; the raw buffer of a parser is
-- used by that parser alone, as its owner promises; int does not overflow, which the sums of three
-- SHORTs cannot make it; allocation succeeds.
--
-- Not modelled: the rest of screen_buffer.hpp (the linear reads and writes, resize, the scroll of a
-- part of the buffer); char_width.hpp, whose widths are an argument of write_text_row; vt_msg_dispatch.hpp, char_convert.hpp
-- and the smaller containers, which are pure and come next; pipe_bridge.hpp, api_handlers.hpp and
-- the routers, which mix decisions with calls of the driver; io_loop.hpp, condrv_io.hpp, conpty.cpp,
-- corehost/ and common/, which are set-up and system calls; proxy/ (generated), gbk_table.hpp (data),
-- bench/ and tests/.
pub mod Base
pub mod Viewport
pub mod Cursor
pub mod Pending
pub mod Row
pub mod Screen
pub mod History
pub mod Input
pub mod Vt
