-- ===== src/Cursor/Guards.antt =====
-- The operations without a known cursor, the echo in terms of them, and the newline of an Enter.
use corehost.Base.{
  ℕ, Bool, true, false, ◌||◌, ◌==◌, leb, if◌then◌else◌, ◌≡◌, refl, sym, ◌∙◌, arith, Bool-cases, inl,
  inr,
}
use corehost.Base.Int.{ℤ, pos, ◌+ℤ◌, ◌-ℤ◌, ◌≤ℤ◌, ◌<ℤ◌, ltb_ℤ, ltb_ℤ-lt, ltb_ℤ-ge, int_laws}
use corehost.Base.Short.{to_short, to_short-id}
use corehost.Cursor.{
  Cursor, with_end, erased, advance, retreat, crlf, carriage_return, line_feed, set_cursor_x,
  mark_enter_newline_at_cursor, consume_enter_newline, shift_enter_dest, apply_echo_byte,
}

-- While the cursor is not known, no guarded operation changes anything.
pub unknown_cursor_kept :
    (s : Cursor) (x : ℤ) (byte : ℕ)
    → s.cursor_valid ≡ false
    → (advance s ≡ s)
      × (retreat s ≡ s)
      × (crlf s ≡ s)
      × (carriage_return s ≡ s)
      × (line_feed s ≡ s)
      × (set_cursor_x x s ≡ s)
      × (mark_enter_newline_at_cursor s ≡ s)
      × (apply_echo_byte byte s ≡ s)
unfolding advance retreat crlf carriage_return line_feed set_cursor_x mark_enter_newline_at_cursor
    apply_echo_byte
unknown_cursor_kept s x byte h = (
  rw (advance, h),
  rw (retreat, h),
  rw (crlf, h),
  rw (carriage_return, h),
  rw (line_feed, h),
  rw (set_cursor_x, h),
  rw (mark_enter_newline_at_cursor, h),
  rw (apply_echo_byte, h),
)

-- The input ends at the cursor, if it went on behind it.
unfoldable pub clipped : Cursor → Cursor
clipped s =
    if s.cursor_valid
    then (if ltb_ℤ s.cursor.x s.input_column_end then with_end s s.cursor.x else s)
    else s

-- With no known cursor both are nothing; with one, they are the echo's backspace.
clipped-retreat_unknown : (s : Cursor) → s.cursor_valid ≡ false → clipped (retreat s) ≡ s
unfolding clipped retreat
clipped-retreat_unknown s h = ground arith

clipped-retreat : (s : Cursor) → s.cursor_valid ≡ true → clipped (retreat s) ≡ erased s
unfolding clipped retreat
clipped-retreat s h = ground arith

always :
    (s : Cursor) (b : Bool) (x : Cursor) → x ≡ s → {y : Cursor} → y ≡ s → (if b then x else y) ≡ s
always s true x h k = h
always s false x h k = k

echo_unknown :
    (byte : ℕ) (s : Cursor)
    → s.cursor_valid ≡ false
    → apply_echo_byte byte s ≡ (
        if byte == b'\r'
        then carriage_return s
        else if byte == b'\n'
        then crlf s
        else if byte == 0x08 || byte == 0x7F
        then clipped (retreat s)
        else if leb 0x20 byte
        then advance s
        else s)
echo_unknown byte s h =
    let (a, _, c, r, _, _, _, e) = unknown_cursor_kept s (pos 0) byte h in
    let b = clipped-retreat_unknown s h in
    e
    ∙ sym (
        always s (byte == b'\r') _ r (
          always s (byte == b'\n') _ c
            (always s (byte == 0x08 || byte == 0x7F) _ b (always s (leb 0x20 byte) _ a refl))))

-- The echo of a byte is the operation that the line editor makes for it: a return, a new line, a
-- step back that ends the input, or a step forward; other controls do nothing.
pub apply_echo_byte_lem :
    (byte : ℕ) (s : Cursor)
    → apply_echo_byte byte s ≡ (
        if byte == b'\r'
        then carriage_return s
        else if byte == b'\n'
        then crlf s
        else if byte == 0x08 || byte == 0x7F
        then clipped (retreat s)
        else if leb 0x20 byte
        then advance s
        else s)
unfolding apply_echo_byte carriage_return crlf retreat advance clipped
apply_echo_byte_lem byte s = elim (Bool-cases s.cursor_valid) [
  | inr unknown ↦ echo_unknown byte s unknown
  | inl known ↦ rw (apply_echo_byte, carriage_return, crlf, clipped-retreat s known, advance, known)
]

-- With a known cursor: marking the newline of an Enter keeps that cursor and makes the next
-- `consume_enter_newline` answer true; a second one in a row answers false.
pub enter_newline_once :
    (s : Cursor)
    → s.cursor_valid ≡ true
    → ((mark_enter_newline_at_cursor s).enter_dest ≡ s.cursor)
      × ((consume_enter_newline (mark_enter_newline_at_cursor s)).1 ≡ true)
      × ((consume_enter_newline (consume_enter_newline s).0).1 ≡ false)
unfolding mark_enter_newline_at_cursor consume_enter_newline
enter_newline_once s h = (ground arith, ground arith, ground arith)

-- Whatever number of lines the window scrolled by, the place of the newline stays in a window of
-- `rows` lines, for 1 to 32767 of them.
pub shift_enter_dest_bounds :
    (dy rows : ℤ) (s : Cursor)
    → pos 1 ≤ℤ rows
    → rows ≤ℤ pos 32767
    → (pos 0 ≤ℤ (shift_enter_dest dy rows s).enter_dest.y)
      × ((shift_enter_dest dy rows s).enter_dest.y <ℤ rows)
unfolding shift_enter_dest
shift_enter_dest_bounds dy rows s p q = elim (Bool-cases (ltb_ℤ (s.enter_dest.y +ℤ dy) (pos 0))) [
  | inl low ↦
      let e : to_short (pos 0) ≡ pos 0 = to_short-id _ (omega int_laws, omega int_laws) in
      rw (low, e) (omega int_laws, omega int_laws)
  | inr high ↦
      let l = ltb_ℤ-ge (s.enter_dest.y +ℤ dy) (pos 0) high in
      elim (Bool-cases (ltb_ℤ (s.enter_dest.y +ℤ dy) rows)) [
        | inl inside ↦
            let m = ltb_ℤ-lt (s.enter_dest.y +ℤ dy) rows inside in
            let e : to_short (s.enter_dest.y +ℤ dy) ≡ s.enter_dest.y +ℤ dy =
              to_short-id _ (omega int_laws, omega int_laws) in
            rw (high, inside, e) (omega int_laws, omega int_laws)
        | inr past ↦
            let e : to_short (rows -ℤ pos 1) ≡ rows -ℤ pos 1 =
              to_short-id _ (omega int_laws, omega int_laws) in
            rw (high, past, e) (omega int_laws, omega int_laws)
      ]
]
