-- ===== src/Cursor/Echo.antt =====
-- The echo of typed text and of the backspaces that take it back.
use corehost.Base.{
  ℕ, zero, suc, Bool, true, false, not, ◌&&◌, ◌||◌, ◌==◌, leb, if◌then◌else◌, ◌≡◌, refl, sym, ◌∙◌,
  ap, arith, List, [], ◌∷◌, ◌++◌, length, replicate,
}
use corehost.Base.Int.{ℤ, pos, ◌+ℤ◌, ◌-ℤ◌, ◌≤ℤ◌, ◌<ℤ◌, ltb_ℤ, max_ℤ, int_laws}
use corehost.Base.Short.{IsShort, to_short-id}
use corehost.Cursor.{
  Cursor, at_x, with_end, apply_echo_byte, increment, decrement, retract_bounds, extend_bounds,
}

-- A byte that the echo takes for a character of one column.
abbrev pub is_plain : ℕ → Bool
is_plain byte = leb 0x20 byte && not (byte == 0x7F)

abbrev pub all_plain : List ℕ → Bool
all_plain [] = true
all_plain (b ∷ bs) = is_plain b && all_plain bs

unfoldable pub echo : List ℕ → Cursor → Cursor
echo [] s = s
echo (b ∷ bs) s = echo bs (apply_echo_byte b s)

pub echo-append : (xs ys : List ℕ) (s : Cursor) → echo (xs ++ ys) s ≡ echo ys (echo xs s)
unfolding echo
echo-append [] ys s = refl
echo-append (x ∷ xs) ys s = echo-append xs ys (apply_echo_byte x s)

-- The cursor on the same line, `n` columns on, with the input reaching at least there.
abbrev typed : Cursor → ℤ → Cursor
typed s n = with_end (at_x s (s.cursor.x +ℤ n)) (max_ℤ s.input_column_end (s.cursor.x +ℤ n))

echo-plain_one :
    (b : ℕ) (s : Cursor)
    → s.cursor_valid ≡ true
    → is_plain b ≡ true
    → IsShort s.cursor.x
    → s.cursor.x ≤ℤ pos 32766
    → apply_echo_byte b s ≡ typed s (pos 1)
unfolding apply_echo_byte max_ℤ
echo-plain_one b s v p r l =
    let x : increment s.cursor.x ≡ s.cursor.x +ℤ pos 1 =
      to_short-id _ (omega int_laws, omega int_laws) in
    let cr : (b == b'\r') ≡ false = ground arith in
    let lf : (b == b'\n') ≡ false = ground arith in
    let bs : (b == 0x08 || b == 0x7F) ≡ false = ground arith in
    let c : leb 0x20 b ≡ true = ground arith in
    rw (apply_echo_byte, v, cr, lf, bs, c, x) (ground arith)

echo-backspace_one :
    (s : Cursor)
    → s.cursor_valid ≡ true
    → IsShort s.input_column_start
    → s.input_column_start <ℤ s.cursor.x
    → s.cursor.x ≤ℤ s.input_column_end
    → s.cursor.x ≤ℤ pos 32767
    → apply_echo_byte 0x08 s ≡ with_end (at_x s (s.cursor.x -ℤ pos 1)) (s.cursor.x -ℤ pos 1)
unfolding apply_echo_byte
echo-backspace_one s v r l e m =
    let x : decrement s.cursor.x ≡ s.cursor.x -ℤ pos 1 =
      to_short-id _ (omega int_laws, omega int_laws) in
    let a : ltb_ℤ s.input_column_start s.cursor.x ≡ true = ground arith in
    let z : s.cursor.x -ℤ pos 1 <ℤ s.input_column_end = omega int_laws in
    let b : ltb_ℤ (s.cursor.x -ℤ pos 1) s.input_column_end ≡ true = ground arith in
    rw (apply_echo_byte, v, a, x, b)

-- The cursor in column `k`, where the input ends as well.
abbrev ends_at : Cursor → ℤ → Cursor
ends_at s k = with_end (at_x s k) k

echo-plain :
    (bs : List ℕ) (s : Cursor) (k : ℤ)
    → s.cursor_valid ≡ true
    → all_plain bs ≡ true
    → IsShort k
    → k +ℤ pos (length bs) ≤ℤ pos 32767
    → echo bs (ends_at s k) ≡ ends_at s (k +ℤ pos (length bs))
unfolding echo max_ℤ
echo-plain [] s k v p r l = let e : k ≡ k +ℤ pos 0 = omega int_laws in ap (ends_at s) e
echo-plain (b ∷ bs) s k v p r l =
    let q : is_plain b ≡ true = ground arith in
    let qs : all_plain bs ≡ true = ground arith in
    let m : k <ℤ k +ℤ pos 1 = omega int_laws in
    let n : ltb_ℤ k (k +ℤ pos 1) ≡ true = ground arith in
    let e : k +ℤ pos 1 +ℤ pos (length bs) ≡ k +ℤ pos (suc (length bs)) = omega int_laws in
    ap (echo bs) (
      echo-plain_one b (ends_at s k) v q r (omega int_laws)
      ∙ ap (λ t. with_end (at_x s (k +ℤ pos 1)) (if t then k +ℤ pos 1 else k)) n)
    ∙ echo-plain bs s (k +ℤ pos 1) v qs (omega int_laws, omega int_laws) (omega int_laws)
    ∙ ap (ends_at s) e

echo-backspaces :
    (n : ℕ) (s : Cursor) (k : ℤ)
    → s.cursor_valid ≡ true
    → IsShort s.input_column_start
    → s.input_column_start ≤ℤ k
    → k +ℤ pos n ≤ℤ pos 32767
    → echo (replicate n 0x08) (ends_at s (k +ℤ pos n)) ≡ ends_at s k
unfolding echo
echo-backspaces zero s k v r l m = let e : k +ℤ pos 0 ≡ k = omega int_laws in ap (ends_at s) e
echo-backspaces (suc n) s k v r l m =
    let e : k +ℤ pos (suc n) -ℤ pos 1 ≡ k +ℤ pos n = omega int_laws in
    ap (echo (replicate n 0x08)) (
      echo-backspace_one (ends_at s (k +ℤ pos (suc n))) v r (omega int_laws) (omega int_laws) m
      ∙ ap (ends_at s) e)
    ∙ echo-backspaces n s k v r l (omega int_laws)

-- With a known cursor at the end of the input and not before its start, on a line with room for
-- the text below column 32768: plain text and as many backspaces leave the state exactly as it was.
pub echo-erase :
    (bs : List ℕ) (s : Cursor)
    → s.cursor_valid ≡ true
    → all_plain bs ≡ true
    → IsShort s.input_column_start
    → s.input_column_start ≤ℤ s.cursor.x
    → s.cursor.x ≡ s.input_column_end
    → s.cursor.x +ℤ pos (length bs) ≤ℤ pos 32767
    → echo (bs ++ replicate (length bs) 0x08) s ≡ s
echo-erase bs s v p r l e m =
    let at_end : ends_at s s.cursor.x ≡ s = ap (with_end s) e in
    echo-append bs (replicate (length bs) 0x08) s
    ∙ ap (λ t. echo (replicate (length bs) 0x08) (echo bs t)) (sym at_end)
    ∙ ap (echo (replicate (length bs) 0x08))
        (echo-plain bs s s.cursor.x v p (omega int_laws, omega int_laws) m)
    ∙ echo-backspaces (length bs) s s.cursor.x v r l m
    ∙ at_end

-- With a known cursor and ordered columns of input that do not start in the first column: a
-- backspace directly after a carriage return moves the end of the input before its start.
pub erase_after_return :
    (s : Cursor)
    → s.cursor_valid ≡ true
    → pos 0 <ℤ s.input_column_start
    → s.input_column_start ≤ℤ s.input_column_end
    → (echo (b'\r' ∷ 0x08 ∷ []) s).input_column_end
      <ℤ (echo (b'\r' ∷ 0x08 ∷ []) s).input_column_start
unfolding echo apply_echo_byte
erase_after_return s v l m =
    let a : ltb_ℤ s.input_column_start (pos 0) ≡ false = ground arith in
    let z : pos 0 <ℤ s.input_column_end = omega int_laws in
    let b : ltb_ℤ (pos 0) s.input_column_end ≡ true = ground arith in
    let returned : apply_echo_byte b'\r' s ≡ at_x s (pos 0) = rw (apply_echo_byte, v) in
    let erased_at : apply_echo_byte 0x08 (at_x s (pos 0)) ≡ with_end (at_x s (pos 0)) (pos 0) =
      rw (apply_echo_byte, v, a, b) in
    let e = ap (apply_echo_byte 0x08) returned ∙ erased_at in rw e l

-- Where the input's columns are ordered and its end is below 32767, a character inserted and removed
-- leaves the state as it was.
pub retract_bounds-extend_bounds :
    (s : Cursor)
    → IsShort s.input_column_start
    → s.input_column_start ≤ℤ s.input_column_end
    → s.input_column_end ≤ℤ pos 32766
    → retract_bounds (extend_bounds s) ≡ s
unfolding retract_bounds extend_bounds
retract_bounds-extend_bounds s r l m =
    let x : increment s.input_column_end ≡ s.input_column_end +ℤ pos 1 =
      to_short-id _ (omega int_laws, omega int_laws) in
    let a : s.input_column_start <ℤ s.input_column_end +ℤ pos 1 = omega int_laws in
    let b : ltb_ℤ s.input_column_start (s.input_column_end +ℤ pos 1) ≡ true = ground arith in
    let y : decrement (s.input_column_end +ℤ pos 1) ≡ s.input_column_end =
      to_short-id _ (omega int_laws, omega int_laws) ∙ omega int_laws in
    rw (x, b) (ap (with_end s) y)
