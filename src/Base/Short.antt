-- ===== src/Base/Short.antt =====
-- The 16-bit `short`/`SHORT`: `static_cast<SHORT>` keeps the low 16 bits and reads them as signed.
use corehost.Base.{ℕ, ◌-◌, ◌%◌, ◌≡◌, arith, ltb, if◌then◌else◌}
use corehost.Base.Int.{ℤ, pos, negsuc, ◌+ℤ◌, ◌-ℤ◌, ◌≤ℤ◌}

abbrev pub low_bits : ℤ → ℕ
low_bits (pos n) = n % 65536
low_bits (negsuc n) = 65535 - n % 65536

-- The number that a 16-bit pattern stands for.
abbrev pub signed16 : ℕ → ℤ
signed16 w = if ltb w 32768 then pos w else negsuc (65535 - w)

unfoldable pub to_short : ℤ → ℤ
to_short z = signed16 (low_bits z)

abbrev pub IsShort : ℤ → Type 0
IsShort z = (negsuc 32767 ≤ℤ z) × (z ≤ℤ pos 32767)

pub to_short-id : (z : ℤ) → IsShort z → to_short z ≡ z
unfolding to_short
to_short-id (pos n) h = ground arith
to_short-id (negsuc n) h = ground arith

-- One wrap past either end.
pub to_short_above : (z : ℤ) → pos 32768 ≤ℤ z → z ≤ℤ pos 98303 → to_short z ≡ z -ℤ pos 65536
unfolding to_short ◌-ℤ◌
to_short_above (pos n) h k = ground arith
to_short_above (negsuc n) h k = ground arith

-- A wrap inside a sum has no effect under a wrap around it.
pub to_short-add : (a b : ℤ) → to_short (a +ℤ to_short b) ≡ to_short (a +ℤ b)
unfolding to_short ◌+ℤ◌
to_short-add (pos a) (pos b) = ground arith
to_short-add (pos a) (negsuc b) = ground arith
to_short-add (negsuc a) (pos b) = ground arith
to_short-add (negsuc a) (negsuc b) = ground arith
