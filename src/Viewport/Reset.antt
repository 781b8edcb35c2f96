-- ===== src/Viewport/Reset.antt =====
-- The reset to the whole buffer.
use corehost.Base.{◌≡◌, arith, true}
use corehost.Base.Int.{ℤ, pos, ◌-ℤ◌, int_laws, eqb_ℤ}
use corehost.Base.Short.{to_short, to_short-id}
use corehost.Viewport.{Coord, IsCoord, IsInside, covers, reset_to_buffer, valid_dimension}
use corehost.Viewport.Bounds.{valid_dimension_bounds}

eqb_ℤ_self : (a : ℤ) → eqb_ℤ a a ≡ true
eqb_ℤ_self a = ground arith

-- The reset viewport lies inside the buffer and covers all of it.
pub reset_to_buffer-covers :
    (buffer_size : Coord)
    → IsCoord buffer_size
    → IsInside (reset_to_buffer buffer_size) buffer_size
      × (covers (reset_to_buffer buffer_size) buffer_size ≡ true)
unfolding reset_to_buffer covers
reset_to_buffer-covers b h =
    let x = valid_dimension_bounds b.x h.0 in
    let y = valid_dimension_bounds b.y h.1 in
    let right : to_short (valid_dimension b.x -ℤ pos 1) ≡ valid_dimension b.x -ℤ pos 1 =
      to_short-id _ (omega int_laws, omega int_laws) in
    let bottom : to_short (valid_dimension b.y -ℤ pos 1) ≡ valid_dimension b.y -ℤ pos 1 =
      to_short-id _ (omega int_laws, omega int_laws) in
    rw (right, bottom)
      (
        record {
          columns = (omega int_laws, omega int_laws, omega int_laws);
          rows = (omega int_laws, omega int_laws, omega int_laws);
        },
        rw (eqb_ℤ_self (valid_dimension b.x -ℤ pos 1), eqb_ℤ_self (valid_dimension b.y -ℤ pos 1)),
      )
