-- ===== src/Viewport/Tests.antt =====
-- Runs of the viewport at inputs that can be followed in the source, and the theorems at such inputs.
use corehost.Base.{ℕ, true, ◌≡◌, refl, arith}
use corehost.Base.Int.{pos, negsuc, ◌+ℤ◌, ◌-ℤ◌, clamp_ℤ, max_ℤ}
use corehost.Base.Short.{to_short}
use corehost.Viewport.{
  Coord, SmallRect, Viewport, valid_dimension, clamped_dimension, axis_first, axis_last, placed,
  set_size, move_origin, size, contains, IsInside, set_rect, set_origin, snap_to_cursor, origin,
}
use corehost.Viewport.Bounds.{set_rect-IsInside}
use corehost.Viewport.Move.{
  set_origin_fits, move_origin_fits, set_size_fits, snap_to_cursor-contains,
}
use corehost.Viewport.Wrap.{set_origin_wraps}

abbrev buffer : Coord
buffer = record { x = pos 120; y = pos 9000 }

abbrev at : ℕ → ℕ → Coord
at x y = record { x = pos x; y = pos y }

abbrev rect_of : ℕ → ℕ → ℕ → ℕ → SmallRect
rect_of l t r b = record { left = pos l; top = pos t; right = pos r; bottom = pos b }

abbrev window : Viewport
window = record { rect = rect_of 0 100 119 129 }

abbrev narrow : Viewport
narrow = record { rect = rect_of 10 100 89 129 }

-- Asked for columns -5 .. 200, the viewport takes all 120.
set_rect_run :
    (set_rect window
      (record { left = negsuc 4; top = pos 50; right = pos 200; bottom = pos 79 })
      buffer).0
    ≡ record { rect = rect_of 0 50 119 79 }
unfolding set_rect placed axis_first axis_last clamped_dimension valid_dimension to_short clamp_ℤ
    max_ℤ ◌+ℤ◌ ◌-ℤ◌
set_rect_run = refl

set_rect-IsInside_example :
    IsInside
      (set_rect window
        (record { left = negsuc 4; top = pos 50; right = pos 200; bottom = pos 79 })
        buffer).0
      buffer
set_rect-IsInside_example = set_rect-IsInside window _ buffer (omega arith)

narrow-IsInside : IsInside narrow buffer
unfolding valid_dimension max_ℤ
narrow-IsInside = record { columns = omega arith; rows = omega arith }

set_origin_fits_example : (set_origin narrow (at 20 500) buffer).0 ≡ record {
  rect = record {
    left = pos 20;
    top = pos 500;
    right = pos 20 +ℤ (pos 89 -ℤ pos 10);
    bottom = pos 500 +ℤ (pos 129 -ℤ pos 100);
  };
}
unfolding valid_dimension max_ℤ ◌+ℤ◌ ◌-ℤ◌
set_origin_fits_example =
    set_origin_fits narrow (at 20 500) buffer (omega arith) narrow-IsInside (omega arith)
      (omega arith) (omega arith) (omega arith)

snap_to_cursor-contains_example :
    let w = (snap_to_cursor narrow (at 100 4000) buffer).0 in
    (contains w (at 100 4000) ≡ true) × (size w ≡ size narrow) × IsInside w buffer
unfolding valid_dimension max_ℤ
snap_to_cursor-contains_example =
    snap_to_cursor-contains narrow (at 100 4000) buffer (omega arith) narrow-IsInside (omega arith)
      (omega arith) (omega arith) (omega arith)

-- 80 columns become one.
set_origin_wraps_example : (size (set_origin narrow (at 32700 100) buffer).0).x ≡ pos 1
unfolding ◌+ℤ◌ ◌-ℤ◌
set_origin_wraps_example =
    set_origin_wraps narrow (at 32700 100) buffer (omega arith) narrow-IsInside (omega arith)
      (omega arith)

move_origin_fits_example :
    (move_origin narrow (record { x = negsuc 4; y = pos 30 }) buffer).0 ≡ record {
      rect = record {
        left = pos 10 +ℤ negsuc 4;
        top = pos 100 +ℤ pos 30;
        right = pos 89 +ℤ negsuc 4;
        bottom = pos 129 +ℤ pos 30;
      };
    }
unfolding valid_dimension max_ℤ ◌+ℤ◌
move_origin_fits_example =
    move_origin_fits narrow (record { x = negsuc 4; y = pos 30 }) buffer (omega arith)
      narrow-IsInside (omega arith) (omega arith) (omega arith) (omega arith)

set_size_fits_example :
    let w = (set_size narrow (at 110 25) buffer).0 in
    (origin w ≡ origin narrow) × (size w ≡ at 110 25)
unfolding valid_dimension max_ℤ ◌+ℤ◌
set_size_fits_example =
    set_size_fits narrow (at 110 25) buffer (omega arith) (omega arith) (omega arith) (omega arith)
      (omega arith) (omega arith) (omega arith)
