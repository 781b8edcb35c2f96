-- ===== src/Viewport/Bounds.antt =====
-- What `set_rect` leaves: a rectangle that is never empty and never outside its buffer.
use corehost.Base.{◌↔◌, ◌∙◌, ap, true, false, ◌≡◌, refl, arith}
use corehost.Base.Int.{
  ℤ, pos, ◌+ℤ◌, ◌-ℤ◌, ◌≤ℤ◌, int_laws, clamp_ℤ, clamp_ℤ_bounds, clamp_ℤ-id, max_ℤ_le, max_ℤ-least,
  eq_of_parts,
}
use corehost.Base.Short.{to_short-id, IsShort}
use corehost.Viewport.{
  Coord, SmallRect, Viewport, valid_dimension, clamped_dimension, axis_first, axis_last, placed,
  same_rect, Spans, IsInside, IsCoord, set_rect, clamp_to_buffer,
}

pub valid_dimension_bounds :
    (d : ℤ)
    → IsShort d
    → (pos 1 ≤ℤ valid_dimension d) × (d ≤ℤ valid_dimension d) × (valid_dimension d ≤ℤ pos 32767)
unfolding valid_dimension
valid_dimension_bounds d h = (
  (max_ℤ_le d (pos 1)).1,
  (max_ℤ_le d (pos 1)).0,
  max_ℤ-least d (pos 1) (pos 32767) h.1 (omega arith),
)

pub clamped_dimension-eq :
    (value maximum : ℤ)
    → pos 1 ≤ℤ maximum
    → maximum ≤ℤ pos 32767
    → clamped_dimension value maximum ≡ clamp_ℤ value (pos 1) maximum
unfolding clamped_dimension
clamped_dimension-eq value maximum p q =
    to_short-id _ (omega (arith, clamp_ℤ_bounds value (pos 1) maximum p))

-- The cells that a side takes, with no wrap left.
unfoldable pub axis_extent : ℤ → ℤ → ℤ → ℤ
axis_extent first last dimension =
    clamp_ℤ (last -ℤ first +ℤ pos 1) (pos 1) (valid_dimension dimension)

pub axis_extent_bounds :
    (first last dimension : ℤ)
    → IsShort dimension
    → (pos 1 ≤ℤ axis_extent first last dimension)
      × (axis_extent first last dimension ≤ℤ valid_dimension dimension)
unfolding axis_extent
axis_extent_bounds first last dimension h =
    clamp_ℤ_bounds _ (pos 1) _ (valid_dimension_bounds dimension h).0

pub axis_first-eq :
    (first last dimension : ℤ)
    → IsShort dimension
    → axis_first first last dimension
      ≡ clamp_ℤ first (pos 0) (valid_dimension dimension -ℤ axis_extent first last dimension)
unfolding axis_first axis_extent
axis_first-eq first last dimension h =
    let m = valid_dimension_bounds dimension h in
    let e = axis_extent_bounds first last dimension h in
    rw (clamped_dimension-eq _ _ m.0 m.2)
      (ap (clamp_ℤ first (pos 0)) (to_short-id _ (omega int_laws)))

axis_first_bounds :
    (first last dimension : ℤ)
    → IsShort dimension
    → (pos 0 ≤ℤ axis_first first last dimension)
      × (axis_first first last dimension
          ≤ℤ valid_dimension dimension -ℤ axis_extent first last dimension)
axis_first_bounds first last dimension h =
    let e = axis_extent_bounds first last dimension h in
    rw (axis_first-eq first last dimension h) (clamp_ℤ_bounds first (pos 0) _ (omega int_laws))

pub axis_last-eq :
    (first last dimension : ℤ)
    → IsShort dimension
    → axis_last first last dimension
      ≡ axis_first first last dimension +ℤ axis_extent first last dimension -ℤ pos 1
unfolding axis_last axis_extent
axis_last-eq first last dimension h =
    let m = valid_dimension_bounds dimension h in
    let e = axis_extent_bounds first last dimension h in
    let f = axis_first_bounds first last dimension h in
    rw (clamped_dimension-eq _ _ m.0 m.2) (to_short-id _ (omega int_laws))

pub axis-Spans :
    (first last dimension : ℤ)
    → IsShort dimension
    → Spans (axis_first first last dimension) (axis_last first last dimension) dimension
axis-Spans first last dimension h =
    let e = axis_extent_bounds first last dimension h in
    let f = axis_first_bounds first last dimension h in
    rw (axis_last-eq first last dimension h) (f.0, omega int_laws, omega int_laws)

-- A side that already fits is kept.
pub axis-Spans_id :
    (first last dimension : ℤ)
    → IsShort dimension
    → Spans first last dimension
    → (axis_first first last dimension ≡ first) × (axis_last first last dimension ≡ last)
unfolding axis_extent
axis-Spans_id first last dimension h s =
    let x : axis_extent first last dimension ≡ last -ℤ first +ℤ pos 1 =
      clamp_ℤ-id _ _ _ (omega int_laws) (omega int_laws) in
    let f : axis_first first last dimension ≡ first =
      axis_first-eq first last dimension h ∙ rw x (clamp_ℤ-id _ _ _ s.0 (omega int_laws)) in
    (f, axis_last-eq first last dimension h ∙ rw (x, f) (omega int_laws))

-- Whatever rectangle is asked for, empty and out of range ones too, the viewport that `set_rect`
-- leaves is at least one cell in each direction and lies inside the buffer.
pub set_rect-IsInside :
    (v : Viewport) (rect : SmallRect) (buffer_size : Coord)
    → IsCoord buffer_size
    → IsInside (set_rect v rect buffer_size).0 buffer_size
unfolding set_rect placed
set_rect-IsInside v rect b h = record {
  columns = axis-Spans rect.left rect.right b.x h.0;
  rows = axis-Spans rect.top rect.bottom b.y h.1;
}

same_rect_iff : (a b : SmallRect) → (same_rect a b ≡ true) ↔ (a ≡ b)
unfolding same_rect
same_rect_iff a b = (
  λ h. ground (
    arith,
    eq_of_parts a.left b.left,
    eq_of_parts a.top b.top,
    eq_of_parts a.right b.right,
    eq_of_parts a.bottom b.bottom,
  ),
  λ e. rw e (ground arith),
)

-- `set_rect` answers false exactly when the viewport is the one it was.
pub set_rect-changed_iff :
    (v : Viewport) (rect : SmallRect) (buffer_size : Coord)
    → ((set_rect v rect buffer_size).1 ≡ false) ↔ ((set_rect v rect buffer_size).0 ≡ v)
unfolding set_rect
set_rect-changed_iff v rect b = (
  λ h. ground (arith, (same_rect_iff v.rect (placed rect b)).0),
  λ e. ground (arith, (same_rect_iff v.rect (placed rect b)).1),
)

placed-id : (v : Viewport) (b : Coord) → IsCoord b → IsInside v b → placed v.rect b ≡ v.rect
unfolding placed
placed-id v b h inside =
    let x = axis-Spans_id v.rect.left v.rect.right b.x h.0 inside.columns in
    let y = axis-Spans_id v.rect.top v.rect.bottom b.y h.1 inside.rows in ground arith

-- A viewport inside the buffer is left as it is, and reported as unchanged.
pub clamp_to_buffer-IsInside :
    (v : Viewport) (buffer_size : Coord)
    → IsCoord buffer_size
    → IsInside v buffer_size
    → clamp_to_buffer v buffer_size ≡ (v, false)
unfolding clamp_to_buffer set_rect
clamp_to_buffer-IsInside v b h inside =
    rw (placed-id v b h inside) (ground (arith, (same_rect_iff v.rect v.rect).1 refl))
