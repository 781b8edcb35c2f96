-- ===== src/Viewport/Wrap.antt =====
-- Where the sum of `set_origin` leaves the range of SHORT, and how positions are clamped.
use corehost.Base.{true, ◌≡◌, ◌∙◌, ap, arith}
use corehost.Base.Int.{
  ℤ, pos, ◌+ℤ◌, ◌-ℤ◌, ◌≤ℤ◌, ◌<ℤ◌, int_laws, clamp_ℤ, clamp_ℤ-id, clamp_ℤ_bounds, clamp_ℤ_low,
}
use corehost.Base.Short.{to_short, to_short-id, to_short_above, IsShort}
use corehost.Viewport.{
  Coord, Viewport, extent, size, axis_first, axis_last, placed, contains, Spans, IsInside, IsCoord,
  relative_position, clamped_relative_position, set_rect, set_origin,
}
use corehost.Viewport.Bounds.{valid_dimension_bounds, axis_extent, axis_last-eq}
use corehost.Viewport.Move.{extent-eq}

-- A side whose last cell wrapped to a negative number gets one cell.
axis_wrapped :
    (first last dimension : ℤ)
    → IsShort dimension
    → last -ℤ first +ℤ pos 1 ≤ℤ pos 1
    → axis_last first last dimension ≡ axis_first first last dimension
unfolding axis_extent
axis_wrapped first last dimension h p =
    let m = valid_dimension_bounds dimension h in
    let e : axis_extent first last dimension ≡ pos 1 = clamp_ℤ_low _ _ _ p m.0 in
    axis_last-eq first last dimension h ∙ rw e (omega int_laws)

extent_one : (a : ℤ) → extent a a ≡ pos 1
unfolding extent
extent_one a =
    let e : a -ℤ a +ℤ pos 1 ≡ pos 1 = omega int_laws in
    ap to_short e ∙ to_short-id (pos 1) (omega arith)

-- Where `origin.X + width - 1` passes 32767, `set_origin` does not keep the size: the viewport is
-- left one column wide, whatever its width was.
pub set_origin_wraps :
    (v : Viewport) (o buffer_size : Coord)
    → IsCoord buffer_size
    → IsInside v buffer_size
    → IsShort o.x
    → pos 32767 <ℤ o.x +ℤ (v.rect.right -ℤ v.rect.left)
    → (size (set_origin v o buffer_size).0).x ≡ pos 1
unfolding set_origin set_rect placed size
set_origin_wraps v o b h inside ox wide =
    let m = valid_dimension_bounds b.x h.0 in
    let x = extent-eq v.rect.left v.rect.right b.x h.0 inside.columns in
    let s = inside.columns in
    let end = to_short (o.x +ℤ extent v.rect.left v.rect.right -ℤ pos 1) in
    let e : end ≡ o.x +ℤ (v.rect.right -ℤ v.rect.left) -ℤ pos 65536 =
      rw x (to_short_above _ (omega int_laws) (omega int_laws) ∙ omega int_laws) in
    rw (axis_wrapped o.x end b.x h.0 (rw e (omega int_laws))) (extent_one (axis_first o.x end b.x))

-- One side of `clamped_relative_position`.
clamped_axis :
    (first last dimension p : ℤ)
    → IsShort dimension
    → Spans first last dimension
    → let q = clamp_ℤ p (pos 0) (to_short (extent first last -ℤ pos 1)) in
      (pos 0 ≤ℤ q) × (q ≤ℤ last -ℤ first)
clamped_axis first last dimension p h s =
    let m = valid_dimension_bounds dimension h in
    let e : to_short (extent first last -ℤ pos 1) ≡ last -ℤ first =
      rw (extent-eq first last dimension h s) (to_short-id _ (omega int_laws) ∙ omega int_laws) in
    rw e (
      (clamp_ℤ_bounds p (pos 0) (last -ℤ first) (omega int_laws)).0,
      (clamp_ℤ_bounds p (pos 0) (last -ℤ first) (omega int_laws)).1,
    )

clamped_axis-id :
    (first last dimension p : ℤ)
    → IsShort dimension
    → Spans first last dimension
    → first ≤ℤ p
    → p ≤ℤ last
    → clamp_ℤ (to_short (p -ℤ first)) (pos 0) (to_short (extent first last -ℤ pos 1)) ≡ p -ℤ first
clamped_axis-id first last dimension p h s a c =
    let m = valid_dimension_bounds dimension h in
    let e : to_short (extent first last -ℤ pos 1) ≡ last -ℤ first =
      rw (extent-eq first last dimension h s) (to_short-id _ (omega int_laws) ∙ omega int_laws) in
    let d : to_short (p -ℤ first) ≡ p -ℤ first = to_short-id _ (omega int_laws) in
    rw (e, d) (clamp_ℤ-id _ _ _ (omega int_laws) (omega int_laws))

-- `clamped_relative_position` always names a cell of the viewport, counted from its corner.
pub clamped_relative_position_bounds :
    (v : Viewport) (p buffer_size : Coord)
    → IsCoord buffer_size
    → IsInside v buffer_size
    → let q = clamped_relative_position v p in
      (pos 0 ≤ℤ q.x)
      × (q.x ≤ℤ v.rect.right -ℤ v.rect.left)
      × (pos 0 ≤ℤ q.y)
      × (q.y ≤ℤ v.rect.bottom -ℤ v.rect.top)
unfolding clamped_relative_position size
clamped_relative_position_bounds v p b h inside =
    let r = relative_position v p in
    let x = clamped_axis v.rect.left v.rect.right b.x r.x h.0 inside.columns in
    let y = clamped_axis v.rect.top v.rect.bottom b.y r.y h.1 inside.rows in (x.0, x.1, y.0, y.1)

contains_parts :
    (v : Viewport) (p : Coord)
    → contains v p ≡ true
    → (v.rect.left ≤ℤ p.x) × (p.x ≤ℤ v.rect.right) × (v.rect.top ≤ℤ p.y) × (p.y ≤ℤ v.rect.bottom)
unfolding contains
contains_parts v p h = ground arith

-- For a position in view, `clamped_relative_position` is the exact difference from the corner.
pub clamped_relative_position-contains :
    (v : Viewport) (p buffer_size : Coord)
    → IsCoord buffer_size
    → IsInside v buffer_size
    → contains v p ≡ true
    → clamped_relative_position v p ≡ record { x = p.x -ℤ v.rect.left; y = p.y -ℤ v.rect.top }
unfolding clamped_relative_position relative_position size
clamped_relative_position-contains v p b h inside c =
    let k = contains_parts v p c in
    ground (
      arith,
      clamped_axis-id v.rect.left v.rect.right b.x p.x h.0 inside.columns k.0 k.1,
      clamped_axis-id v.rect.top v.rect.bottom b.y p.y h.1 inside.rows k.2 k.3,
    )
