-- ===== src/Viewport/Move.antt =====
-- console_viewport.hpp, set_origin, move_origin, set_size and snap_to_cursor: where the rectangle goes.
use corehost.Base.{true, ◌≡◌, ap, ◌∙◌, arith, Bool-cases, inl, inr}
use corehost.Base.Int.{
  ℤ, pos, ◌+ℤ◌, ◌-ℤ◌, ◌≤ℤ◌, ◌<ℤ◌, ltb_ℤ, ltb_ℤ-lt, ltb_ℤ-ge, int_laws, max_ℤ, eq_of_parts,
}
use corehost.Base.Short.{to_short, to_short-id, to_short-add, IsShort}
use corehost.Viewport.{
  Coord, Viewport, set_rect, valid_dimension, extent, size, axis_first, axis_last, placed, snapped,
  contains, Spans, IsInside, IsCoord, relative_position, absolute_position, set_origin,
  snap_to_cursor, move_origin, set_size, origin,
}
use corehost.Viewport.Bounds.{valid_dimension_bounds, axis-Spans_id}

pub extent-eq :
    (first last dimension : ℤ)
    → IsShort dimension
    → Spans first last dimension
    → extent first last ≡ last -ℤ first +ℤ pos 1
unfolding extent
extent-eq first last dimension h s =
    let m = valid_dimension_bounds dimension h in to_short-id _ (omega int_laws)

-- One side of `set_origin`, where the moved side fits.
axis_move :
    (first last dimension o : ℤ)
    → IsShort dimension
    → Spans first last dimension
    → pos 0 ≤ℤ o
    → o +ℤ (last -ℤ first) <ℤ valid_dimension dimension
    → let end = to_short (o +ℤ extent first last -ℤ pos 1) in
      (axis_first o end dimension ≡ o) × (axis_last o end dimension ≡ o +ℤ (last -ℤ first))
axis_move first last dimension o h s p q =
    let m = valid_dimension_bounds dimension h in
    let e : to_short (o +ℤ extent first last -ℤ pos 1) ≡ o +ℤ (last -ℤ first) =
      rw (extent-eq first last dimension h s) (to_short-id _ (omega int_laws) ∙ omega int_laws) in
    rw e (axis-Spans_id o (o +ℤ (last -ℤ first)) dimension h (p, omega int_laws, q))

-- Where the moved rectangle fits in the buffer, `set_origin` puts its corner exactly there and
-- keeps its size.
pub set_origin_fits :
    (v : Viewport) (o buffer_size : Coord)
    → IsCoord buffer_size
    → IsInside v buffer_size
    → pos 0 ≤ℤ o.x
    → pos 0 ≤ℤ o.y
    → o.x +ℤ (v.rect.right -ℤ v.rect.left) <ℤ valid_dimension buffer_size.x
    → o.y +ℤ (v.rect.bottom -ℤ v.rect.top) <ℤ valid_dimension buffer_size.y
    → (set_origin v o buffer_size).0 ≡ record {
      rect = record {
        left = o.x;
        top = o.y;
        right = o.x +ℤ (v.rect.right -ℤ v.rect.left);
        bottom = o.y +ℤ (v.rect.bottom -ℤ v.rect.top);
      };
    }
unfolding set_origin set_rect placed size
set_origin_fits v o b h inside px py qx qy =
    let x = axis_move v.rect.left v.rect.right b.x o.x h.0 inside.columns px qx in
    let y = axis_move v.rect.top v.rect.bottom b.y o.y h.1 inside.rows py qy in ground arith

-- Where the rectangle moved by an offset fits in the buffer, `move_origin` moves each of its sides by
-- exactly that.
pub move_origin_fits :
    (v : Viewport) (delta buffer_size : Coord)
    → IsCoord buffer_size
    → IsInside v buffer_size
    → pos 0 ≤ℤ v.rect.left +ℤ delta.x
    → pos 0 ≤ℤ v.rect.top +ℤ delta.y
    → v.rect.right +ℤ delta.x <ℤ valid_dimension buffer_size.x
    → v.rect.bottom +ℤ delta.y <ℤ valid_dimension buffer_size.y
    → (move_origin v delta buffer_size).0 ≡ record {
      rect = record {
        left = v.rect.left +ℤ delta.x;
        top = v.rect.top +ℤ delta.y;
        right = v.rect.right +ℤ delta.x;
        bottom = v.rect.bottom +ℤ delta.y;
      };
    }
unfolding move_origin
move_origin_fits v d b h inside px py qx qy =
    let m = valid_dimension_bounds b.x h.0 in
    let n = valid_dimension_bounds b.y h.1 in
    let columns = inside.columns in
    let rows = inside.rows in
    let x : to_short (v.rect.left +ℤ d.x) ≡ v.rect.left +ℤ d.x =
      to_short-id _ (omega int_laws, omega int_laws) in
    let y : to_short (v.rect.top +ℤ d.y) ≡ v.rect.top +ℤ d.y =
      to_short-id _ (omega int_laws, omega int_laws) in
    let o : Coord = record { x = v.rect.left +ℤ d.x; y = v.rect.top +ℤ d.y } in
    let right : o.x +ℤ (v.rect.right -ℤ v.rect.left) ≡ v.rect.right +ℤ d.x = omega int_laws in
    let bottom : o.y +ℤ (v.rect.bottom -ℤ v.rect.top) ≡ v.rect.bottom +ℤ d.y = omega int_laws in
    rw (x, y)
      (set_origin_fits v o b h inside px py (omega int_laws) (omega int_laws)
        ∙ ground (arith, right, bottom))

-- One side of `set_size`, where the new size fits.
axis_resize :
    (first extent dimension : ℤ)
    → IsShort dimension
    → pos 0 ≤ℤ first
    → pos 1 ≤ℤ extent
    → first +ℤ extent ≤ℤ valid_dimension dimension
    → let end = to_short (first +ℤ max_ℤ extent (pos 1) -ℤ pos 1) in
      (axis_first first end dimension ≡ first)
      × (axis_last first end dimension ≡ first +ℤ extent -ℤ pos 1)
unfolding max_ℤ
axis_resize first extent dimension h p q r =
    let m = valid_dimension_bounds dimension h in
    let least : max_ℤ extent (pos 1) ≡ extent = ground (arith, eq_of_parts extent (pos 1)) in
    let e : to_short (first +ℤ max_ℤ extent (pos 1) -ℤ pos 1) ≡ first +ℤ extent -ℤ pos 1 =
      rw least (to_short-id _ (omega int_laws, omega int_laws)) in
    rw e (
      axis-Spans_id first (first +ℤ extent -ℤ pos 1) dimension h
        (p, omega int_laws, omega int_laws))

-- Where a size of at least one column and one line fits in the buffer from the corner on, `set_size`
-- keeps the corner and gives the viewport exactly that size.
pub set_size_fits :
    (v : Viewport) (viewport_size buffer_size : Coord)
    → IsCoord buffer_size
    → pos 0 ≤ℤ v.rect.left
    → pos 0 ≤ℤ v.rect.top
    → pos 1 ≤ℤ viewport_size.x
    → pos 1 ≤ℤ viewport_size.y
    → v.rect.left +ℤ viewport_size.x ≤ℤ valid_dimension buffer_size.x
    → v.rect.top +ℤ viewport_size.y ≤ℤ valid_dimension buffer_size.y
    → (origin (set_size v viewport_size buffer_size).0 ≡ origin v)
      × (size (set_size v viewport_size buffer_size).0 ≡ viewport_size)
unfolding set_size set_rect placed size
set_size_fits v s b h left top wide high px py =
    let m = valid_dimension_bounds b.x h.0 in
    let n = valid_dimension_bounds b.y h.1 in
    let x = axis_resize v.rect.left s.x b.x h.0 left wide px in
    let y = axis_resize v.rect.top s.y b.y h.1 top high py in
    let columns : extent v.rect.left (v.rect.left +ℤ s.x -ℤ pos 1) ≡ s.x =
      extent-eq _ _ b.x h.0 (left, omega int_laws, omega int_laws) ∙ omega int_laws in
    let rows : extent v.rect.top (v.rect.top +ℤ s.y -ℤ pos 1) ≡ s.y =
      extent-eq _ _ b.y h.1 (top, omega int_laws, omega int_laws) ∙ omega int_laws in
    (ground arith, ground (arith, columns, rows))

-- One side of `snap_to_cursor`: the new first cell, and where the cursor is in the new span.
snapped_fits :
    (first last dimension cursor : ℤ)
    → IsShort dimension
    → Spans first last dimension
    → pos 0 ≤ℤ cursor
    → cursor <ℤ valid_dimension dimension
    → (pos 0 ≤ℤ snapped first last cursor)
      × (snapped first last cursor +ℤ (last -ℤ first) <ℤ valid_dimension dimension)
      × (snapped first last cursor ≤ℤ cursor)
      × (cursor ≤ℤ snapped first last cursor +ℤ (last -ℤ first))
unfolding snapped
snapped_fits first last dimension cursor h s p q =
    let m = valid_dimension_bounds dimension h in
    elim (Bool-cases (ltb_ℤ cursor first)) [
      | inl before ↦
          let r = ltb_ℤ-lt cursor first before in
          rw before (p, omega int_laws, omega int_laws, omega int_laws)
      | inr from ↦ elim (Bool-cases (ltb_ℤ last cursor)) [
        | inl after ↦
            let r = ltb_ℤ-lt last cursor after in
            let e : to_short (first +ℤ cursor -ℤ last) ≡ first +ℤ cursor -ℤ last =
              to_short-id _ (omega int_laws) in
            rw (from, after, e) (omega int_laws, omega int_laws, omega int_laws, omega int_laws)
        | inr seen ↦
            let r = ltb_ℤ-ge cursor first from in
            let t = ltb_ℤ-ge last cursor seen in
            rw (from, seen) (s.0, omega int_laws, omega int_laws, omega int_laws)
      ]
    ]

contains_of :
    (v : Viewport) (p : Coord)
    → v.rect.left ≤ℤ p.x
    → p.x ≤ℤ v.rect.right
    → v.rect.top ≤ℤ p.y
    → p.y ≤ℤ v.rect.bottom
    → contains v p ≡ true
unfolding contains
contains_of v p a b c d = ground arith

-- From a viewport inside the buffer, and for a cursor inside the buffer: `snap_to_cursor` shows
-- the cursor, keeps the size, and stays inside the buffer.
pub snap_to_cursor-contains :
    (v : Viewport) (cursor buffer_size : Coord)
    → IsCoord buffer_size
    → IsInside v buffer_size
    → pos 0 ≤ℤ cursor.x
    → pos 0 ≤ℤ cursor.y
    → cursor.x <ℤ valid_dimension buffer_size.x
    → cursor.y <ℤ valid_dimension buffer_size.y
    → let w = (snap_to_cursor v cursor buffer_size).0 in
      (contains w cursor ≡ true) × (size w ≡ size v) × IsInside w buffer_size
unfolding snap_to_cursor size extent
snap_to_cursor-contains v cursor b h inside px py qx qy =
    let x = snapped_fits v.rect.left v.rect.right b.x cursor.x h.0 inside.columns px qx in
    let y = snapped_fits v.rect.top v.rect.bottom b.y cursor.y h.1 inside.rows py qy in
    let left = snapped v.rect.left v.rect.right cursor.x in
    let top = snapped v.rect.top v.rect.bottom cursor.y in
    let o : Coord = record { x = left; y = top } in
    let same : (a c d : ℤ) → to_short (a +ℤ (c -ℤ d) -ℤ a +ℤ pos 1) ≡ to_short (c -ℤ d +ℤ pos 1) =
      λ a c d. ap to_short (omega int_laws) in
    rw (set_origin_fits v o b h inside x.0 y.0 x.1 y.1) (
      contains_of _ cursor x.2 x.3 y.2 y.3,
      ground (arith, same left v.rect.right v.rect.left, same top v.rect.bottom v.rect.top),
      record {
        columns = (x.0, omega (int_laws, inside.columns), x.1);
        rows = (y.0, omega (int_laws, inside.rows), y.1);
      },
    )

back : (a b : ℤ) → IsShort b → to_short (a +ℤ to_short (b -ℤ a)) ≡ b
back a b h = to_short-add a (b -ℤ a) ∙ ap to_short (omega int_laws) ∙ to_short-id b h

-- The two conversions undo one another for every position, also where the difference wraps.
pub absolute-relative :
    (v : Viewport) (p : Coord) → IsCoord p → absolute_position v (relative_position v p) ≡ p
unfolding absolute_position relative_position
absolute-relative v p h = ground (arith, back v.rect.left p.x h.0, back v.rect.top p.y h.1)
