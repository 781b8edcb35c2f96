-- ===== src/Viewport.antt =====
-- libcorehost/console_viewport.hpp: the window rectangle of a screen buffer, in buffer coordinates.
-- A `SHORT` is a ℤ that every store wraps by `to_short`; `int` sums stay far from its limits.
pub mod Bounds
pub mod Move
pub mod Wrap
pub mod Reset
mod Tests
use corehost.Base.{Bool, ◌&&◌, ◌||◌, not, ◌≡◌, if◌then◌else◌}
use corehost.Base.Int.{ℤ, pos, ◌+ℤ◌, ◌-ℤ◌, ◌≤ℤ◌, ◌<ℤ◌, leb_ℤ, ltb_ℤ, eqb_ℤ, max_ℤ, clamp_ℤ}
use corehost.Base.Short.{to_short, IsShort}

-- COORD and SMALL_RECT of the Windows headers.
pub record Coord : Type 0 where
  pub x : ℤ
  pub y : ℤ

pub record SmallRect : Type 0 where
  pub left : ℤ
  pub top : ℤ
  pub right : ℤ
  pub bottom : ℤ

-- The class has one field, `_rect`.
pub record Viewport : Type 0 where
  pub rect : SmallRect

unfoldable pub valid_dimension : ℤ → ℤ
valid_dimension value = max_ℤ value (pos 1)

pub clamped_dimension : ℤ → ℤ → ℤ
clamped_dimension value maximum = to_short (clamp_ℤ value (pos 1) maximum)

abbrev pub origin : Viewport → Coord
origin v = record { x = v.rect.left; y = v.rect.top }

unfoldable pub extent : ℤ → ℤ → ℤ
extent first last = to_short (last -ℤ first +ℤ pos 1)

pub size : Viewport → Coord
unfolding extent
size v = record { x = extent v.rect.left v.rect.right; y = extent v.rect.top v.rect.bottom }

pub covers : Viewport → Coord → Bool
covers v buffer_size =
    eqb_ℤ v.rect.left (pos 0)
    && eqb_ℤ v.rect.top (pos 0)
    && eqb_ℤ v.rect.right (valid_dimension buffer_size.x -ℤ pos 1)
    && eqb_ℤ v.rect.bottom (valid_dimension buffer_size.y -ℤ pos 1)

pub contains : Viewport → Coord → Bool
contains v p =
    leb_ℤ v.rect.left p.x
    && leb_ℤ p.x v.rect.right
    && leb_ℤ v.rect.top p.y
    && leb_ℤ p.y v.rect.bottom

pub relative_position : Viewport → Coord → Coord
relative_position v p = record {
  x = to_short (p.x -ℤ v.rect.left);
  y = to_short (p.y -ℤ v.rect.top);
}

pub absolute_position : Viewport → Coord → Coord
absolute_position v p = record {
  x = to_short (v.rect.left +ℤ p.x);
  y = to_short (v.rect.top +ℤ p.y);
}

pub clamped_relative_position : Viewport → Coord → Coord
clamped_relative_position v p =
    let terminal = relative_position v p in
    let viewport_size = size v in
    record {
      x = clamp_ℤ terminal.x (pos 0) (to_short (viewport_size.x -ℤ pos 1));
      y = clamp_ℤ terminal.y (pos 0) (to_short (viewport_size.y -ℤ pos 1));
    }

-- The first and the last cell of one side after `set_rect`; the code does both sides the same way.
pub axis_first : ℤ → ℤ → ℤ → ℤ
axis_first first last dimension =
    let maximum = valid_dimension dimension in
    let extent = clamped_dimension (last -ℤ first +ℤ pos 1) maximum in
    clamp_ℤ first (pos 0) (to_short (maximum -ℤ extent))

pub axis_last : ℤ → ℤ → ℤ → ℤ
axis_last first last dimension =
    let extent = clamped_dimension (last -ℤ first +ℤ pos 1) (valid_dimension dimension) in
    to_short (axis_first first last dimension +ℤ extent -ℤ pos 1)

pub same_rect : SmallRect → SmallRect → Bool
same_rect a b =
    eqb_ℤ a.left b.left && eqb_ℤ a.top b.top && eqb_ℤ a.right b.right && eqb_ℤ a.bottom b.bottom

pub placed : SmallRect → Coord → SmallRect
placed rect buffer_size = record {
  left = axis_first rect.left rect.right buffer_size.x;
  top = axis_first rect.top rect.bottom buffer_size.y;
  right = axis_last rect.left rect.right buffer_size.x;
  bottom = axis_last rect.top rect.bottom buffer_size.y;
}

-- The result tells whether the rectangle changed.
pub set_rect : Viewport → SmallRect → Coord → Viewport × Bool
set_rect v rect buffer_size =
    let next = placed rect buffer_size in (record { rect = next }, not (same_rect v.rect next))

pub set_size : Viewport → Coord → Coord → Viewport × Bool
set_size v viewport_size buffer_size =
    set_rect v
      (record v.rect {
        right = to_short (v.rect.left +ℤ max_ℤ viewport_size.x (pos 1) -ℤ pos 1);
        bottom = to_short (v.rect.top +ℤ max_ℤ viewport_size.y (pos 1) -ℤ pos 1);
      })
      buffer_size

pub set_origin : Viewport → Coord → Coord → Viewport × Bool
set_origin v o buffer_size =
    let viewport_size = size v in
    set_rect v
      (record {
        left = o.x;
        top = o.y;
        right = to_short (o.x +ℤ viewport_size.x -ℤ pos 1);
        bottom = to_short (o.y +ℤ viewport_size.y -ℤ pos 1);
      })
      buffer_size

pub move_origin : Viewport → Coord → Coord → Viewport × Bool
move_origin v delta buffer_size =
    set_origin v
      (record { x = to_short (v.rect.left +ℤ delta.x); y = to_short (v.rect.top +ℤ delta.y) })
      buffer_size

pub clamp_to_buffer : Viewport → Coord → Viewport × Bool
clamp_to_buffer v buffer_size = set_rect v v.rect buffer_size

-- The origin of one side that brings the cursor's cell into first .. last.
pub snapped : ℤ → ℤ → ℤ → ℤ
snapped first last cursor =
    if ltb_ℤ cursor first
    then cursor
    else if ltb_ℤ last cursor
    then to_short (first +ℤ cursor -ℤ last)
    else first

pub snap_to_cursor : Viewport → Coord → Coord → Viewport × Bool
unfolding snapped
snap_to_cursor v cursor buffer_size =
    set_origin v
      (record {
        x = snapped v.rect.left v.rect.right cursor.x;
        y = snapped v.rect.top v.rect.bottom cursor.y;
      })
      buffer_size

pub reset_to_buffer : Coord → Viewport
reset_to_buffer buffer_size = record {
  rect = record {
    left = pos 0;
    top = pos 0;
    right = to_short (valid_dimension buffer_size.x -ℤ pos 1);
    bottom = to_short (valid_dimension buffer_size.y -ℤ pos 1);
  };
}

-- 0 ≤ first ≤ last < max(dimension, 1).
abbrev pub Spans : ℤ → ℤ → ℤ → Type 0
Spans first last dimension =
    (pos 0 ≤ℤ first) × (first ≤ℤ last) × (last <ℤ valid_dimension dimension)

-- The rectangle is not empty and lies inside a buffer of this size.
pub record IsInside (v : Viewport) (buffer_size : Coord) : Type 0 where
  pub columns : Spans v.rect.left v.rect.right buffer_size.x
  pub rows : Spans v.rect.top v.rect.bottom buffer_size.y

abbrev pub IsCoord : Coord → Type 0
IsCoord c = IsShort c.x × IsShort c.y
