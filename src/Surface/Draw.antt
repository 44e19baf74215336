-- ===== src/Surface/Draw.antt =====
-- guacamole/src/common/surface.c: the filling of a rectangle with a color.
use occamy.Base.{
  ℕ, zero, suc, ◌*◌, ◌%◌, ◌^◌, ◌==◌, ◌&&◌, not, true, false, if◌then◌else◌, bit_or, List,
}
use occamy.Base.Int.{ℤ, pos, ◌+ℤ◌, ◌-ℤ◌, ltb_ℤ, leb_ℤ, equal_ℤ}
use occamy.Surface.Rect.{Rect, rect_init}
use occamy.Surface.State.{
  Surface, BitmapRect, send_rect, send_cfill_over, call, clip_rect_to, is_empty, should_combine,
  mark_dirty,
}
use occamy.Surface.Flush.{count, flush_updates, flush_deferred}

abbrev pub store : (ℤ → ℤ → ℕ) → ℤ → ℤ → ℕ → ℤ → ℤ → ℕ
store buffer px py color qx qy = if equal_ℤ qx px && equal_ℤ qy py then color else buffer qx qy

-- The local variables of `__guac_common_surface_set`, with the buffer.
pub record Updated : Type 0 where
  pub buffer : ℤ → ℤ → ℕ
  pub min_x : ℤ
  pub min_y : ℤ
  pub max_x : ℤ
  pub max_y : ℤ

module _ (rect : Rect) (color : ℕ) where
  -- One pixel of the loops.
  unfoldable pub set_pixel : ℤ → ℤ → Updated → Updated
  set_pixel x y updated =
      if updated.buffer (rect.x +ℤ x) (rect.y +ℤ y) == color then updated else record {
        buffer = store updated.buffer (rect.x +ℤ x) (rect.y +ℤ y) color;
        min_x = if ltb_ℤ x updated.min_x then x else updated.min_x;
        min_y = if ltb_ℤ y updated.min_y then y else updated.min_y;
        max_x = if ltb_ℤ updated.max_x x then x else updated.max_x;
        max_y = if ltb_ℤ updated.max_y y then y else updated.max_y;
      }

  -- The loop over so many columns.
  unfoldable pub set_row : ℕ → ℤ → ℤ → Updated → Updated
  set_row zero x y updated = updated
  set_row (suc n) x y updated = set_row n (x +ℤ pos 1) y (set_pixel x y updated)

  -- The loop over so many rows.
  unfoldable pub set_rows : ℕ → ℤ → Updated → Updated
  set_rows zero y updated = updated
  set_rows (suc n) y updated =
      set_rows n (y +ℤ pos 1) (set_row (count rect.width) (pos 0) y updated)

  -- The rectangle restricted to the updated pixels.
  unfoldable pub restrict : Updated → Rect
  restrict updated =
      if leb_ℤ updated.min_x updated.max_x && leb_ℤ updated.min_y updated.max_y
      then rect_init (rect.x +ℤ updated.min_x) (rect.y +ℤ updated.min_y)
          (updated.max_x -ℤ updated.min_x +ℤ pos 1) (updated.max_y -ℤ updated.min_y +ℤ pos 1)
      else rect_init rect.x rect.y (pos 0) (pos 0)

  -- `__guac_common_surface_set`: the loops, from a buffer.
  unfoldable pub set_pixels : (ℤ → ℤ → ℕ) → Updated
  set_pixels buffer = set_rows (count rect.height) (pos 0) (record {
    buffer = buffer;
    min_x = rect.width -ℤ pos 1;
    min_y = rect.height -ℤ pos 1;
    max_x = pos 0;
    max_y = pos 0;
  })

-- The color of `__guac_common_surface_set`, in 32 bits.
abbrev pub color_of : (red green blue alpha : ℕ) → ℕ
color_of red green blue alpha =
    bit_or
      (bit_or (bit_or (alpha * 2 ^ 24 % 2 ^ 32) (red * 2 ^ 16 % 2 ^ 32)) (green * 2 ^ 8 % 2 ^ 32))
      blue

module _ (qsort : (BitmapRect → BitmapRect → ℤ) → List BitmapRect → List BitmapRect) where
  -- What `guac_common_surface_set` does once the backing surface is updated.
  unfoldable pub defer_set : Rect → (red green blue alpha : ℕ) → Surface → Surface
  defer_set rect red green blue alpha surface =
      if not (alpha == 0xff)
      then mark_dirty rect
          (if should_combine surface rect false then surface else flush_deferred qsort surface)
      else if should_combine surface rect true
      then mark_dirty rect surface
      else record (call (send_cfill_over red green blue alpha)
          (call (send_rect rect) (flush_updates qsort surface))) { realized = true }

  -- `guac_common_surface_set`
  unfoldable pub surface_set : (x y w h : ℤ) → (red green blue alpha : ℕ) → Surface → Surface
  surface_set x y w h red green blue alpha surface =
      let rect = clip_rect_to surface (rect_init x y w h) in
      let color = color_of red green blue alpha in
      let updated = set_pixels rect color surface.buffer in
      let set = record surface { buffer = updated.buffer } in
      let changed = restrict rect color updated in
      if is_empty rect
      then surface
      else if is_empty changed
      then set
      else defer_set changed red green blue alpha set
