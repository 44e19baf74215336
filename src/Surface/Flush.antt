-- ===== src/Surface/Flush.antt =====
-- guacamole/src/common/surface.c: the flushing of a surface. The C library's `qsort` is a parameter.
use occamy.Base.{
  ℕ, zero, suc, ◌+◌, ◌-◌, ◌==◌, ltb, ◌&&◌, ◌||◌, not, Bool, true, false, if◌then◌else◌, bit_and,
  List, [], ◌∷◌, length, drop,
}
use occamy.Base.Int.{ℤ, pos, negsuc, ◌+ℤ◌, ◌-ℤ◌, equal_ℤ}
use occamy.Surface.Rect.{Rect}
use occamy.Surface.State.{
  Surface, BitmapRect, send_png, send_rect, send_cfill_rout, call, queue_size, bound_rect,
  should_combine, is_empty, mark_dirty, flush_to_queue, flush_properties,
}

-- The loop over so many columns of `__guac_common_surface_is_opaque`.
unfoldable pub is_row_opaque : (ℤ → ℤ → ℕ) → ℕ → ℤ → ℤ → Bool
is_row_opaque buffer zero px py = true
is_row_opaque buffer (suc n) px py =
    let rest = is_row_opaque buffer n (px +ℤ pos 1) py in
    bit_and (buffer px py) 0xff000000 == 0xff000000 && rest

-- The loop over so many rows.
unfoldable pub are_rows_opaque : (ℤ → ℤ → ℕ) → ℕ → ℕ → ℤ → ℤ → Bool
are_rows_opaque buffer columns zero px py = true
are_rows_opaque buffer columns (suc n) px py =
    let rest = are_rows_opaque buffer columns n px (py +ℤ pos 1) in
    is_row_opaque buffer columns px py && rest

abbrev pub count : ℤ → ℕ
count (pos n) = n
count (negsuc n) = 0

-- `__guac_common_surface_is_opaque`
unfoldable pub is_opaque : Surface → Rect → Bool
is_opaque surface rect =
    are_rows_opaque surface.buffer (count rect.width) (count rect.height) rect.x rect.y

-- `__guac_common_surface_flush_to_png`
unfoldable pub flush_to_png : Bool → Surface → Surface
flush_to_png opaque surface =
    let cleared =
      if opaque
      then surface
      else call send_cfill_rout (call (send_rect surface.dirty_rect) surface) in
    if surface.dirty
    then record (call (send_png surface.dirty_rect opaque) cleared) {
      realized = true;
      dirty = false;
    }
    else surface

-- `__guac_common_surface_bitmap_rect_compare`
unfoldable pub bitmap_rect_compare : BitmapRect → BitmapRect → ℤ
bitmap_rect_compare a b =
    let ra = a.rect in
    let rb = b.rect in
    if not (equal_ℤ ra.y rb.y)
    then ra.y -ℤ rb.y
    else if not (equal_ℤ ra.x rb.x)
    then ra.x -ℤ rb.x
    else if not (equal_ℤ ra.width rb.width)
    then rb.width -ℤ ra.width
    else ra.height -ℤ rb.height

-- One candidate of the inner loop of `__guac_common_surface_flush`: whether it is combined, the surface,
-- and the candidate.
unfoldable pub consider : Surface → BitmapRect → Bool × Surface × BitmapRect
consider surface candidate =
    let rect = bound_rect surface candidate.rect in
    if candidate.flushed
    then (false, surface, candidate)
    else if is_empty rect
    then (false, surface, record { flushed = true; rect = rect })
    else if should_combine surface rect false || not surface.dirty
    then (true, mark_dirty rect surface, record { flushed = true; rect = rect })
    else (false, surface, record { flushed = false; rect = rect })

-- The inner loop over the candidates: how many are combined, the surface, and the candidates.
unfoldable pub build_up : Surface → List BitmapRect → ℕ × Surface × List BitmapRect
build_up surface [] = (0, surface, [])
build_up surface (candidate ∷ candidates) =
    let (is_combined, surface', candidate') = consider surface candidate in
    let (combined, surface'', candidates') = build_up surface' candidates in
    ((if is_combined then combined + 1 else combined), surface'', candidate' ∷ candidates')

-- What a round of the outer loop does for its first candidate, at an index of the queue.
unfoldable pub flush_candidate : ℕ → ℕ → Surface → Surface
flush_candidate i original_queue_length surface =
    let (combined, built, bitmap_queue) = build_up surface surface.bitmap_queue in
    let queued = record built { bitmap_queue = bitmap_queue } in
    if (ltb 1 combined || ltb i original_queue_length) && ltb (i + length bitmap_queue) queue_size
    then flush_to_queue queued
    else flush_to_png (is_opaque queued queued.dirty_rect) queued

-- The outer loop from an index on; the queue of the surface is the part from there on. There are at
-- most 256 rounds, one for each place of the queue.
unfoldable pub flush_loop : ℕ → ℕ → ℕ → Surface → Surface
flush_loop zero i original_queue_length surface = surface
flush_loop (suc fuel) i original_queue_length surface = elim surface.bitmap_queue [
  | [] ↦ surface
  | candidate ∷ candidates ↦
      let flushed =
        if candidate.flushed then surface else flush_candidate i original_queue_length surface in
      flush_loop fuel (i + 1) original_queue_length
        (record flushed { bitmap_queue = drop 1 flushed.bitmap_queue })
]

module _ (qsort : (BitmapRect → BitmapRect → ℤ) → List BitmapRect → List BitmapRect) where
  -- `__guac_common_surface_flush`
  unfoldable pub flush_updates : Surface → Surface
  flush_updates surface =
      let queued = flush_to_queue surface in
      let sorted = record queued { bitmap_queue = qsort bitmap_rect_compare queued.bitmap_queue } in
      record (flush_loop queue_size 0 (length queued.bitmap_queue) sorted) { bitmap_queue = [] }

  -- `guac_common_surface_flush`
  unfoldable pub flush : Surface → Surface
  flush surface = flush_updates (flush_properties surface)

  -- `__guac_common_surface_flush_deferred`
  unfoldable pub flush_deferred : Surface → Surface
  flush_deferred surface =
      let emptied =
        if length surface.bitmap_queue == queue_size - 1 then flush_updates surface else surface in
      if surface.dirty then flush_to_queue emptied else surface
