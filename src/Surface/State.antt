-- ===== src/Surface/State.antt =====
-- guacamole/src/common/surface.c: the state of a surface, and how updates of it are collected. A pixel
-- of the buffer is a number of 32 bits, by its coordinates.
use occamy.Base.{ℕ, ◌&&◌, ◌||◌, Bool, true, false, if◌then◌else◌, List, [], ◌∷◌, ◌++◌}
use occamy.Base.Int.{ℤ, pos, ◌+ℤ◌, ◌-ℤ◌, ◌*ℤ◌, div_ℤ, leb_ℤ, equal_ℤ}
use occamy.Surface.Rect.{Rect, rect_init, rect_extend, rect_constrain}

-- `guac_common_surface_bitmap_rect`
pub record BitmapRect : Type 0 where
  pub flushed : Bool
  pub rect : Rect

-- The instructions that a surface sends for its layer, and the image of a rectangle, with whether it is
-- sent as an opaque one.
pub data Call : Type 0 where
  send_size : (w h : ℤ) → Call
  send_shade : (opacity : ℤ) → Call
  send_move : (parent x y z : ℤ) → Call
  send_rect : (rect : Rect) → Call
  send_cfill_rout : Call
  send_cfill_over : (red green blue alpha : ℕ) → Call
  send_png : (rect : Rect) → (opaque : Bool) → Call
  send_dispose : Call

-- `guac_common_surface`; `layer` and `parent` are the indices of layers.
pub record Surface : Type 0 where
  pub layer : ℤ
  pub x : ℤ
  pub y : ℤ
  pub z : ℤ
  pub opacity : ℤ
  pub parent : ℤ
  pub width : ℤ
  pub height : ℤ
  pub buffer : ℤ → ℤ → ℕ
  pub location_dirty : Bool
  pub opacity_dirty : Bool
  pub dirty : Bool
  pub dirty_rect : Rect
  pub realized : Bool
  pub clipped : Bool
  pub clip_rect : Rect
  pub bitmap_queue : List BitmapRect
  pub calls : List Call

-- `GUAC_COMMON_SURFACE_QUEUE_SIZE`
abbrev pub queue_size : ℕ
queue_size = 256

abbrev pub call : Call → Surface → Surface
call c surface = record surface { calls = surface.calls ++ (c ∷ []) }

-- `guac_common_surface_move`
unfoldable pub move : ℤ → ℤ → Surface → Surface
move x y surface = record surface { x = x; y = y; location_dirty = true }

-- `guac_common_surface_stack`
unfoldable pub stack : ℤ → Surface → Surface
stack z surface = record surface { z = z; location_dirty = true }

-- `guac_common_surface_set_parent`
unfoldable pub set_parent : ℤ → Surface → Surface
set_parent parent surface = record surface { parent = parent; location_dirty = true }

-- `guac_common_surface_set_opacity`
unfoldable pub set_opacity : ℤ → Surface → Surface
set_opacity opacity surface = record surface { opacity = opacity; opacity_dirty = true }

abbrev pub bounds_rect : Surface → Rect
bounds_rect surface = rect_init (pos 0) (pos 0) surface.width surface.height

-- `__guac_common_bound_rect`; the source moves by as much as the corner of the rectangle.
unfoldable pub bound_rect : Surface → Rect → Rect
bound_rect surface rect = rect_constrain rect (bounds_rect surface)

-- `__guac_common_clip_rect`
unfoldable pub clip_rect_to : Surface → Rect → Rect
clip_rect_to surface rect =
    if surface.clipped then rect_constrain rect surface.clip_rect else bound_rect surface rect

abbrev pub area : Rect → ℤ
area rect = rect.width *ℤ rect.height

-- `__guac_common_should_combine`
unfoldable pub should_combine : Surface → Rect → Bool → Bool
should_combine surface rect rect_only =
    let combined = rect_extend surface.dirty_rect rect in
    let combined_cost = pos 4096 +ℤ area combined in
    let dirty_cost = pos 4096 +ℤ area surface.dirty_rect in
    let whole_cost = pos 4096 +ℤ area rect in
    let update_cost = if rect_only then div_ℤ whole_cost 16 else whole_cost in
    let below =
      equal_ℤ rect.x surface.dirty_rect.x
      && equal_ℤ rect.y (surface.dirty_rect.y +ℤ surface.dirty_rect.height) in
    surface.dirty
    && ((leb_ℤ combined.width (pos 64) && leb_ℤ combined.height (pos 64))
        || leb_ℤ combined_cost (update_cost +ℤ dirty_cost)
        || leb_ℤ (combined_cost -ℤ dirty_cost) (div_ℤ dirty_cost 4)
        || leb_ℤ (combined_cost -ℤ update_cost) (div_ℤ update_cost 4)
        || (below && leb_ℤ combined_cost ((dirty_cost +ℤ update_cost) *ℤ pos 3)))

-- A rectangle that has no pixels.
abbrev pub is_empty : Rect → Bool
is_empty rect = leb_ℤ rect.width (pos 0) || leb_ℤ rect.height (pos 0)

-- `__guac_common_mark_dirty`
unfoldable pub mark_dirty : Rect → Surface → Surface
mark_dirty rect surface =
    if is_empty rect
    then surface
    else if surface.dirty
    then record surface { dirty_rect = rect_extend surface.dirty_rect rect }
    else record surface { dirty_rect = rect; dirty = true }

-- `__guac_common_surface_flush_to_queue`
unfoldable pub flush_to_queue : Surface → Surface
flush_to_queue surface =
    if surface.dirty
    then record surface {
      bitmap_queue =
          surface.bitmap_queue ++ (record { flushed = false; rect = surface.dirty_rect } ∷ []);
      dirty = false;
    }
    else surface

-- `__guac_common_surface_flush_properties`
unfoldable pub flush_properties : Surface → Surface
flush_properties surface =
    let shaded =
      if surface.opacity_dirty
      then record (call (send_shade surface.opacity) surface) { opacity_dirty = false }
      else surface in
    let moved =
      if shaded.location_dirty
      then record (call (send_move shaded.parent shaded.x shaded.y shaded.z) shaded) {
        location_dirty = false;
      }
      else shaded in
    if leb_ℤ surface.layer (pos 0) then surface else moved

-- `guac_common_surface_clip`
unfoldable pub clip : ℤ → ℤ → ℤ → ℤ → Surface → Surface
clip x y w h surface = record surface {
  clip_rect =
      rect_constrain (if surface.clipped then surface.clip_rect else bounds_rect surface)
        (rect_init x y w h);
  clipped = true;
}

-- `guac_common_surface_reset_clip`
unfoldable pub reset_clip : Surface → Surface
reset_clip surface = record surface { clipped = false }

-- `guac_common_surface_alloc`; the heat map is left out.
unfoldable pub alloc : ℤ → ℤ → ℤ → Surface
alloc layer w h =
    let surface : Surface = record {
      layer = layer;
      x = pos 0;
      y = pos 0;
      z = pos 0;
      opacity = pos 0xff;
      parent = pos 0;
      width = w;
      height = h;
      buffer = λ px py. 0;
      location_dirty = false;
      opacity_dirty = false;
      dirty = false;
      dirty_rect = rect_init (pos 0) (pos 0) (pos 0) (pos 0);
      realized = false;
      clipped = false;
      clip_rect = rect_init (pos 0) (pos 0) (pos 0) (pos 0);
      bitmap_queue = [];
      calls = [];
    } in
    if leb_ℤ (pos 0) layer
    then record (call (send_size w h) (reset_clip surface)) { realized = true }
    else reset_clip surface

-- `guac_common_surface_free`
unfoldable pub free : Surface → Surface
free surface = if surface.realized then call send_dispose surface else surface
