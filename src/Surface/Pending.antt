-- ===== src/Surface/Pending.antt =====
-- Which pixels of a surface are still to be sent, and which have been (guacamole/src/common/surface.c).
use occamy.Base.{◌≡◌, refl, leb→le, ◌⊎◌, inl, inr, ◌||◌, not, Bool, true, false, on_branches, Any}
use occamy.Base.Int.{ℤ, pos, ◌≤ℤ◌, int_laws}
use occamy.Surface.Rect.{Rect, IsBetween, IsIn, rect_extend-IsIn, rect_constrain-IsIn}
use occamy.Surface.State.{
  Surface, BitmapRect, Call, send_png, bounds_rect, bound_rect, should_combine, is_empty,
  mark_dirty,
}
use occamy.Surface.Flush.{consider}

or_cases : (a b : Bool) → (a || b) ≡ true → (a ≡ true) ⊎ (b ≡ true)
or_cases true b h = inl refl
or_cases false b h = inr h

is_apart : (a dirty : Bool) → (a || not dirty) ≡ false → dirty ≡ false → ⊥
is_apart true dirty h clean = cc
is_apart false true h clean = cc
is_apart false false h clean = cc

thin : (first count n : ℤ) → IsBetween first count n → count ≤ℤ pos 0 → ⊥
thin first count n h flat = omega (int_laws, h.0, h.1)

module _ (px py : ℤ) where
  -- The pixel is one of the surface.
  abbrev pub IsOnSurface : Surface → Type 0
  IsOnSurface surface = IsIn px py (bounds_rect surface)

  -- The pixel is in the dirty rectangle.
  abbrev pub IsDirty : Surface → Type 0
  IsDirty surface = (surface.dirty ≡ true) × IsIn px py surface.dirty_rect

  -- The pixel is in a rectangle of the queue that is not flushed.
  abbrev pub IsQueued : BitmapRect → Type 0
  IsQueued candidate = (candidate.flushed ≡ false) × IsIn px py candidate.rect

  -- An image is sent that has the pixel.
  abbrev pub IsSentBy : Call → Type 0
  IsSentBy (send_png rect opaque) = IsIn px py rect
  IsSentBy _ = ⊥

  -- The pixel is to be sent, or has been sent.
  abbrev pub IsCovered : Surface → Type 0
  IsCovered surface =
      IsDirty surface ⊎ (Any IsQueued surface.bitmap_queue ⊎ Any IsSentBy surface.calls)

  pub not_empty : (rect : Rect) → IsIn px py rect → is_empty rect ≡ true → ⊥
  not_empty rect h e = elim (or_cases _ _ e) [
    | inl flat ↦ thin rect.x rect.width px h.0 (leb→le _ _ flat)
    | inr flat ↦ thin rect.y rect.height py h.1 (leb→le _ _ flat)
  ]

  -- What marking a rectangle as dirty leaves as it is, and the pixels that it adds.
  pub record IsMarked (surface : Surface) (rect : Rect) (marked : Surface) : Type 0 where
    pub bounds : bounds_rect marked ≡ bounds_rect surface
    pub calls : marked.calls ≡ surface.calls
    pub queue : marked.bitmap_queue ≡ surface.bitmap_queue
    pub keeps : IsDirty surface → IsDirty marked
    pub adds : IsIn px py rect → IsDirty marked

  pub mark_dirty-IsMarked :
      (rect : Rect) (surface : Surface) → IsMarked surface rect (mark_dirty rect surface)
  unfolding mark_dirty
  mark_dirty-IsMarked rect surface =
      on_branches (IsMarked surface rect) (is_empty rect) _ _
        (λ e. record {
          bounds = refl;
          calls = refl;
          queue = refl;
          keeps = λ h. h;
          adds = λ h. absurd (not_empty rect h e);
        })
        (λ _.
          on_branches (IsMarked surface rect) surface.dirty _ _
            (λ d. record {
              bounds = refl;
              calls = refl;
              queue = refl;
              keeps = λ h. (h.0, rect_extend-IsIn surface.dirty_rect rect px py (inl h.1));
              adds = λ h. (d, rect_extend-IsIn surface.dirty_rect rect px py (inr h));
            })
            (λ c. record {
              bounds = refl;
              calls = refl;
              queue = refl;
              keeps = λ h. absurd (cc);
              adds = λ h. (refl, h);
            }))

  -- What considering a candidate leaves as it is, and where the pixels of the candidate are then.
  pub record IsConsidered (surface : Surface) (candidate : BitmapRect)
      (result : Bool × Surface × BitmapRect) : Type 0 where
    pub bounds : bounds_rect result.1 ≡ bounds_rect surface
    pub calls : result.1.calls ≡ surface.calls
    pub keeps : IsDirty surface → IsDirty result.1
    pub moves : IsOnSurface surface → IsQueued candidate → IsDirty result.1 ⊎ IsQueued result.2
    pub first : surface.dirty ≡ false → result.2.flushed ≡ true

  pub consider-IsConsidered :
      (surface : Surface) (candidate : BitmapRect)
      → IsConsidered surface candidate (consider surface candidate)
  unfolding consider bound_rect
  consider-IsConsidered surface candidate =
      let rect = bound_rect surface candidate.rect in
      let inside : IsOnSurface surface → IsQueued candidate → IsIn px py rect =
        λ on q. (rect_constrain-IsIn candidate.rect (bounds_rect surface) px py).1 (q.1, on) in
      on_branches (IsConsidered surface candidate) candidate.flushed _ _
        (λ f. record {
          bounds = refl;
          calls = refl;
          keeps = λ h. h;
          moves = λ on q. absurd cc;
          first = λ _. f;
        })
        (λ _.
          on_branches (IsConsidered surface candidate) (is_empty rect) _ _
            (λ e. record {
              bounds = refl;
              calls = refl;
              keeps = λ h. h;
              moves = λ on q. absurd (not_empty rect (inside on q) e);
              first = λ _. refl;
            })
            (λ _.
              let m = mark_dirty-IsMarked rect surface in
              on_branches (IsConsidered surface candidate)
                (should_combine surface rect false || not surface.dirty) _ _
                (λ _. record {
                  bounds = m.bounds;
                  calls = m.calls;
                  keeps = m.keeps;
                  moves = λ on q. inl (m.adds (inside on q));
                  first = λ _. refl;
                })
                (λ apart. record {
                  bounds = refl;
                  calls = refl;
                  keeps = λ h. h;
                  moves = λ on q. inr (refl, inside on q);
                  first = λ clean. absurd (is_apart _ surface.dirty apart clean);
                })))
