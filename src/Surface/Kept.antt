-- ===== src/Surface/Kept.antt =====
-- A surface that is drawn on keeps track of every pixel (guacamole/src/common/surface.c).
use occamy.Base.{
  ℕ, ◌+◌, ◌≤◌, ◌≡◌, ◌≢◌, sym, ◌∙◌, subst, ◌==◌, not, true, false, on_branches, ◌⊎◌, inl, inr, List,
  [], ◌∷◌, ◌++◌, append_assoc, length, Any, Any-append_left, Permᴰ,
}
use occamy.Base.Int.{ℤ}
use occamy.Surface.Rect.{Rect, IsIn, rect_init}
use occamy.Surface.State.{
  Surface, BitmapRect, Call, send_rect, send_cfill_over, queue_size, clip_rect_to, is_empty,
  should_combine, mark_dirty,
}
use occamy.Surface.Flush.{flush_updates, flush_deferred}
use occamy.Surface.Pending.{
  IsOnSurface, IsQueued, IsSentBy, IsCovered, not_empty, mark_dirty-IsMarked,
}
use occamy.Surface.Flushed.{flush_deferred-Remains, flush_updates-Remains}
use occamy.Surface.Draw.{color_of, set_pixels, restrict, defer_set, surface_set}
use occamy.Surface.Filled.{set_pixels-IsIn}
use occamy.Surface.Colored.{set_pixels-IsColored}

module _ (qsort : (BitmapRect → BitmapRect → ℤ) → List BitmapRect → List BitmapRect)
    (permutes : (compare : BitmapRect → BitmapRect → ℤ) (queue : List BitmapRect)
      → Permᴰ queue (qsort compare queue))
    (px py : ℤ) where
  -- The last calls fill a rectangle that has the pixel with a color.
  abbrev pub IsFilled : (red green blue alpha : ℕ) → Surface → Type 0
  IsFilled red green blue alpha surface =
      (rect : Rect) × (before : List Call) × (surface.calls
        ≡ before ++ (send_rect rect ∷ send_cfill_over red green blue alpha ∷ []))
      × IsIn px py rect

  -- The pixel is to be sent, or has been, in an image or by the filling of a rectangle.
  abbrev pub IsKept : (red green blue alpha : ℕ) → Surface → Type 0
  IsKept red green blue alpha surface =
      IsCovered px py surface ⊎ IsFilled red green blue alpha surface

  marked :
      (rect : Rect) (surface : Surface)
      → IsIn px py rect ⊎ IsCovered px py surface
      → IsCovered px py (mark_dirty rect surface)
  marked rect surface h =
      let m = mark_dirty-IsMarked px py rect surface in
      elim h [
        | inl i ↦ inl (m.adds i)
        | inr c ↦ elim c [
          | inl d ↦ inl (m.keeps d)
          | inr r ↦ elim r [
            | inl q ↦ inr (inl (subst (Any (IsQueued px py)) (sym m.queue) q))
            | inr s ↦ inr (inr (subst (Any (IsSentBy px py)) (sym m.calls) s))
          ]
        ]
      ]

  defer_set-IsKept :
      (rect : Rect) (red green blue alpha : ℕ) (surface : Surface)
      → length surface.bitmap_queue + 1 ≤ queue_size
      → IsOnSurface px py surface
      → IsIn px py rect ⊎ IsCovered px py surface
      → IsKept red green blue alpha (defer_set qsort rect red green blue alpha surface)
  unfolding defer_set
  defer_set-IsKept rect red green blue alpha surface room on h =
      let IsKept' : Surface → Type 0 = IsKept red green blue alpha in
      let flushed = flush_updates qsort surface in
      let deferred = flush_deferred qsort surface in
      let fill : Call = send_cfill_over red green blue alpha in
      let still : IsIn px py rect ⊎ IsCovered px py deferred = elim h [
        | inl i ↦ inl i
        | inr c ↦ inr (inr (flush_deferred-Remains qsort permutes surface px py room on c).2)
      ] in
      let sent : IsKept' (record flushed {
        calls = (flushed.calls ++ (send_rect rect ∷ [])) ++ (fill ∷ []);
        realized = true;
      }) =
        elim h [
          | inl i ↦
              inr (
                rect,
                flushed.calls,
                append_assoc flushed.calls (send_rect rect ∷ []) (fill ∷ []),
                i,
              )
          | inr c ↦ inl (
              inr (
                inr (
                  Any-append_left (IsSentBy px py) _ (fill ∷ []) (
                    Any-append_left (IsSentBy px py) flushed.calls (send_rect rect ∷ [])
                      (flush_updates-Remains qsort permutes surface px py room on c)))))
        ] in
      on_branches IsKept' (not (alpha == 0xff)) _ _
        (λ _. inl (
          on_branches (λ t. IsCovered px py (mark_dirty rect t)) (should_combine surface rect false)
            _ _ (λ _. marked rect surface h) (λ _. marked rect deferred still)))
        (λ _.
          on_branches IsKept' (should_combine surface rect true) _ _
            (λ _. inl (marked rect surface h)) (λ _. sent))

  -- Where the queue has room for one rectangle more, and the sort only reorders, filling a rectangle
  -- keeps track of every pixel of the surface: one that is in the clipped rectangle and had another
  -- color, or that was to be sent or had been, is then in the dirty rectangle or the queue, or it has
  -- been sent in an image, or the last instructions fill a rectangle that has it with the color.
  pub surface_set-IsKept :
      (x y w h : ℤ) (red green blue alpha : ℕ) (surface : Surface)
      → length surface.bitmap_queue + 1 ≤ queue_size
      → IsOnSurface px py surface
      → (IsIn px py (clip_rect_to surface (rect_init x y w h))
          × (surface.buffer px py ≢ color_of red green blue alpha))
        ⊎ IsCovered px py surface
      → IsKept red green blue alpha (surface_set qsort x y w h red green blue alpha surface)
  unfolding surface_set
  surface_set-IsKept x y w h red green blue alpha surface room on pending =
      let rect = clip_rect_to surface (rect_init x y w h) in
      let color = color_of red green blue alpha in
      let updated = set_pixels rect color surface.buffer in
      let changed = restrict rect color updated in
      let painted : Surface = record surface { buffer = updated.buffer } in
      let IsKept' : Surface → Type 0 = IsKept red green blue alpha in
      let moved : IsIn px py changed ⊎ IsCovered px py surface = elim pending [
        | inl new ↦ inl (
            set_pixels-IsIn rect color surface.buffer px py (λ same.
              new.1 (sym same ∙ set_pixels-IsColored rect color px py surface.buffer new.0)))
        | inr c ↦ inr c
      ] in
      on_branches IsKept' (is_empty rect) _ _
        (λ e. elim pending [ inl new ↦ absurd (not_empty px py rect new.0 e) | inr c ↦ inl c ])
        (λ _.
          on_branches IsKept' (is_empty changed) _ _
            (λ e. elim moved [ inl i ↦ absurd (not_empty px py changed i e) | inr c ↦ inl c ])
            (λ _. defer_set-IsKept changed red green blue alpha painted room on moved))
