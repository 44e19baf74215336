-- ===== src/Surface/Flushed.antt =====
-- A flush sends every pixel that is to be sent (guacamole/src/common/surface.c).
use occamy.Base.{
  ℕ, zero, suc, ◌+◌, ◌-◌, ◌≤◌, ◌≡◌, refl, sym, ap, ◌∙◌, subst, arith, false, if◌then◌else◌, ◌==◌,
  on_branches, ◌⊎◌, inl, inr, List, [], ◌∷◌, length, length-drop, drop, Any, Any-permute,
  length-permute, Permᴰ,
}
use occamy.Base.Int.{ℤ}
use occamy.Surface.Rect.{IsIn}
use occamy.Surface.State.{Surface, BitmapRect, bounds_rect, flush_to_queue, queue_size}
use occamy.Surface.Flush.{
  flush_candidate, flush_loop, flush_updates, flush_deferred, bitmap_rect_compare,
}
use occamy.Surface.Pending.{IsOnSurface, IsDirty, IsQueued, IsSentBy, IsCovered}
use occamy.Surface.Rounds.{IsHeadFlushed, Remains, drop_head, flush_to_queue-IsEmptied}
use occamy.Surface.Sent.{IsRound, flush_candidate-IsRound}

-- What holds behind a match on a list, with the match.
on_list :
    {A B : Type 0} (P : B → Type 0) (xs : List A) (x : B) (f : A → List A → B)
    → (xs ≡ [] → P x)
    → ((y : A) (ys : List A) → xs ≡ y ∷ ys → P (f y ys))
    → P (elim xs as (λ _. B) [ [] ↦ x | y ∷ ys ↦ f y ys ])
on_list P [] x f h k = h refl
on_list P (y ∷ ys) x f h k = k y ys refl

differ : (a b : ℕ) → (a == b) ≡ false → ¬ (a ≡ b)
differ a b h = ground arith

module _ (px py : ℤ) where
  -- What a whole flush leaves.
  pub record IsFlushed (surface flushed : Surface) : Type 0 where
    pub bounds : bounds_rect flushed ≡ bounds_rect surface
    pub clean : flushed.dirty ≡ false
    pub empty : flushed.bitmap_queue ≡ []
    pub sends :
        IsOnSurface px py surface → Remains px py surface → Any (IsSentBy px py) flushed.calls

  none_left :
      (surface : Surface)
      → surface.bitmap_queue ≡ []
      → surface.dirty ≡ false
      → IsFlushed surface surface
  none_left surface none_queued clean =
      let sends : IsOnSurface px py surface
          → Remains px py surface
          → Any (IsSentBy px py) surface.calls =
        λ on r. elim r [
          | inl q ↦ absurd (subst (Any (IsQueued px py)) none_queued q)
          | inr s ↦ s
        ] in
      record { bounds = refl; clean = clean; empty = none_queued; sends = sends }

  is_empty_list : (queue : List BitmapRect) → length queue ≤ 0 → queue ≡ []
  is_empty_list [] h = refl
  is_empty_list (candidate ∷ queue) h = absurd (omega arith)

  -- A round, for a first candidate that may be flushed already.
  first-IsRound :
      (i original : ℕ) (surface : Surface) (candidate : BitmapRect) (candidates : List BitmapRect)
      → surface.dirty ≡ false
      → i + length surface.bitmap_queue ≤ queue_size
      → surface.bitmap_queue ≡ candidate ∷ candidates
      → IsRound px py surface i
          (if candidate.flushed then surface else flush_candidate i original surface)
  first-IsRound i original surface candidate candidates clean room e =
      on_branches (IsRound px py surface i) candidate.flushed _ _
        (λ f.
          let headed : IsHeadFlushed surface.bitmap_queue = subst IsHeadFlushed (sym e) f in
          let remains : IsOnSurface px py surface
              → Remains px py surface
              → Any (IsQueued px py) (drop 1 surface.bitmap_queue)
                ⊎ Any (IsSentBy px py) surface.calls =
            λ on r. elim r [
              | inl q ↦ inl (drop_head px py surface.bitmap_queue headed q)
              | inr s ↦ inr s
            ] in
          record { bounds = refl; clean = clean; remains = remains; room = room })
        (λ _.
          let size : length surface.bitmap_queue ≡ suc (length candidates) = ap length e in
          flush_candidate-IsRound px py i original surface clean (omega (arith, size)) room)

  flush_loop-IsFlushed :
      (fuel i original : ℕ) (surface : Surface)
      → surface.dirty ≡ false
      → i + length surface.bitmap_queue ≤ queue_size
      → queue_size ≤ i + fuel
      → IsFlushed surface (flush_loop fuel i original surface)
  unfolding flush_loop
  flush_loop-IsFlushed zero i original surface clean room enough =
      none_left surface (is_empty_list surface.bitmap_queue (omega arith)) clean
  flush_loop-IsFlushed (suc fuel) i original surface clean room enough =
      on_list (IsFlushed surface) surface.bitmap_queue _ _ (λ e. none_left surface e clean)
        (λ candidate candidates e.
          let r = first-IsRound i original surface candidate candidates clean room e in
          let size : length surface.bitmap_queue ≡ suc (length candidates) = ap length e in
          let after = if candidate.flushed then surface else flush_candidate i original surface in
          let next : Surface = record after { bitmap_queue = drop 1 after.bitmap_queue } in
          let f =
            flush_loop-IsFlushed fuel (i + 1) original next r.clean
              (omega (arith, r.room, size, room, length-drop 1 after.bitmap_queue))
              (omega (arith, enough)) in
          record {
            bounds = f.bounds ∙ r.bounds;
            clean = f.clean;
            empty = f.empty;
            sends = λ on rest.
                f.sends (subst (λ b. IsIn px py b) (sym r.bounds) on) (r.remains on rest);
          })

module _ (qsort : (BitmapRect → BitmapRect → ℤ) → List BitmapRect → List BitmapRect)
    (permutes : (compare : BitmapRect → BitmapRect → ℤ) (queue : List BitmapRect)
      → Permᴰ queue (qsort compare queue)) where
  updates-IsFlushed :
      (surface : Surface) (px py : ℤ)
      → length surface.bitmap_queue + 1 ≤ queue_size
      → IsFlushed px py (flush_to_queue surface) (flush_updates qsort surface)
  unfolding flush_updates
  updates-IsFlushed surface px py room =
      let queued = flush_to_queue surface in
      let e = flush_to_queue-IsEmptied px py surface in
      let p = permutes bitmap_rect_compare queued.bitmap_queue in
      let sorted : Surface = record queued {
        bitmap_queue = qsort bitmap_rect_compare queued.bitmap_queue;
      } in
      let f =
        flush_loop-IsFlushed px py queue_size 0 (length queued.bitmap_queue) sorted e.clean
          (omega (arith, e.size, room, length-permute _ _ p)) (omega arith) in
      let sorted_remains : Remains px py queued → Remains px py sorted =
        λ r. elim r [ inl q ↦ inl (Any-permute (IsQueued px py) _ _ p q) | inr s ↦ inr s ] in
      record {
        bounds = f.bounds;
        clean = f.clean;
        empty = refl;
        sends = λ on r. f.sends on (sorted_remains r);
      }

  -- Where the queue has room for one rectangle more, and the sort only reorders, a flush leaves neither
  -- a dirty rectangle nor a queue, and every pixel of the surface that was in the dirty rectangle or in
  -- a rectangle of the queue that was not flushed is in an image that the flush sends.
  pub flush_updates-sends :
      (surface : Surface) (px py : ℤ)
      → length surface.bitmap_queue + 1 ≤ queue_size
      → IsOnSurface px py surface
      → IsDirty px py surface ⊎ Any (IsQueued px py) surface.bitmap_queue
      → let flushed = flush_updates qsort (record surface { calls = [] }) in
        (flushed.dirty ≡ false) × (flushed.bitmap_queue ≡ []) × Any (IsSentBy px py) flushed.calls
  flush_updates-sends surface px py room on pending =
      let silent : Surface = record surface { calls = [] } in
      let e = flush_to_queue-IsEmptied px py silent in
      let f = updates-IsFlushed silent px py room in
      let covered : IsCovered px py silent = elim pending [ inl d ↦ inl d | inr q ↦ inr (inl q) ] in
      (f.clean, f.empty, f.sends (subst (λ b. IsIn px py b) (sym e.bounds) on) (e.covers covered))

  -- A deferred flush leaves no dirty rectangle and still room for one rectangle more in the queue, and
  -- a pixel of the surface that was to be sent, or had been, is in the queue or has been sent.
  pub flush_deferred-Remains :
      (surface : Surface) (px py : ℤ)
      → length surface.bitmap_queue + 1 ≤ queue_size
      → IsOnSurface px py surface
      → IsCovered px py surface
      → let deferred = flush_deferred qsort surface in
        (deferred.dirty ≡ false)
        × (length deferred.bitmap_queue + 1 ≤ queue_size)
        × Remains px py deferred
  unfolding flush_deferred
  flush_deferred-Remains surface px py room on covered =
      let e = flush_to_queue-IsEmptied px py surface in
      let f = updates-IsFlushed surface px py room in
      let g = flush_to_queue-IsEmptied px py (flush_updates qsort surface) in
      let IsDeferred : Surface → Type 0 =
        λ s. (s.dirty ≡ false) × (length s.bitmap_queue + 1 ≤ queue_size) × Remains px py s in
      on_branches IsDeferred surface.dirty _ _
        (λ _.
          on_branches (λ s. IsDeferred (flush_to_queue s))
            (length surface.bitmap_queue == queue_size - 1) _ _
            (λ _.
              let sent = f.sends (subst (λ b. IsIn px py b) (sym e.bounds) on) (e.covers covered) in
              let none_queued : length (flush_updates qsort surface).bitmap_queue ≡ 0 =
                ap length f.empty in
              (g.clean, omega (arith, g.size, none_queued), g.covers (inr (inr sent))))
            (λ not_full.
              let below : ¬ (length surface.bitmap_queue ≡ 255) = differ _ _ not_full in
              (e.clean, omega (arith, e.size, below), e.covers covered)))
        (λ clean. (clean, room, elim covered [ inl d ↦ absurd (cc) | inr r ↦ r ]))

  -- A flush sends what is to be sent, or had been.
  pub flush_updates-Remains :
      (surface : Surface) (px py : ℤ)
      → length surface.bitmap_queue + 1 ≤ queue_size
      → IsOnSurface px py surface
      → IsCovered px py surface
      → Any (IsSentBy px py) (flush_updates qsort surface).calls
  flush_updates-Remains surface px py room on covered =
      let e = flush_to_queue-IsEmptied px py surface in
      (updates-IsFlushed surface px py room).sends (subst (λ b. IsIn px py b) (sym e.bounds) on)
        (e.covers covered)
