-- ===== src/Surface/Sent.antt =====
-- A round of a flush loses no pixel and leaves room in the queue (guacamole/src/common/surface.c).
use occamy.Base.{
  ℕ, ◌+◌, ◌≤◌, ◌≡◌, refl, sym, ◌∙◌, subst, arith, ltb, ◌&&◌, ◌||◌, Bool, true, false, on_branches,
  ltb→lt, ◌⊎◌, inl, inr, List, [], ◌∷◌, ◌++◌, length, drop, Any, Any-append_left, Any-append_right,
}
use occamy.Base.Int.{ℤ}
use occamy.Surface.State.{
  Surface, Call, send_rect, send_cfill_rout, send_png, bounds_rect, queue_size,
}
use occamy.Surface.Flush.{build_up, flush_to_png, flush_candidate, is_opaque}
use occamy.Surface.Pending.{IsOnSurface, IsQueued, IsSentBy, IsCovered}
use occamy.Surface.Rounds.{
  IsHeadFlushed, Remains, drop_head, build_up-IsBuilt, IsEmptied, clean-IsEmptied,
  flush_to_queue-IsEmptied,
}

both_hold : (a b : Bool) → (a && b) ≡ true → b ≡ true
both_hold true b h = h
both_hold false b h = cc

module _ (px py : ℤ) where
  -- The image of the dirty rectangle, sent behind some calls.
  png-IsEmptied :
      (surface : Surface) (calls : List Call) (opaque : Bool)
      → (Any (IsSentBy px py) surface.calls → Any (IsSentBy px py) calls)
      → IsEmptied px py surface 0 (record surface {
        calls = calls ++ (send_png surface.dirty_rect opaque ∷ []);
        realized = true;
        dirty = false;
      })
  png-IsEmptied surface calls opaque kept =
      let image = send_png surface.dirty_rect opaque in
      let covers : IsCovered px py surface
          → Any (IsQueued px py) surface.bitmap_queue
            ⊎ Any (IsSentBy px py) (calls ++ (image ∷ [])) =
        λ h. elim h [
          | inl d ↦ inr (Any-append_right (IsSentBy px py) calls (image ∷ []) (inl d.1))
          | inr r ↦ elim r [
            | inl q ↦ inl q
            | inr s ↦ inr (Any-append_left (IsSentBy px py) calls (image ∷ []) (kept s))
          ]
        ] in
      record { bounds = refl; clean = refl; covers = covers; head = λ _ h. h; size = omega arith }

  flush_to_png-IsEmptied :
      (opaque : Bool) (surface : Surface) → IsEmptied px py surface 0 (flush_to_png opaque surface)
  unfolding flush_to_png
  flush_to_png-IsEmptied true surface =
      on_branches (IsEmptied px py surface 0) surface.dirty _ _
        (λ _. png-IsEmptied surface surface.calls true (λ s. s))
        (λ c. clean-IsEmptied px py surface 0 c)
  flush_to_png-IsEmptied false surface =
      let first = send_rect surface.dirty_rect ∷ [] in
      on_branches (IsEmptied px py surface 0) surface.dirty _ _
        (λ _. png-IsEmptied surface ((surface.calls ++ first) ++ (send_cfill_rout ∷ [])) false (λ s.
          Any-append_left (IsSentBy px py) (surface.calls ++ first) (send_cfill_rout ∷ [])
            (Any-append_left (IsSentBy px py) surface.calls first s)))
        (λ c. clean-IsEmptied px py surface 0 c)

  -- What a round does for its first candidate, at an index of the queue.
  pub record IsRound (surface : Surface) (i : ℕ) (after : Surface) : Type 0 where
    pub bounds : bounds_rect after ≡ bounds_rect surface
    pub clean : after.dirty ≡ false
    pub remains :
        IsOnSurface px py surface
        → Remains px py surface
        → Any (IsQueued px py) (drop 1 after.bitmap_queue) ⊎ Any (IsSentBy px py) after.calls
    pub room : i + length after.bitmap_queue ≤ queue_size

  emptied-IsRound :
      (surface built : Surface) (i more : ℕ) (emptied : Surface)
      → bounds_rect built ≡ bounds_rect surface
      → (IsOnSurface px py surface → Remains px py surface → IsCovered px py built)
      → 1 ≤ length built.bitmap_queue
      → IsHeadFlushed built.bitmap_queue
      → i + (length built.bitmap_queue + more) ≤ queue_size
      → IsEmptied px py built more emptied
      → IsRound surface i emptied
  emptied-IsRound surface built i more emptied same covered one headed room e =
      let remains : IsOnSurface px py surface
          → Remains px py surface
          → Any (IsQueued px py) (drop 1 emptied.bitmap_queue)
            ⊎ Any (IsSentBy px py) emptied.calls =
        λ on r. elim (e.covers (covered on r)) [
          | inl q ↦ inl (drop_head px py emptied.bitmap_queue (e.head one headed) q)
          | inr s ↦ inr s
        ] in
      record {
        bounds = e.bounds ∙ same;
        clean = e.clean;
        remains = remains;
        room = omega (arith, e.size);
      }

  pub flush_candidate-IsRound :
      (i original : ℕ) (surface : Surface)
      → surface.dirty ≡ false
      → 1 ≤ length surface.bitmap_queue
      → i + length surface.bitmap_queue ≤ queue_size
      → IsRound surface i (flush_candidate i original surface)
  unfolding flush_candidate
  flush_candidate-IsRound i original surface clean one room =
      let queue = surface.bitmap_queue in
      let b = build_up-IsBuilt px py surface queue in
      let built = build_up surface queue in
      let queued : Surface = record built.1 { bitmap_queue = built.2 } in
      let covered : IsOnSurface px py surface → Remains px py surface → IsCovered px py queued =
        λ on r. elim r [
          | inl q ↦ elim (b.moves on q) [ inl d ↦ inl d | inr q' ↦ inr (inl q') ]
          | inr s ↦ inr (inr (subst (Any (IsSentBy px py)) (sym b.calls) s))
        ] in
      let step = emptied-IsRound surface queued i in
      let some_built : 1 ≤ length built.2 = omega (arith, b.size) in
      on_branches (IsRound surface i)
        ((ltb 1 built.0 || ltb i original) && ltb (i + length built.2) queue_size) _ _
        (λ t.
          let free =
            ltb→lt (i + length built.2) queue_size (
              both_hold (ltb 1 built.0 || ltb i original) (ltb (i + length built.2) queue_size)
                t) in
          step 1 _ b.bounds covered some_built (b.first clean) (omega (arith, free))
            (flush_to_queue-IsEmptied px py queued))
        (λ _.
          step 0 _ b.bounds covered some_built (b.first clean) (omega (arith, b.size))
            (flush_to_png-IsEmptied (is_opaque queued queued.dirty_rect) queued))
