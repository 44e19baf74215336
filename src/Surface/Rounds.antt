-- ===== src/Surface/Rounds.antt =====
-- The rounds of a flush lose no pixel (guacamole/src/common/surface.c).
use occamy.Base.{
  ℕ, suc, ◌+◌, ◌≤◌, ◌≡◌, refl, sym, ap, ◌∙◌, subst, arith, true, false, on_branches, ◌⊎◌, inl, inr,
  List, [], ◌∷◌, ◌++◌, length, length-append, drop, Any, Any-append_left, Any-append_right,
}
use occamy.Base.Int.{ℤ}
use occamy.Surface.Rect.{IsIn}
use occamy.Surface.State.{Surface, BitmapRect, bounds_rect, flush_to_queue}
use occamy.Surface.Flush.{consider, build_up}
use occamy.Surface.Pending.{
  IsOnSurface, IsDirty, IsQueued, IsSentBy, IsCovered, consider-IsConsidered,
}

-- The first rectangle of a queue, if any, is flushed.
abbrev pub IsHeadFlushed : List BitmapRect → Type 0
IsHeadFlushed [] = Unit
IsHeadFlushed (candidate ∷ candidates) = candidate.flushed ≡ true

head-append :
    (queue rest : List BitmapRect)
    → 1 ≤ length queue
    → IsHeadFlushed queue
    → IsHeadFlushed (queue ++ rest)
head-append [] rest some_queue h = absurd (omega arith)
head-append (candidate ∷ queue) rest some_queue h = h

module _ (px py : ℤ) where
  -- The pixel is in the queue, or has been sent.
  abbrev pub Remains : Surface → Type 0
  Remains surface = Any (IsQueued px py) surface.bitmap_queue ⊎ Any (IsSentBy px py) surface.calls

  pub drop_head :
      (queue : List BitmapRect)
      → IsHeadFlushed queue
      → Any (IsQueued px py) queue
      → Any (IsQueued px py) (drop 1 queue)
  drop_head [] h a = a
  drop_head (candidate ∷ queue) h (inl q) = absurd cc
  drop_head (candidate ∷ queue) h (inr a) = a

  -- What the inner loop leaves as it is, and where the pixels of the candidates are then.
  pub record IsBuilt (surface : Surface) (candidates : List BitmapRect)
      (result : ℕ × Surface × List BitmapRect) : Type 0 where
    pub bounds : bounds_rect result.1 ≡ bounds_rect surface
    pub calls : result.1.calls ≡ surface.calls
    pub keeps : IsDirty px py surface → IsDirty px py result.1
    pub moves :
        IsOnSurface px py surface
        → Any (IsQueued px py) candidates
        → IsDirty px py result.1 ⊎ Any (IsQueued px py) result.2
    pub first : surface.dirty ≡ false → IsHeadFlushed result.2
    pub size : length result.2 ≡ length candidates

  pub build_up-IsBuilt :
      (surface : Surface) (candidates : List BitmapRect)
      → IsBuilt surface candidates (build_up surface candidates)
  unfolding build_up
  build_up-IsBuilt surface [] = record {
    bounds = refl;
    calls = refl;
    keeps = λ h. h;
    moves = λ on a. inr a;
    first = λ _. tt;
    size = refl;
  }
  build_up-IsBuilt surface (candidate ∷ candidates) =
      let c = consider-IsConsidered px py surface candidate in
      let result = consider surface candidate in
      let b = build_up-IsBuilt result.1 candidates in
      let moved : IsOnSurface px py surface
          → Any (IsQueued px py) (candidate ∷ candidates)
          → IsDirty px py (build_up result.1 candidates).1
            ⊎ Any (IsQueued px py) (result.2 ∷ (build_up result.1 candidates).2) =
        λ on a. elim a [
          | inl q ↦ elim (c.moves on q) [ inl d ↦ inl (b.keeps d) | inr q' ↦ inr (inl q') ]
          | inr a' ↦ elim (b.moves (subst (λ r. IsIn px py r) (sym c.bounds) on) a') [
            | inl d ↦ inl d
            | inr q' ↦ inr (inr q')
          ]
        ] in
      record {
        bounds = b.bounds ∙ c.bounds;
        calls = b.calls ∙ c.calls;
        keeps = λ h. b.keeps (c.keeps h);
        moves = moved;
        first = c.first;
        size = ap suc b.size;
      }

  -- What emptying the dirty rectangle does, with room for so many rectangles more.
  pub record IsEmptied (surface : Surface) (more : ℕ) (emptied : Surface) : Type 0 where
    pub bounds : bounds_rect emptied ≡ bounds_rect surface
    pub clean : emptied.dirty ≡ false
    pub covers : IsCovered px py surface → Remains emptied
    pub head :
        1 ≤ length surface.bitmap_queue
        → IsHeadFlushed surface.bitmap_queue
        → IsHeadFlushed emptied.bitmap_queue
    pub size : length emptied.bitmap_queue ≤ length surface.bitmap_queue + more

  -- A surface that is not dirty is emptied already.
  pub clean-IsEmptied :
      (surface : Surface) (more : ℕ) → surface.dirty ≡ false → IsEmptied surface more surface
  clean-IsEmptied surface more c =
      let covers : IsCovered px py surface → Remains surface =
        λ h. elim h [ inl d ↦ absurd (no_dirt d) | inr r ↦ r ] in
      record { bounds = refl; clean = c; covers = covers; head = λ _ h. h; size = omega arith }
    where
      no_dirt : IsDirty px py surface → ⊥
      no_dirt d = cc

  pub flush_to_queue-IsEmptied : (surface : Surface) → IsEmptied surface 1 (flush_to_queue surface)
  unfolding flush_to_queue
  flush_to_queue-IsEmptied surface =
      on_branches (IsEmptied surface 1) surface.dirty _ _
        (λ _.
          let entry : BitmapRect = record { flushed = false; rect = surface.dirty_rect } in
          let queue = surface.bitmap_queue in
          let covers : IsCovered px py surface
              → Any (IsQueued px py) (queue ++ (entry ∷ [])) ⊎ Any (IsSentBy px py) surface.calls =
            λ h. elim h [
              | inl d ↦ inl (Any-append_right (IsQueued px py) queue (entry ∷ []) (inl (refl, d.1)))
              | inr r ↦ elim r [
                | inl q ↦ inl (Any-append_left (IsQueued px py) queue (entry ∷ []) q)
                | inr s ↦ inr s
              ]
            ] in
          record {
            bounds = refl;
            clean = refl;
            covers = covers;
            head = λ one h. head-append queue (entry ∷ []) one h;
            size = omega (arith, length-append queue (entry ∷ []));
          })
        (λ c. clean-IsEmptied surface 1 c)
