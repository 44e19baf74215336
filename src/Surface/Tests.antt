-- ===== src/Surface/Tests.antt =====
-- A surface with updates that are pending, and the theorems there. The sort is one by insertion.
use occamy.Base.{
  ◌≡◌, ◌≢◌, refl, arith, inl, true, false, if◌then◌else◌, on_branches, List, [], ◌∷◌, Any, Permᴰ,
}
use occamy.Base.Int.{ℤ, pos, ◌+ℤ◌, ◌-ℤ◌, leb_ℤ}
use occamy.Surface.Rect.{Rect, IsIn, rect_init, rect_constrain}
use occamy.Surface.State.{Surface, BitmapRect, alloc, clip_rect_to, reset_clip, bound_rect}
use occamy.Surface.Flush.{flush_updates}
use occamy.Surface.Draw.{surface_set, color_of}
use occamy.Surface.Pending.{IsOnSurface, IsSentBy}
use occamy.Surface.Flushed.{flush_updates-sends}
use occamy.Surface.Kept.{IsKept, surface_set-IsKept}

insert : (BitmapRect → BitmapRect → ℤ) → BitmapRect → List BitmapRect → List BitmapRect
insert compare x [] = x ∷ []
insert compare x (y ∷ ys) =
    let rest = insert compare x ys in if leb_ℤ (compare x y) (pos 0) then x ∷ y ∷ ys else y ∷ rest

abbrev sort : (BitmapRect → BitmapRect → ℤ) → List BitmapRect → List BitmapRect
sort compare [] = []
sort compare (x ∷ xs) = insert compare x (sort compare xs)

same : (xs : List BitmapRect) → Permᴰ xs xs
same [] = Permᴰ.nil
same (x ∷ xs) = Permᴰ.cons refl (same xs)

insert-permutes :
    (compare : BitmapRect → BitmapRect → ℤ) (x : BitmapRect) (ys : List BitmapRect)
    → Permᴰ (x ∷ ys) (insert compare x ys)
unfolding insert
insert-permutes compare x [] = same (x ∷ [])
insert-permutes compare x (y ∷ ys) =
    on_branches (Permᴰ (x ∷ y ∷ ys)) (leb_ℤ (compare x y) (pos 0)) _ _ (λ _. same (x ∷ y ∷ ys))
      (λ _. Permᴰ.trans (Permᴰ.swap refl refl) (Permᴰ.cons refl (insert-permutes compare x ys)))

sort-permutes :
    (compare : BitmapRect → BitmapRect → ℤ) (xs : List BitmapRect) → Permᴰ xs (sort compare xs)
sort-permutes compare [] = Permᴰ.nil
sort-permutes compare (x ∷ xs) =
    Permᴰ.trans (Permᴰ.cons refl (sort-permutes compare xs))
      (insert-permutes compare x (sort compare xs))

abbrev square : Rect
square = rect_init (pos 10) (pos 10) (pos 20) (pos 20)

abbrev queued : BitmapRect
queued = record { flushed = false; rect = rect_init (pos 50) (pos 0) (pos 8) (pos 8) }

abbrev drawn : Surface
drawn = record (alloc (pos 1) (pos 100) (pos 80)) {
  dirty = true;
  dirty_rect = square;
  bitmap_queue = queued ∷ [];
}

square-IsIn : IsIn (pos 15) (pos 12) square
unfolding ◌+ℤ◌
square-IsIn = ((omega arith, omega arith), (omega arith, omega arith))

on_drawn : IsOnSurface (pos 15) (pos 12) drawn
unfolding alloc reset_clip ◌+ℤ◌
on_drawn = ((omega arith, omega arith), (omega arith, omega arith))

flush_updates-sends_example :
    let flushed = flush_updates sort (record drawn { calls = [] }) in
    (flushed.dirty ≡ false)
    × (flushed.bitmap_queue ≡ [])
    × Any (IsSentBy (pos 15) (pos 12)) flushed.calls
flush_updates-sends_example =
    flush_updates-sends sort sort-permutes drawn (pos 15) (pos 12) (omega arith) on_drawn
      (inl (refl, square-IsIn))

clipped-IsIn :
    IsIn (pos 15) (pos 12) (clip_rect_to drawn (rect_init (pos 0) (pos 0) (pos 64) (pos 64)))
unfolding alloc reset_clip clip_rect_to bound_rect rect_constrain ◌+ℤ◌ ◌-ℤ◌
clipped-IsIn = ((omega arith, omega arith), (omega arith, omega arith))

is_black : drawn.buffer (pos 15) (pos 12) ≢ color_of 0xff 0 0 0xff
unfolding alloc reset_clip
is_black = λ e. omega (arith, e)

surface_set-IsKept_example :
    IsKept sort sort-permutes
      (pos 15)
      (pos 12)
      0xff
      0
      0
      0xff
      (surface_set sort (pos 0) (pos 0) (pos 64) (pos 64) 0xff 0 0 0xff drawn)
surface_set-IsKept_example =
    surface_set-IsKept sort sort-permutes (pos 15) (pos 12) (pos 0) (pos 0) (pos 64) (pos 64) 0xff 0
      0 0xff drawn (omega arith) on_drawn (inl (clipped-IsIn, is_black))
