-- ===== src/Surface/Colored.antt =====
-- Filling a rectangle gives each of its pixels the color (guacamole/src/common/surface.c).
use occamy.Base.{
  ℕ, zero, suc, ◌+◌, ◌≤◌, ◌≡◌, refl, ap, ◌∙◌, arith, ◌==◌, ==_iff, ◌&&◌, Bool, true, false,
  if◌then◌else◌, on_branches,
}
use occamy.Base.Int.{ℤ, pos, negsuc, pos_part, neg_part, ◌+ℤ◌, ◌-ℤ◌, ◌≤ℤ◌, equal_ℤ, ℤ_ext, int_laws}
use occamy.Surface.Rect.{Rect, IsBetween, IsIn}
use occamy.Surface.Flush.{count}
use occamy.Surface.Draw.{Updated, set_pixel, set_row, set_rows, set_pixels}

both_are : (a b : Bool) → a ≡ true → b ≡ true → (a && b) ≡ true
both_are true b p q = q
both_are false b p q = cc

equal_refl : (a b : ℤ) → a ≡ b → equal_ℤ a b ≡ true
equal_refl a b h =
    let p = ap pos_part h in let n = ap neg_part h in (==_iff _ _).1 (omega (arith, p, n))

not_negative : (a : ℤ) → pos 0 ≤ℤ a → neg_part a ≡ 0
not_negative (pos n) h = refl
not_negative (negsuc n) h = absurd (omega arith)

count_part : (a : ℤ) → count a ≡ pos_part a
count_part (pos n) = refl
count_part (negsuc n) = refl

-- The offset of a number from the first one, as the loops count it.
offset :
    (first size n : ℤ)
    → IsBetween first size n
    → (k : ℕ) × (k + 1 ≤ count size) × (n ≡ first +ℤ (pos 0 +ℤ pos k))
offset first size n h =
    let d = n -ℤ first in
    let low : pos 0 ≤ℤ d = omega (int_laws, h.0) in
    let none_below = not_negative d low in
    (
      pos_part d,
      omega (int_laws, h.1, none_below, count_part size),
      ℤ_ext n (first +ℤ (pos 0 +ℤ pos (pos_part d))) (omega (int_laws, none_below)),
    )

next : (first x : ℤ) (k : ℕ) → (first +ℤ (x +ℤ pos (suc k))) ≡ (first +ℤ ((x +ℤ pos 1) +ℤ pos k))
next first x k = ℤ_ext _ _ (omega int_laws)

here : (first x : ℤ) → (first +ℤ (x +ℤ pos 0)) ≡ (first +ℤ x)
here first x = ℤ_ext _ _ (omega int_laws)

module _ (rect : Rect) (color : ℕ) (px py : ℤ) where
  -- The pixel has the color.
  abbrev IsColored : Updated → Type 0
  IsColored updated = updated.buffer px py ≡ color

  set_pixel-keeps :
      (x y : ℤ) (updated : Updated)
      → IsColored updated
      → IsColored (set_pixel rect color x y updated)
  unfolding set_pixel
  set_pixel-keeps x y updated h =
      on_branches IsColored (updated.buffer (rect.x +ℤ x) (rect.y +ℤ y) == color) _ _ (λ _. h)
        (λ _.
          on_branches (λ c. c ≡ color) (equal_ℤ px (rect.x +ℤ x) && equal_ℤ py (rect.y +ℤ y)) color
            (updated.buffer px py) (λ _. refl) (λ _. h))

  set_pixel-IsColored :
      (x y : ℤ) (updated : Updated)
      → px ≡ rect.x +ℤ x
      → py ≡ rect.y +ℤ y
      → IsColored (set_pixel rect color x y updated)
  unfolding set_pixel
  set_pixel-IsColored x y updated hx hy =
      on_branches IsColored (updated.buffer (rect.x +ℤ x) (rect.y +ℤ y) == color) _ _
        (λ same.
          ap (λ a. updated.buffer a py) hx
          ∙ ap (updated.buffer (rect.x +ℤ x)) hy
          ∙ (==_iff _ _).0 same)
        (λ _.
          ap (λ b. if b then color else updated.buffer px py)
            (both_are _ _ (equal_refl px (rect.x +ℤ x) hx) (equal_refl py (rect.y +ℤ y) hy)))

  set_row-keeps :
      (n : ℕ) (x y : ℤ) (updated : Updated)
      → IsColored updated
      → IsColored (set_row rect color n x y updated)
  unfolding set_row
  set_row-keeps zero x y updated h = h
  set_row-keeps (suc n) x y updated h =
      set_row-keeps n (x +ℤ pos 1) y _ (set_pixel-keeps x y updated h)

  set_rows-keeps :
      (n : ℕ) (y : ℤ) (updated : Updated)
      → IsColored updated
      → IsColored (set_rows rect color n y updated)
  unfolding set_rows
  set_rows-keeps zero y updated h = h
  set_rows-keeps (suc n) y updated h =
      set_rows-keeps n (y +ℤ pos 1) _ (set_row-keeps _ (pos 0) y updated h)

  set_row-IsColored :
      (n k : ℕ) (x y : ℤ) (updated : Updated)
      → k + 1 ≤ n
      → px ≡ rect.x +ℤ (x +ℤ pos k)
      → py ≡ rect.y +ℤ y
      → IsColored (set_row rect color n x y updated)
  unfolding set_row
  set_row-IsColored zero k x y updated lt hx hy = absurd (omega arith)
  set_row-IsColored (suc n) zero x y updated lt hx hy =
      set_row-keeps n (x +ℤ pos 1) y _ (set_pixel-IsColored x y updated (hx ∙ here rect.x x) hy)
  set_row-IsColored (suc n) (suc k) x y updated lt hx hy =
      set_row-IsColored n k (x +ℤ pos 1) y _ (omega arith) (hx ∙ next rect.x x k) hy

  set_rows-IsColored :
      (n j k : ℕ) (y : ℤ) (updated : Updated)
      → j + 1 ≤ n
      → k + 1 ≤ count rect.width
      → px ≡ rect.x +ℤ (pos 0 +ℤ pos k)
      → py ≡ rect.y +ℤ (y +ℤ pos j)
      → IsColored (set_rows rect color n y updated)
  unfolding set_rows
  set_rows-IsColored zero j k y updated lt lt' hx hy = absurd (omega arith)
  set_rows-IsColored (suc n) zero k y updated lt lt' hx hy =
      set_rows-keeps n (y +ℤ pos 1) _
        (set_row-IsColored (count rect.width) k (pos 0) y updated lt' hx (hy ∙ here rect.y y))
  set_rows-IsColored (suc n) (suc j) k y updated lt lt' hx hy =
      set_rows-IsColored n j k (y +ℤ pos 1) _ (omega arith) lt' hx (hy ∙ next rect.y y j)

  -- The filling of a rectangle gives the color to each pixel in it.
  pub set_pixels-IsColored :
      (buffer : ℤ → ℤ → ℕ) → IsIn px py rect → (set_pixels rect color buffer).buffer px py ≡ color
  unfolding set_pixels
  set_pixels-IsColored buffer h =
      let column = offset rect.x rect.width px h.0 in
      let row = offset rect.y rect.height py h.1 in
      set_rows-IsColored (count rect.height) row.0 column.0 (pos 0) _ row.1 column.1 column.2 row.2
