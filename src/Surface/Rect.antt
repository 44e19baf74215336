-- ===== src/Surface/Rect.antt =====
-- guacamole/src/common/surface.c: rectangles. An `int` is an integer that does not overflow.
use occamy.Base.{◌≡◌, ◌↔◌, ◌⊎◌, inl, inr, ◌+◌, arith, if◌then◌else◌}
use occamy.Base.Int.{ℤ, pos, ◌+ℤ◌, ◌-ℤ◌, ◌≤ℤ◌, ltb_ℤ, pos_part, neg_part, int_laws}

-- `guac_common_rect`
pub record Rect : Type 0 where
  pub x : ℤ
  pub y : ℤ
  pub width : ℤ
  pub height : ℤ

-- `guac_common_rect_init`
abbrev pub rect_init : ℤ → ℤ → ℤ → ℤ → Rect
rect_init x y width height = record { x = x; y = y; width = width; height = height }

abbrev least : ℤ → ℤ → ℤ
least a b = if ltb_ℤ b a then b else a

abbrev greatest : ℤ → ℤ → ℤ
greatest a b = if ltb_ℤ a b then b else a

-- `guac_common_rect_extend`
unfoldable pub rect_extend : Rect → Rect → Rect
rect_extend rect min =
    let left = least rect.x min.x in
    let top = least rect.y min.y in
    let right = greatest (rect.x +ℤ rect.width) (min.x +ℤ min.width) in
    let bottom = greatest (rect.y +ℤ rect.height) (min.y +ℤ min.height) in
    rect_init left top (right -ℤ left) (bottom -ℤ top)

-- `guac_common_rect_constrain`
unfoldable pub rect_constrain : Rect → Rect → Rect
rect_constrain rect max =
    let left = greatest rect.x max.x in
    let top = greatest rect.y max.y in
    let right = least (rect.x +ℤ rect.width) (max.x +ℤ max.width) in
    let bottom = least (rect.y +ℤ rect.height) (max.y +ℤ max.height) in
    rect_init left top (right -ℤ left) (bottom -ℤ top)

-- A number is one of so many from a first one on.
abbrev pub IsBetween : ℤ → ℤ → ℤ → Type 0
IsBetween first count n = (first ≤ℤ n) × (n +ℤ pos 1 ≤ℤ first +ℤ count)

-- A pixel lies in a rectangle.
abbrev pub IsIn : ℤ → ℤ → Rect → Type 0
IsIn px py rect = IsBetween rect.x rect.width px × IsBetween rect.y rect.height py

-- Equality of integers as one of native numbers.
abbrev AreSame : ℤ → ℤ → Type 0
AreSame a b = pos_part a + neg_part b ≡ pos_part b + neg_part a

least_cases : (a b : ℤ) → (AreSame (least a b) a × (a ≤ℤ b)) ⊎ (AreSame (least a b) b × (b ≤ℤ a))
least_cases a b = ground arith

greatest_cases :
    (a b : ℤ) → (AreSame (greatest a b) a × (b ≤ℤ a)) ⊎ (AreSame (greatest a b) b × (a ≤ℤ b))
greatest_cases a b = ground arith

constrained_lem :
    (a b n m i : ℤ)
    → IsBetween (greatest a b) (least (a +ℤ n) (b +ℤ m) -ℤ greatest a b) i
      ↔ (IsBetween a n i × IsBetween b m i)
constrained_lem a b n m i =
    let g = greatest_cases a b in
    let l = least_cases (a +ℤ n) (b +ℤ m) in
    (
      λ h. (
        (omega (int_laws, g, l, h.0), omega (int_laws, g, l, h.1)),
        (omega (int_laws, g, l, h.0), omega (int_laws, g, l, h.1)),
      ),
      λ h. (omega (int_laws, g, l, h.0.0, h.1.0), omega (int_laws, g, l, h.0.1, h.1.1)),
    )

extended_first :
    (a b n m i : ℤ)
    → IsBetween a n i
    → IsBetween (least a b) (greatest (a +ℤ n) (b +ℤ m) -ℤ least a b) i
extended_first a b n m i h =
    let l = least_cases a b in
    let g = greatest_cases (a +ℤ n) (b +ℤ m) in
    (omega (int_laws, g, l, h.0), omega (int_laws, g, l, h.1))

extended_second :
    (a b n m i : ℤ)
    → IsBetween b m i
    → IsBetween (least a b) (greatest (a +ℤ n) (b +ℤ m) -ℤ least a b) i
extended_second a b n m i h =
    let l = least_cases a b in
    let g = greatest_cases (a +ℤ n) (b +ℤ m) in
    (omega (int_laws, g, l, h.0), omega (int_laws, g, l, h.1))

-- A pixel is in a constrained rectangle exactly where it is in both.
pub rect_constrain-IsIn :
    (rect max : Rect) (px py : ℤ)
    → IsIn px py (rect_constrain rect max) ↔ (IsIn px py rect × IsIn px py max)
unfolding rect_constrain
rect_constrain-IsIn rect max px py =
    let h = constrained_lem rect.x max.x rect.width max.width px in
    let v = constrained_lem rect.y max.y rect.height max.height py in
    (
      λ p. (((h.0 p.0).0, (v.0 p.1).0), ((h.0 p.0).1, (v.0 p.1).1)),
      λ p. (h.1 (p.0.0, p.1.0), v.1 (p.0.1, p.1.1)),
    )

-- An extended rectangle has the pixels of both.
pub rect_extend-IsIn :
    (rect min : Rect) (px py : ℤ)
    → IsIn px py rect ⊎ IsIn px py min
    → IsIn px py (rect_extend rect min)
unfolding rect_extend
rect_extend-IsIn rect min px py (inl h) =
    (extended_first rect.x min.x _ _ px h.0, extended_first rect.y min.y _ _ py h.1)
rect_extend-IsIn rect min px py (inr h) =
    (extended_second rect.x min.x _ _ px h.0, extended_second rect.y min.y _ _ py h.1)
