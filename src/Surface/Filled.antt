-- ===== src/Surface/Filled.antt =====
-- Filling a rectangle loses no pixel that it changes (guacamole/src/common/surface.c).
use occamy.Base.{
  ℕ, zero, suc, ◌≡◌, ◌≢◌, refl, ap, ◌∙◌, arith, ◌==◌, ◌&&◌, Bool, true, false, if◌then◌else◌,
  on_branches, ◌⊎◌, inl, inr, ltb→lt, ltb→le, ==_iff, Bool-cases,
}
use occamy.Base.Int.{ℤ, pos, ◌+ℤ◌, ◌≤ℤ◌, ltb_ℤ, leb_ℤ, equal_ℤ, int_laws}
use occamy.Surface.Rect.{Rect, IsIn}
use occamy.Surface.Draw.{Updated, set_pixel, set_row, set_rows, restrict, set_pixels}

-- An offset lies between the bounds of what is updated.
abbrev IsSpanned : ℤ → ℤ → ℤ → ℤ → Type 0
IsSpanned first least most n = (first +ℤ least ≤ℤ n) × (n ≤ℤ first +ℤ most)

wider :
    (first n least most k : ℤ)
    → IsSpanned first least most k
    → IsSpanned first (if ltb_ℤ n least then n else least) (if ltb_ℤ most n then n else most) k
wider first n least most k h = (
  on_branches (λ l. first +ℤ l ≤ℤ k) (ltb_ℤ n least) n least
      (λ t. omega (int_laws, h.0, ltb→lt _ _ t)) (λ _. h.0),
  on_branches (λ m. k ≤ℤ first +ℤ m) (ltb_ℤ most n) n most
      (λ t. omega (int_laws, h.1, ltb→lt _ _ t)) (λ _. h.1),
)

spans :
    (first n least most k : ℤ)
    → equal_ℤ k (first +ℤ n) ≡ true
    → IsSpanned first (if ltb_ℤ n least then n else least) (if ltb_ℤ most n then n else most) k
spans first n least most k e =
    let same = (==_iff _ _).0 e in
    (
      on_branches (λ l. first +ℤ l ≤ℤ k) (ltb_ℤ n least) n least (λ t. omega (int_laws, same))
          (λ f. omega (int_laws, same, ltb→le _ _ f)),
      on_branches (λ m. k ≤ℤ first +ℤ m) (ltb_ℤ most n) n most (λ t. omega (int_laws, same))
          (λ f. omega (int_laws, same, ltb→le _ _ f)),
    )

both_true : (a b : Bool) → (a && b) ≡ true → (a ≡ true) × (b ≡ true)
both_true true b h = (refl, h)
both_true false b h = absurd cc

both_false : (a b : Bool) → (a && b) ≡ false → a ≡ true → b ≡ true → ⊥
both_false true true h p q = cc
both_false true false h p q = cc
both_false false b h p q = cc

le→leb : (a b : ℤ) → a ≤ℤ b → leb_ℤ a b ≡ true
le→leb a b h = ground arith

module _ (rect : Rect) (color : ℕ) (buffer : ℤ → ℤ → ℕ) (px py : ℤ) where
  -- The pixel is as it was, or between the bounds.
  abbrev IsTracked : Updated → Type 0
  IsTracked updated =
      (updated.buffer px py ≡ buffer px py)
      ⊎ (IsSpanned rect.x updated.min_x updated.max_x px
          × IsSpanned rect.y updated.min_y updated.max_y py)

  set_pixel-IsTracked :
      (x y : ℤ) (updated : Updated)
      → IsTracked updated
      → IsTracked (set_pixel rect color x y updated)
  unfolding set_pixel
  set_pixel-IsTracked x y updated h =
      let at = equal_ℤ px (rect.x +ℤ x) && equal_ℤ py (rect.y +ℤ y) in
      on_branches IsTracked (updated.buffer (rect.x +ℤ x) (rect.y +ℤ y) == color) _ _ (λ _. h)
        (λ _. elim (Bool-cases at) [
          | inl here ↦
              let e = both_true (equal_ℤ px (rect.x +ℤ x)) (equal_ℤ py (rect.y +ℤ y)) here in
              inr (
                spans rect.x x updated.min_x updated.max_x px e.0,
                spans rect.y y updated.min_y updated.max_y py e.1,
              )
          | inr elsewhere ↦ elim h [
            | inl same ↦ inl (ap (λ b. if b then color else updated.buffer px py) elsewhere ∙ same)
            | inr between ↦ inr (
              wider rect.x x updated.min_x updated.max_x px between.0,
              wider rect.y y updated.min_y updated.max_y py between.1,
            )
          ]
        ])

  set_row-IsTracked :
      (n : ℕ) (x y : ℤ) (updated : Updated)
      → IsTracked updated
      → IsTracked (set_row rect color n x y updated)
  unfolding set_row
  set_row-IsTracked zero x y updated h = h
  set_row-IsTracked (suc n) x y updated h =
      set_row-IsTracked n (x +ℤ pos 1) y _ (set_pixel-IsTracked x y updated h)

  set_rows-IsTracked :
      (n : ℕ) (y : ℤ) (updated : Updated)
      → IsTracked updated
      → IsTracked (set_rows rect color n y updated)
  unfolding set_rows
  set_rows-IsTracked zero y updated h = h
  set_rows-IsTracked (suc n) y updated h =
      set_rows-IsTracked n (y +ℤ pos 1) _ (set_row-IsTracked _ (pos 0) y updated h)

  restrict-IsIn :
      (updated : Updated)
      → IsTracked updated
      → updated.buffer px py ≢ buffer px py
      → IsIn px py (restrict rect color updated)
  unfolding restrict
  restrict-IsIn updated (inl same) changed = absurd (changed same)
  restrict-IsIn updated (inr between) changed =
      let h = between.0 in
      let v = between.1 in
      on_branches (IsIn px py)
        (leb_ℤ updated.min_x updated.max_x && leb_ℤ updated.min_y updated.max_y) _ _
        (λ _. ((h.0, omega (int_laws, h.0, h.1)), (v.0, omega (int_laws, v.0, v.1))))
        (λ outside. absurd (
          both_false (leb_ℤ updated.min_x updated.max_x) (leb_ℤ updated.min_y updated.max_y) outside
            (le→leb updated.min_x updated.max_x (omega (int_laws, h.0, h.1)))
            (le→leb updated.min_y updated.max_y (omega (int_laws, v.0, v.1)))))

  -- A pixel that is changed by the filling of a rectangle is in the rectangle that it is restricted to.
  pub set_pixels-IsIn :
      (set_pixels rect color buffer).buffer px py ≢ buffer px py
      → IsIn px py (restrict rect color (set_pixels rect color buffer))
  unfolding set_pixels
  set_pixels-IsIn changed = restrict-IsIn _ (set_rows-IsTracked _ (pos 0) _ (inl refl)) changed
