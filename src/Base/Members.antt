-- ===== src/Base/Members.antt =====
-- Lists of numbers as sets: membership, and the removal of one.
use Prim.Native.Nat.{ℕ}
use mathlib.Core.Path.{◌≡◌, refl, subst}
use mathlib.Core.Logic.{◌≢◌, inl, inr}
use mathlib.Core.Bool.{Bool, true, false}
use mathlib.Core.List.{List, [], ◌∷◌}
use native.Mathlib.Omega.{arith}
use occamy.Base.Tests.{◌==◌, if◌then◌else◌, Bool-cases}

abbrev pub member : ℕ → List ℕ → Bool
member m [] = false
member m (k ∷ ks) = if k == m then true else member m ks

abbrev pub erase : ℕ → List ℕ → List ℕ
erase m [] = []
erase m (k ∷ ks) = if k == m then ks else k ∷ erase m ks

abbrev pub AreDistinct : List ℕ → Type 0
AreDistinct [] = Unit
AreDistinct (k ∷ ks) = (member k ks ≡ false) × AreDistinct ks

-- What is a member is not what is none.
pub member_ne : (a b : ℕ) (xs : List ℕ) → member a xs ≡ true → member b xs ≡ false → a ≢ b
member_ne a b xs h k e = absurd (ground (arith, subst (λ i. member i xs ≡ true) e h, k))

pub member-erase_absent :
    (a b : ℕ) (xs : List ℕ) → member a xs ≡ false → member a (erase b xs) ≡ false
member-erase_absent a b [] h = refl
member-erase_absent a b (x ∷ xs) h = elim (Bool-cases (x == a)) [
  | inl same ↦ absurd (ground (arith, same, h))
  | inr other ↦
      let absent : member a xs ≡ false = ground (arith, other, h) in
      elim (Bool-cases (x == b)) [
        | inl here ↦ rw here absent
        | inr there ↦ rw (there, other) (member-erase_absent a b xs absent)
      ]
]

pub erase-AreDistinct : (b : ℕ) (xs : List ℕ) → AreDistinct xs → AreDistinct (erase b xs)
erase-AreDistinct b [] h = tt
erase-AreDistinct b (x ∷ xs) h = elim (Bool-cases (x == b)) [
  | inl here ↦ rw here h.1
  | inr there ↦ rw there (member-erase_absent x b xs h.0, erase-AreDistinct b xs h.1)
]
