-- ===== src/Base/Bits.antt =====
-- Bit operations as arithmetic. The native `bit_and` and `bit_or` compute at numerals only, so here
-- are their equations on the lowest digit, and from these the two laws that the code needs: a
-- mask of low bits is a remainder, and `|` of disjoint fields is a sum.
use Prim.Native.Nat.{
  ℕ, zero, suc, ◌+◌, ◌*◌, ◌/◌, ◌%◌, ◌≤◌, ◌<◌, min, max, bit_and, bit_or, digits, bitwise,
  bit_and-bitwise, bit_or-bitwise,
}
use mathlib.Core.Path.{◌≡◌, refl, ap}
use mathlib.Core.Bool.{Bool, true, ◌&&◌}
use native.Mathlib.Omega.{arith}

-- A Boolean test at every number below a bound, for facts about one byte.
unfoldable pub all_below : ℕ → (ℕ → Bool) → Bool
all_below zero test = true
all_below (suc n) test = test n && all_below n test

pub all_below_sound :
    (n : ℕ) (test : ℕ → Bool) (x : ℕ) → all_below n test ≡ true → x < n → test x ≡ true
unfolding all_below
all_below_sound zero test x h lt = absurd (omega arith)
all_below_sound (suc n) test x h lt = ground (arith, all_below_sound n test x)

-- More fuel than the first operand changes nothing.
module _ (rest : ℕ → ℕ) (digit : ℕ → ℕ → ℕ) where
  more_fuel : (n m a b : ℕ) → a ≤ n → n ≤ m → digits rest digit m a b ≡ digits rest digit n a b
  more_fuel zero zero a b le le' = refl
  more_fuel zero (suc m) zero b le le' = refl
  more_fuel zero (suc m) (suc a) b le le' = absurd (omega arith)
  more_fuel (suc n) zero a b le le' = absurd (omega arith)
  more_fuel (suc n) (suc m) zero b le le' = refl
  more_fuel (suc n) (suc m) (suc a) b le le' =
      ap (λ (t : ℕ). t * 2 + digit (suc a % 2) (b % 2))
        (more_fuel n m (suc a / 2) (b / 2) (omega arith) (omega arith))

  bitwise_step :
      (a b : ℕ)
      → bitwise rest digit (suc a) b
        ≡ digit (suc a % 2) (b % 2) + 2 * bitwise rest digit (suc a / 2) (b / 2)
  bitwise_step a b =
      omega (arith, more_fuel (suc a / 2) a (suc a / 2) (b / 2) (omega arith) (omega arith))

pub bit_and_step : (a b : ℕ) → bit_and a b ≡ min (a % 2) (b % 2) + 2 * bit_and (a / 2) (b / 2)
bit_and_step zero b = simp bit_and-bitwise (omega arith)
bit_and_step (suc a) b = simp bit_and-bitwise (bitwise_step (λ _. 0) min a b)

pub bit_or_step : (a b : ℕ) → bit_or a b ≡ max (a % 2) (b % 2) + 2 * bit_or (a / 2) (b / 2)
bit_or_step zero b = simp bit_or-bitwise (omega arith)
bit_or_step (suc a) b = simp bit_or-bitwise (bitwise_step (λ y. y) max a b)

and_zero_below : (n a : ℕ) → a ≤ n → bit_and a 0 ≡ 0
and_zero_below n zero le = refl
and_zero_below zero (suc a) le = absurd (omega arith)
and_zero_below (suc n) (suc a) le =
    omega (arith, bit_and_step (suc a) 0, and_zero_below n (suc a / 2) (omega arith))

or_zero_below : (n a : ℕ) → a ≤ n → bit_or a 0 ≡ a
or_zero_below n zero le = refl
or_zero_below zero (suc a) le = absurd (omega arith)
or_zero_below (suc n) (suc a) le =
    omega (arith, bit_or_step (suc a) 0, or_zero_below n (suc a / 2) (omega arith))

pub and_mask1 : (a : ℕ) → bit_and a 1 ≡ a % 2
and_mask1 a = omega (arith, bit_and_step a 1, and_zero_below (a / 2) (a / 2) (omega arith))

pub and_mask2 : (a : ℕ) → bit_and a 3 ≡ a % 4
and_mask2 a = omega (arith, bit_and_step a 3, and_mask1 (a / 2))

pub and_mask3 : (a : ℕ) → bit_and a 7 ≡ a % 8
and_mask3 a = omega (arith, bit_and_step a 7, and_mask2 (a / 2))

pub and_mask4 : (a : ℕ) → bit_and a 15 ≡ a % 16
and_mask4 a = omega (arith, bit_and_step a 15, and_mask3 (a / 2))

pub and_mask5 : (a : ℕ) → bit_and a 31 ≡ a % 32
and_mask5 a = omega (arith, bit_and_step a 31, and_mask4 (a / 2))

pub and_mask6 : (a : ℕ) → bit_and a 63 ≡ a % 64
and_mask6 a = omega (arith, bit_and_step a 63, and_mask5 (a / 2))

pub and_mask7 : (a : ℕ) → bit_and a 127 ≡ a % 128
and_mask7 a = omega (arith, bit_and_step a 127, and_mask6 (a / 2))

pub and_mask8 : (a : ℕ) → bit_and a 255 ≡ a % 256
and_mask8 a = omega (arith, bit_and_step a 255, and_mask7 (a / 2))

-- `(q << k) | r` is a sum where `r` fits the low bits.
or_field1 : (q r : ℕ) → r < 2 → bit_or (q * 2) r ≡ q * 2 + r
or_field1 q r h = ground (arith, bit_or_step (q * 2) r, or_zero_below q q)

pub or_field2 : (q r : ℕ) → r < 4 → bit_or (q * 4) r ≡ q * 4 + r
or_field2 q r h = ground (arith, bit_or_step (q * 4) r, or_field1 q (r / 2))

pub or_field3 : (q r : ℕ) → r < 8 → bit_or (q * 8) r ≡ q * 8 + r
or_field3 q r h = ground (arith, bit_or_step (q * 8) r, or_field2 q (r / 2))

pub or_field4 : (q r : ℕ) → r < 16 → bit_or (q * 16) r ≡ q * 16 + r
or_field4 q r h = ground (arith, bit_or_step (q * 16) r, or_field3 q (r / 2))

pub or_field5 : (q r : ℕ) → r < 32 → bit_or (q * 32) r ≡ q * 32 + r
or_field5 q r h = ground (arith, bit_or_step (q * 32) r, or_field4 q (r / 2))

pub or_field6 : (q r : ℕ) → r < 64 → bit_or (q * 64) r ≡ q * 64 + r
or_field6 q r h = ground (arith, bit_or_step (q * 64) r, or_field5 q (r / 2))

pub zero-bit_or : (b : ℕ) → bit_or 0 b ≡ b
zero-bit_or b = bit_or-bitwise 0 b
