-- ===== src/Base/Decimal.antt =====
-- Decimal printing, as `snprintf` does it for `%i` and its 64-bit form.
use occamy.Base.Int.{ℤ, pos, negsuc}
use occamy.Base.Tests.{ltb, if◌then◌else◌, Bool-cases}
use occamy.Base.Text.{Bytes}
use occamy.Base.Lists.{All}
use Prim.Native.Nat.{ℕ, zero, suc, ◌+◌, ◌-◌, ◌*◌, ◌/◌, ◌%◌, ◌≤◌, ◌<◌}
use mathlib.Core.Path.{◌≡◌, ap, ◌∙◌}
use mathlib.Core.Logic.{inl, inr}
use mathlib.Core.List.{[], ◌∷◌}
use native.Mathlib.Omega.{arith}

-- The digits of `n` in front of those already printed. Fuel above `n` is enough.
unfoldable pub digits_onto : ℕ → ℕ → Bytes → Bytes
digits_onto zero n printed = printed
digits_onto (suc f) n printed =
    let rest = digits_onto f (n / 10) ((48 + n % 10) ∷ printed) in
    if ltb n 10 then (48 + n) ∷ printed else rest

unfoldable pub decimal : ℕ → Bytes
unfolding digits_onto
decimal n = digits_onto (suc n) n []

unfoldable pub decimal_int : ℤ → Bytes
unfolding decimal
decimal_int (pos n) = decimal n
decimal_int (negsuc n) = b'-' ∷ decimal (suc n)

abbrev pub IsDigit : ℕ → Type 0
IsDigit c = (48 ≤ c) × (c ≤ 57)

digits_onto-AreDigits :
    (f n : ℕ) (printed : Bytes) → All IsDigit printed → All IsDigit (digits_onto f n printed)
unfolding digits_onto
digits_onto-AreDigits zero n printed h = h
digits_onto-AreDigits (suc f) n printed h =
    ground (arith, digits_onto-AreDigits f (n / 10) ((48 + n % 10) ∷ printed))

pub decimal-AreDigits : (n : ℕ) → All IsDigit (decimal n)
unfolding decimal
decimal-AreDigits n = digits_onto-AreDigits (suc n) n [] tt

-- The value of a run of digits behind a value already read.
abbrev pub value_of : ℕ → Bytes → ℕ
value_of v [] = v
value_of v (c ∷ cs) = value_of (v * 10 + (c - 48)) cs

value_of-digits_onto :
    (f n : ℕ) (printed : Bytes) → n < f → value_of 0 (digits_onto f n printed) ≡ value_of n printed
unfolding digits_onto
value_of-digits_onto zero n printed h = absurd (omega arith)
value_of-digits_onto (suc f) n printed h = elim (Bool-cases (ltb n 10)) [
  | inl one ↦ rw one (ap (λ v. value_of v printed) (omega arith))
  | inr more ↦ rw more (
      value_of-digits_onto f (n / 10) ((48 + n % 10) ∷ printed) (ground arith)
      ∙ ap (λ v. value_of v printed) (omega arith))
]

pub value_of-decimal : (n : ℕ) → value_of 0 (decimal n) ≡ n
unfolding decimal
value_of-decimal n = value_of-digits_onto (suc n) n [] (omega arith)
