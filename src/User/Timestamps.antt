-- ===== src/User/Timestamps.antt =====
-- guacamole/src/libguac/user-handlers.c: timestamps as they are written and read.
use occamy.Base.{
  ℕ, zero, suc, ◌+◌, ◌-◌, ◌*◌, ◌^◌, ◌≤◌, ◌<◌, min, ◌≡◌, ◌∙◌, refl, arith, ap, sym, ◌==◌, ltb,
  if◌then◌else◌, Bool-cases, inl, inr, Bool, true, false, not, List, [], ◌∷◌, All, on_branches,
}
use occamy.Base
use occamy.Base.Int.{ℤ, pos, negsuc, ◌+ℤ◌, ◌-ℤ◌, ◌*ℤ◌, wrap_int, neg_ℤ}
use occamy.Base.Decimal.{
  IsDigit, value_of, value_of-decimal, decimal, decimal_int, decimal-AreDigits,
}
use occamy.User.Lag.{char_value, parse_digits, parse_int}

-- Values that fit.
wrap64_lem : (n : ℕ) → n < 2 ^ 63 → wrap_int 64 (pos n) ≡ pos n
unfolding wrap_int
wrap64_lem n h = ground arith

pub wrap32_lem : (n : ℕ) → n < 2 ^ 31 → wrap_int 32 (pos n) ≡ pos n
unfolding wrap_int
wrap32_lem n h = ground arith

char_value_lem : (c : ℕ) → c < 128 → char_value c ≡ pos c
unfolding wrap_int
char_value_lem c h = ground arith

pub sub_lem : (a b : ℕ) → b ≤ a → pos a -ℤ pos b ≡ pos (a - b)
unfolding ◌-ℤ◌
sub_lem a b h = ground arith

add_lem : (a b : ℕ) → pos a +ℤ pos b ≡ pos (a + b)
unfolding ◌+ℤ◌
add_lem a b = ground arith

times_ten : (v : ℕ) → pos v *ℤ pos 10 ≡ pos (v * 10)
unfolding ◌*ℤ◌
times_ten v = ground arith

-- One digit behind the value read so far, where the result fits.
digit_lem :
    (v c : ℕ)
    → 48 ≤ c
    → c ≤ 57
    → v * 10 + (c - 48) < 2 ^ 63
    → wrap_int 64 (wrap_int 64 (pos v *ℤ pos 10) +ℤ (char_value c -ℤ pos 48))
      ≡ pos (v * 10 + (c - 48))
digit_lem v c low high fits =
    ap (λ x. wrap_int 64 (wrap_int 64 x +ℤ (char_value c -ℤ pos 48))) (times_ten v)
    ∙ ap (λ x. wrap_int 64 (x +ℤ (char_value c -ℤ pos 48))) (wrap64_lem (v * 10) (omega arith))
    ∙ ap (λ x. wrap_int 64 (pos (v * 10) +ℤ (x -ℤ pos 48))) (char_value_lem c (omega arith))
    ∙ ap (λ x. wrap_int 64 (pos (v * 10) +ℤ x)) (sub_lem c 48 low)
    ∙ ap (wrap_int 64) (add_lem (v * 10) (c - 48))
    ∙ wrap64_lem (v * 10 + (c - 48)) fits

value_of_le : (v : ℕ) (cs : Base.Bytes) → v ≤ value_of v cs
value_of_le v [] = omega arith
value_of_le v (c ∷ cs) = omega (arith, value_of_le (v * 10 + (c - 48)) cs)

abbrev signed : Bool → ℕ → ℤ
signed is_negative v = if is_negative then wrap_int 64 (neg_ℤ (pos v)) else pos v

parse_digits_lem :
    (cs : Base.Bytes) (is_negative : Bool) (v : ℕ)
    → All IsDigit cs
    → value_of v cs < 2 ^ 63
    → parse_digits cs is_negative (pos v) ≡ signed is_negative (value_of v cs)
unfolding parse_digits
parse_digits_lem [] is_negative v h fits = refl
parse_digits_lem (c ∷ cs) is_negative v h fits =
    let is_digit : (c == 45) ≡ false = ground (arith, h.0) in
    let fits_here : v * 10 + (c - 48) < 2 ^ 63 =
      omega (arith, value_of_le (v * 10 + (c - 48)) cs, fits) in
    rw (is_digit, digit_lem v c h.0.0 h.0.1 fits_here)
      (parse_digits_lem cs is_negative (v * 10 + (c - 48)) h.1 fits)

negative_lem : (n : ℕ) → n < 2 ^ 63 → signed true (suc n) ≡ negsuc n
unfolding wrap_int neg_ℤ ◌-ℤ◌
negative_lem n h = ground arith

-- The values that 64 bits hold.
abbrev pub IsInt64 : ℤ → Type 0
IsInt64 (pos n) = n < 2 ^ 63
IsInt64 (negsuc n) = suc n < 2 ^ 63

-- A number is read back as it was printed, if its absolute value is below 2 ^ 63.
pub parse_int-decimal_int : (z : ℤ) → IsInt64 z → parse_int (decimal_int z) ≡ z
unfolding parse_int decimal_int parse_digits
parse_int-decimal_int (pos n) h =
    let value = value_of-decimal n in
    parse_digits_lem (decimal n) false 0 (decimal-AreDigits n) (omega (arith, value, h))
    ∙ ap pos value
parse_int-decimal_int (negsuc n) h =
    let value = value_of-decimal (suc n) in
    parse_digits_lem (decimal (suc n)) true 0 (decimal-AreDigits (suc n)) (omega (arith, value, h))
    ∙ ap (signed true) value
    ∙ negative_lem n (omega (arith, h))
