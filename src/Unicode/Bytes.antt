-- ===== src/Unicode/Bytes.antt =====
-- The bit tests and masks of unicode.c as ranges and sums.
use occamy.Base.{
  ℕ, ◌+◌, ◌*◌, ◌/◌, ◌%◌, ◌≤◌, ◌<◌, ◌≡◌, refl, arith, bit_and, bit_or, Bool, true, false, ◌&&◌, not,
  ◌==◌, leb, ltb, if◌then◌else◌, List, [], ◌∷◌, length, ◌↔◌,
}
use occamy.Base.Bits.{
  all_below, all_below_sound, and_mask6, or_field3, or_field4, or_field5, or_field6, zero-bit_or,
}
use occamy.Base
use occamy.Unicode.{charsize, utf8_write, write_bytes, write_trailing}

same : Bool → Bool → Bool
same true b = b
same false b = not b

same→eq : (a b : Bool) → same a b ≡ true → a ≡ b
unfolding same
same→eq true b h = ground arith
same→eq false b h = ground arith

-- A test of a byte that agrees with another on all 256 values.
by_table :
    (f g : ℕ → Bool) → all_below 256 (λ x. same (f x) (g x)) ≡ true → (c : ℕ) → c < 256 → f c ≡ g c
by_table f g table c h = same→eq (f c) (g c) (all_below_sound 256 _ c table h)

pub is_ascii : (c : ℕ) → c < 256 → (bit_or c 0x7f == 0x7f) ≡ ltb c 128
unfolding all_below same
is_ascii = by_table (λ c. bit_or c 0x7f == 0x7f) (λ c. ltb c 128) refl

pub is_lead2 : (c : ℕ) → c < 256 → (bit_or c 0x1f == 0xdf) ≡ (leb 192 c && ltb c 224)
unfolding all_below same
is_lead2 = by_table (λ c. bit_or c 0x1f == 0xdf) (λ c. leb 192 c && ltb c 224) refl

pub is_lead3 : (c : ℕ) → c < 256 → (bit_or c 0x0f == 0xef) ≡ (leb 224 c && ltb c 240)
unfolding all_below same
is_lead3 = by_table (λ c. bit_or c 0x0f == 0xef) (λ c. leb 224 c && ltb c 240) refl

pub is_lead4 : (c : ℕ) → c < 256 → (bit_or c 0x07 == 0xf7) ≡ (leb 240 c && ltb c 248)
unfolding all_below same
is_lead4 = by_table (λ c. bit_or c 0x07 == 0xf7) (λ c. leb 240 c && ltb c 248) refl

-- What UTF-8 says of a lead byte.
abbrev pub lead_size : ℕ → ℕ
lead_size c =
    if ltb c 192
    then 1
    else if ltb c 224
    then 2
    else if ltb c 240
    then 3
    else if ltb c 248
    then 4
    else 1

pub charsize_lem : (c : ℕ) → c < 256 → charsize c ≡ lead_size c
unfolding charsize
charsize_lem c h = ground (arith, is_ascii c h, is_lead2 c h, is_lead3 c h, is_lead4 c h)

pub trail : (cp : ℕ) → bit_or 0x80 (bit_and cp 0x3f) ≡ 128 + cp % 64
trail cp = omega (arith, or_field6 2 (bit_and cp 0x3f), and_mask6 cp)

-- The number of bytes of a codepoint.
abbrev pub char_size : ℕ → ℕ
char_size cp =
    if ltb cp 0x80 then 1 else if ltb cp 0x800 then 2 else if ltb cp 0x10000 then 3 else 4

-- The UTF-8 bytes of a codepoint, by division.
abbrev pub encode : ℕ → Base.Bytes
encode cp =
    if ltb cp 0x80
    then cp ∷ []
    else if ltb cp 0x800
    then (192 + cp / 64) ∷ (128 + cp % 64) ∷ []
    else if ltb cp 0x10000
    then (224 + cp / 64 / 64) ∷ (128 + cp / 64 % 64) ∷ (128 + cp % 64) ∷ []
    else (240 + cp / 64 / 64 / 64)
      ∷ (128 + cp / 64 / 64 % 64)
      ∷ (128 + cp / 64 % 64)
      ∷ (128 + cp % 64)
      ∷ []

pub utf8_write-eq-encode :
    (cp room : ℕ) → cp < 0x200000 → char_size cp ≤ room → utf8_write cp room ≡ encode cp
unfolding utf8_write write_bytes write_trailing
utf8_write-eq-encode cp room h fits = ground (
  arith,
  zero-bit_or cp,
  trail cp,
  trail (cp / 64),
  trail (cp / 64 / 64),
  or_field5 6 (cp / 64),
  or_field4 14 (cp / 64 / 64),
  or_field3 30 (cp / 64 / 64 / 64),
)

pub length-encode : (cp : ℕ) → length (encode cp) ≡ char_size cp
length-encode cp = ground arith
