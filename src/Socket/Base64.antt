-- ===== src/Socket/Base64.antt =====
-- The base64 encoder against the encoding of whole blocks.
use occamy.Base.{
  ℕ, ◌+◌, ◌*◌, ◌/◌, ◌%◌, ◌<◌, ◌≡◌, refl, arith, bit_and, bit_or, ◌==◌, ==_iff, some, none, [], ◌∷◌,
}
use occamy.Base
use occamy.Base.Bits.{
  all_below, all_below_sound, and_mask2, and_mask4, and_mask6, or_field2, or_field4,
}
use occamy.Socket.{base64_char, triplet_output}

-- The base64 encoding of a block: four characters for three bytes, and padding.
abbrev pub encode64 : Base.Bytes → Base.Bytes
encode64 [] = []
encode64 (a ∷ []) = base64_char (a / 4) ∷ base64_char (a % 4 * 16) ∷ b'=' ∷ b'=' ∷ []
encode64 (a ∷ b ∷ []) =
    base64_char (a / 4) ∷ base64_char (a % 4 * 16 + b / 16) ∷ base64_char (b % 16 * 4) ∷ b'=' ∷ []
encode64 (a ∷ b ∷ c ∷ rest) =
    base64_char (a / 4)
    ∷ base64_char (a % 4 * 16 + b / 16)
    ∷ base64_char (b % 16 * 4 + c / 64)
    ∷ base64_char (c % 64)
    ∷ encode64 rest

high6 : (a : ℕ) → a < 256 → bit_and a 0xfc / 4 ≡ a / 4
unfolding all_below
high6 a h = (==_iff _ _).0 (all_below_sound 256 (λ x. bit_and x 0xfc / 4 == x / 4) a refl h)

high4 : (b : ℕ) → b < 256 → bit_and b 0xf0 / 16 ≡ b / 16
unfolding all_below
high4 b h = (==_iff _ _).0 (all_below_sound 256 (λ x. bit_and x 0xf0 / 16 == x / 16) b refl h)

high2 : (c : ℕ) → c < 256 → bit_and c 0xc0 / 64 ≡ c / 64
unfolding all_below
high2 c h = (==_iff _ _).0 (all_below_sound 256 (λ x. bit_and x 0xc0 / 64 == x / 64) c refl h)

middle :
    (a b : ℕ) → b < 256 → bit_or (bit_and a 0x03 * 16) (bit_and b 0xf0 / 16) ≡ a % 4 * 16 + b / 16
middle a b h = rw (and_mask2, high4 b h) (or_field4 (a % 4) (b / 16) (omega arith))

middle' :
    (b c : ℕ) → c < 256 → bit_or (bit_and b 0x0f * 4) (bit_and c 0xc0 / 64) ≡ b % 16 * 4 + c / 64
middle' b c h = rw (and_mask4, high2 c h) (or_field2 (b % 16) (c / 64) (omega arith))

-- The three shapes of a triplet.
pub triplet_one : (a : ℕ) → a < 256 → triplet_output a none none ≡ encode64 (a ∷ [])
unfolding triplet_output
triplet_one a h = rw (high6 a h, and_mask2)

pub triplet_two :
    (a b : ℕ) → a < 256 → b < 256 → triplet_output a (some b) none ≡ encode64 (a ∷ b ∷ [])
unfolding triplet_output
triplet_two a b h k = rw (high6 a h, middle a b k, and_mask4)

pub triplet_three :
    (a b c : ℕ)
    → a < 256
    → b < 256
    → c < 256
    → triplet_output a (some b) (some c) ≡ encode64 (a ∷ b ∷ c ∷ [])
unfolding triplet_output
triplet_three a b c h k l = rw (high6 a h, middle a b k, middle' b c l, and_mask6)
