-- ===== src/Protocol/Decode.antt =====
-- `__guac_base64_value` and `guac_protocol_decode_base64`. The decoder overwrites its input in
-- place; a byte is stored only where all characters up to it have been read, so the model reads one
-- list and returns the bytes stored, whose number is the C return value. The `int` accumulator is
-- its bit pattern; the decoder only uses its low bits, where shifts of either kind agree.
use occamy.Base.{
  ℕ, ◌+◌, ◌-◌, ◌*◌, ◌/◌, ◌%◌, ◌^◌, ◌<◌, ◌≡◌, refl, arith, bit_and, bit_or, ◌==◌, ==_iff, leb, ltb,
  ◌&&◌, ◌||◌, Bool-cases, inl, inr, true, if◌then◌else◌, List, [], ◌∷◌, AreBytes,
}
use mathlib.Core.Path.{ap₂}
use occamy.Base
use occamy.Base.Bits.{all_below, all_below_sound, and_mask8, or_field6}
use occamy.Socket.{base64_char}
use occamy.Socket.Base64.{encode64}

-- `__guac_base64_value`
unfoldable pub base64_value : ℕ → ℕ
base64_value c =
    if leb b'A' c && leb c b'Z'
    then c - b'A'
    else if leb b'a' c && leb c b'z'
    then c - b'a' + 26
    else if leb b'0' c && leb c b'9'
    then c - b'0' + 52
    else if c == b'+'
    then 62
    else if c == b'/'
    then 63
    else 0

-- The loop of `guac_protocol_decode_base64`, from `bits_read` and `value` on.
unfoldable pub decode_from : Base.Bytes → ℕ → ℕ → Base.Bytes
decode_from [] bits_read value = []
decode_from (current ∷ input) bits_read value =
    let value' = bit_or (value * 64) (base64_value current) % 2 ^ 32 in
    let bits = bits_read + 6 in
    let whole = leb 8 bits in
    let rest = decode_from input (if whole then bits - 8 else bits) value' in
    if current == 0 || current == b'='
    then []
    else if whole
    then bit_and (value' / 2 ^ (bits % 8)) 0xff ∷ rest
    else rest

-- `guac_protocol_decode_base64`
unfoldable pub decode_base64 : Base.Bytes → Base.Bytes
decode_base64 base64 = decode_from base64 0 0

-- Each of the 64 characters has its index as its value, and is neither padding nor null.
char_table :
    all_below 64 (λ i.
      base64_value (base64_char i) == i
      && (ltb 0 (base64_char i) && ((if base64_char i == b'=' then 1 else 0) == 0)))
    ≡ true
unfolding all_below base64_value base64_char
char_table = refl

is_char :
    (i : ℕ)
    → i < 64
    → (base64_value (base64_char i) ≡ i)
      × ((base64_char i == 0 || base64_char i == b'=') ≡ Base.false)
is_char i h =
    let t =
      all_below_sound 64
        (λ i.
          base64_value (base64_char i) == i
          && (ltb 0 (base64_char i) && ((if base64_char i == b'=' then 1 else 0) == 0)))
        i char_table h in
    ground arith

-- One character of an encoding.
decode_from-char :
    (i : ℕ) (input : Base.Bytes) (bits value : ℕ)
    → i < 64
    → decode_from (base64_char i ∷ input) bits value ≡ (
        let v = (value * 64 + i) % 2 ^ 32 in
        if leb 8 (bits + 6)
        then v / 2 ^ ((bits + 6) % 8) % 256 ∷ decode_from input (bits + 6 - 8) v
        else decode_from input (bits + 6) v)
unfolding decode_from
decode_from-char i input bits value h =
    let (v, plain) = is_char i h in
    rw (plain, v, or_field6 value i h, and_mask8)
      (elim (Bool-cases (leb 8 (bits + 6))) [ inl whole ↦ rw whole | inr short ↦ rw short ])

decode_from-padding :
    (input : Base.Bytes) (bits value : ℕ) → decode_from (b'=' ∷ input) bits value ≡ []
unfolding decode_from
decode_from-padding input bits value = refl

decode_from-encode64 :
    (block : Base.Bytes) (value : ℕ) → AreBytes block → decode_from (encode64 block) 0 value ≡ block
decode_from-encode64 [] value h = unfold decode_from in refl
decode_from-encode64 (a ∷ []) value h =
    rw
      (
        decode_from-char (a / 4) _ 0 value (omega arith),
        decode_from-char (a % 4 * 16) _ 6 _ (omega arith),
        decode_from-padding,
      )
      (ap₂ ◌∷◌ (omega arith) refl)
decode_from-encode64 (a ∷ b ∷ []) value h =
    rw
      (
        decode_from-char (a / 4) _ 0 value (omega arith),
        decode_from-char (a % 4 * 16 + b / 16) _ 6 _ (omega arith),
        decode_from-char (b % 16 * 4) _ 4 _ (omega arith),
        decode_from-padding,
      )
      (ap₂ ◌∷◌ (omega arith) (ap₂ ◌∷◌ (omega arith) refl))
decode_from-encode64 (a ∷ b ∷ c ∷ rest) value h =
    rw
      (
        decode_from-char (a / 4) _ 0 value (omega arith),
        decode_from-char (a % 4 * 16 + b / 16) _ 6 _ (omega arith),
        decode_from-char (b % 16 * 4 + c / 64) _ 4 _ (omega arith),
        decode_from-char (c % 64) _ 2 _ (omega arith),
      )
      (ap₂ ◌∷◌ (omega arith)
        (ap₂ ◌∷◌ (omega arith) (ap₂ ◌∷◌ (omega arith) (decode_from-encode64 rest _ h.1.1.1))))

-- The decoder takes the base64 encoding of any block of bytes, which the socket's encoder writes,
-- back to that block, though its accumulator wraps around.
pub decode_base64-encode64 :
    (block : Base.Bytes) → AreBytes block → decode_base64 (encode64 block) ≡ block
unfolding decode_base64
decode_base64-encode64 block = decode_from-encode64 block 0
