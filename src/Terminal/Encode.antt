-- ===== src/Terminal/Encode.antt =====
-- The encoder of guacamole/src/protocols/ssh/terminal_common.c and the one of
-- guacamole/src/libguac/unicode.c.
use occamy.Base.{
  ℕ, zero, suc, ◌+◌, ◌-◌, ◌*◌, ◌/◌, ◌≤◌, ◌≡◌, refl, arith, ltb, leb, bit_and, bit_or, [], ◌∷◌,
  if◌then◌else◌, ◌==◌,
}
use occamy.Base
use occamy.Unicode.{utf8_write, write_bytes, write_trailing}
use occamy.Terminal.{encode_utf8, store_bytes}

store_bytes-eq-write_trailing :
    (n mask codepoint : ℕ) (stored : Base.Bytes)
    → store_bytes n mask codepoint stored ≡ write_trailing n mask codepoint stored
unfolding store_bytes write_trailing
store_bytes-eq-write_trailing zero mask codepoint stored = refl
store_bytes-eq-write_trailing (suc n) mask codepoint stored =
    store_bytes-eq-write_trailing n mask (codepoint / 64)
      (bit_or 0x80 (bit_and codepoint 0x3f) ∷ stored)

-- The terminal's encoder stores the bytes that `guac_utf8_write` stores with room for four bytes or
-- more, for every codepoint, valid or not.
pub encode_utf8-eq-utf8_write :
    (codepoint room : ℕ) → 4 ≤ room → encode_utf8 codepoint ≡ utf8_write codepoint room
unfolding encode_utf8 utf8_write write_bytes
encode_utf8-eq-utf8_write codepoint room h = ground (
  arith,
  store_bytes-eq-write_trailing 0 0x00 codepoint [],
  store_bytes-eq-write_trailing 1 0xc0 codepoint [],
  store_bytes-eq-write_trailing 2 0xe0 codepoint [],
  store_bytes-eq-write_trailing 3 0xf0 codepoint [],
)
