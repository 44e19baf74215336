-- ===== src/Terminal.antt =====
-- guacamole/src/protocols/ssh/terminal_common.c: helpers of the terminal emulator. A codepoint is a
-- non-negative `int`; an encoded one is the list of the bytes stored, whose number is returned.
pub mod Encode
pub mod Char
pub mod Buffer
pub mod Screen
pub mod Scroll
pub mod CharMappings
pub mod State
pub mod Pipe
pub mod Tabs
pub mod Echo
pub mod Escape
pub mod Graphics
pub mod Cases
pub mod Csi
pub mod Osc
pub mod Write
pub mod Bounds
pub mod Cursor
pub mod Sequences
pub mod Rows
pub mod Parameters
pub mod CsiStatics
pub mod Moves
mod Tests
use occamy.Base.{
  ℕ, zero, suc, ◌+◌, ◌-◌, ◌*◌, ◌/◌, bit_and, bit_or, ltb, leb, if◌then◌else◌, [], ◌∷◌,
}
use occamy.Base

-- The stores of `guac_terminal_encode_utf8`: the trailing bytes from the last one backwards, and
-- then the initial byte.
unfoldable pub store_bytes : ℕ → ℕ → ℕ → Base.Bytes → Base.Bytes
store_bytes zero mask codepoint stored = bit_or mask codepoint ∷ stored
store_bytes (suc i) mask codepoint stored =
    store_bytes i mask (codepoint / 64) (bit_or 0x80 (bit_and codepoint 0x3f) ∷ stored)

-- `guac_terminal_encode_utf8`
unfoldable pub encode_utf8 : ℕ → Base.Bytes
encode_utf8 codepoint =
    if leb codepoint 0x7f
    then store_bytes 0 0x00 codepoint []
    else if leb codepoint 0x7ff
    then store_bytes 1 0xc0 codepoint []
    else if leb codepoint 0xffff
    then store_bytes 2 0xe0 codepoint []
    else if leb codepoint 0x1fffff
    then store_bytes 3 0xf0 codepoint []
    else b'?' ∷ []
