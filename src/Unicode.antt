-- ===== src/Unicode.antt =====
-- guacamole/src/libguac/unicode.c: UTF-8 by hand. A byte is a number below 256 and a codepoint a
-- non-negative `int`. A write returns the bytes that it stores, in order, so that the C return
-- value is their number; a read returns the C return value and what it stores in `*codepoint`,
-- `none` where it stores nothing. A buffer of which `length` bytes may be read is a list with at
-- least that many.
mod Bytes
pub mod RoundTrip
pub mod Count
mod Tests
use occamy.Base.{
  ℕ, zero, suc, ◌+◌, ◌-◌, ◌*◌, ◌/◌, bit_and, bit_or, ◌==◌, leb, ltb, if◌then◌else◌, Option, none,
  some, List, [], ◌∷◌,
}
use occamy.Base
use occamy.Base.{length}

-- `guac_utf8_charsize`
unfoldable pub charsize : ℕ → ℕ
charsize c =
    if bit_or c 0x7f == 0x7f
    then 1
    else if bit_or c 0x1f == 0xdf
    then 2
    else if bit_or c 0x0f == 0xef
    then 3
    else if bit_or c 0x07 == 0xf7
    then 4
    else 1

-- The loop of `guac_utf8_strlen`, over what is left of the string; a null byte ends it.
unfoldable pub strlen_from : Base.Bytes → ℕ → ℕ → ℕ
strlen_from [] skip count = count
strlen_from (c ∷ str) skip count =
    let skipping = ltb 0 skip in
    let rest =
      strlen_from str (if skipping then skip - 1 else charsize c - 1)
        (if skipping then count else count + 1) in
    if c == 0 then count else rest

-- `guac_utf8_strlen`
unfoldable pub utf8_strlen : Base.Bytes → ℕ
utf8_strlen str = strlen_from str 0 0

-- The trailing bytes, stored from the last one backwards, and then the initial byte.
unfoldable pub write_trailing : ℕ → ℕ → ℕ → Base.Bytes → Base.Bytes
write_trailing zero mask codepoint stored = bit_or mask codepoint ∷ stored
write_trailing (suc i) mask codepoint stored =
    write_trailing i mask (codepoint / 64) (bit_or 0x80 (bit_and codepoint 0x3f) ∷ stored)

-- The room check, and the writing of `bytes` bytes.
unfoldable pub write_bytes : ℕ → ℕ → ℕ → ℕ → Base.Bytes
write_bytes mask bytes codepoint room =
    if ltb room bytes then [] else write_trailing (bytes - 1) mask codepoint []

-- `guac_utf8_write`, into a buffer with room for `room` bytes.
unfoldable pub utf8_write : ℕ → ℕ → Base.Bytes
utf8_write codepoint room =
    if room == 0
    then []
    else if leb codepoint 0x7f
    then write_bytes 0x00 1 codepoint room
    else if leb codepoint 0x7ff
    then write_bytes 0xc0 2 codepoint room
    else if leb codepoint 0xffff
    then write_bytes 0xe0 3 codepoint room
    else if leb codepoint 0x1fffff
    then write_bytes 0xf0 4 codepoint room
    else b'?' ∷ []

-- The loop over the trailing bytes.
unfoldable pub read_trailing : ℕ → ℕ → Base.Bytes → ℕ
read_trailing zero result utf8 = result
read_trailing (suc i) result [] = result
read_trailing (suc i) result (b ∷ utf8) =
    read_trailing i (bit_or (result * 64) (bit_and b 0x3f)) utf8

-- The room check, and the reading of the bytes after the initial one.
unfoldable pub read_bytes : ℕ → ℕ → ℕ → Base.Bytes → ℕ × Option ℕ
read_bytes result bytes room utf8 =
    if ltb room bytes then (0, none) else (bytes, some (read_trailing (bytes - 1) result utf8))

-- By the class of the initial byte.
unfoldable pub read_initial : ℕ → ℕ → Base.Bytes → ℕ × Option ℕ
read_initial initial room utf8 =
    if bit_or initial 0x7f == 0x7f
    then read_bytes initial 1 room utf8
    else if bit_or initial 0x1f == 0xdf
    then read_bytes (bit_and initial 0x1f) 2 room utf8
    else if bit_or initial 0x0f == 0xef
    then read_bytes (bit_and initial 0x0f) 3 room utf8
    else if bit_or initial 0x07 == 0xf7
    then read_bytes (bit_and initial 0x07) 4 room utf8
    else (1, some 0xfffd)

-- `guac_utf8_read`, of a buffer of which `room` bytes may be read.
unfoldable pub utf8_read : Base.Bytes → ℕ → ℕ × Option ℕ
utf8_read [] room = (0, none)
utf8_read (initial ∷ utf8) room = if room == 0 then (0, none) else read_initial initial room utf8
