-- ===== src/Iconv.antt =====
-- guacamole/src/common/iconv.c: the conversion of text between encodings, on a machine that stores the
-- low byte of an integer first. A reader gives the number of bytes that it takes, and the value, where
-- it sets one.
pub mod Convert
pub mod CodePage
mod Tests
use occamy.Base.{
  ℕ, zero, suc, ◌+◌, ◌-◌, ◌*◌, ◌/◌, ◌%◌, ◌==◌, ltb, leb, ◌&&◌, ◌||◌, Bool, true, false,
  if◌then◌else◌, Option, none, some, List, [], ◌∷◌, ◌++◌, length, get_or, drop,
}
use occamy.Base
use occamy.Unicode.{utf8_read, utf8_write}

-- `__GUAC_RDP_CP1252_CODEPOINT`
abbrev pub cp1252_codepoint : List ℕ
cp1252_codepoint =
    0x20ac ∷ 0xfffd ∷ 0x201a ∷ 0x0192 ∷ 0x201e ∷ 0x2026 ∷ 0x2020 ∷ 0x2021 ∷ 0x02c6 ∷ 0x2030 ∷ 0x0160
    ∷ 0x2039 ∷ 0x0152 ∷ 0xfffd ∷ 0x017d ∷ 0xfffd ∷ 0xfffd ∷ 0x2018 ∷ 0x2019 ∷ 0x201c ∷ 0x201d
    ∷ 0x2022 ∷ 0x2013 ∷ 0x2014 ∷ 0x02dc ∷ 0x2122 ∷ 0x0161 ∷ 0x203a ∷ 0x0153 ∷ 0xfffd ∷ 0x017e
    ∷ 0x0178 ∷ []

-- `guac_iconv_read`
abbrev pub Reader : Type 0
Reader = Base.Bytes → ℕ × Option ℕ

-- `guac_iconv_write`: the bytes that are written, for so much room and a value.
abbrev pub Writer : Type 0
Writer = ℕ → ℕ → Base.Bytes

-- `GUAC_READ_UTF8`; where guac_utf8_read stores no value, none is set.
unfoldable pub read_utf8 : Reader
read_utf8 input = utf8_read input (length input)

-- `GUAC_READ_UTF16`
unfoldable pub read_utf16 : Reader
read_utf16 (low ∷ high ∷ input) = (2, some (low + 256 * high))
read_utf16 _ = (0, some 0)

-- `GUAC_READ_CP1252`
unfoldable pub read_cp1252 : Reader
read_cp1252 [] = (0, none)
read_cp1252 (value ∷ input) = (
  1,
  some (
      if leb 0x80 value && leb value 0x9f
      then get_or cp1252_codepoint (value - 0x80) value
      else value),
)

-- `GUAC_READ_ISO8859_1`
unfoldable pub read_iso8859_1 : Reader
read_iso8859_1 [] = (0, none)
read_iso8859_1 (value ∷ input) = (1, some value)

-- `GUAC_WRITE_UTF8`
unfoldable pub write_utf8 : Writer
write_utf8 remaining value = utf8_write value remaining

-- `GUAC_WRITE_UTF16`
unfoldable pub write_utf16 : Writer
write_utf16 remaining value = if ltb remaining 2 then [] else value % 256 ∷ value / 256 % 256 ∷ []

-- The search of the lookup table, from an index on.
unfoldable pub search_codepoint : List ℕ → ℕ → ℕ → ℕ
search_codepoint [] i value = b'?'
search_codepoint (codepoint ∷ codepoints) i value =
    let rest = search_codepoint codepoints (i + 1) value in if codepoint == value then i else rest

-- `GUAC_WRITE_CP1252`
unfoldable pub write_cp1252 : Writer
write_cp1252 remaining value =
    (if (leb 0x80 value && leb value 0x9f) || ltb 0xff value
      then search_codepoint cp1252_codepoint 0x80 value
      else value)
    ∷ []

-- `GUAC_WRITE_ISO8859_1`
unfoldable pub write_iso8859_1 : Writer
write_iso8859_1 remaining value = (if ltb 0xff value then b'?' else value) ∷ []

-- What is written in front of the rest.
abbrev pub behind : Base.Bytes → Option (Bool × Base.Bytes) → Option (Bool × Base.Bytes)
behind output none = none
behind output (some (terminated, rest)) = some (terminated, output ++ rest)

-- `guac_iconv`: whether the null terminator is reached, and the bytes written; `none` where a value is
-- used that no one has set. A reader takes a byte at least, or the loop ends, so as much fuel as bytes
-- is enough.
unfoldable pub iconv : ℕ → Reader → Writer → Base.Bytes → ℕ → Option (Bool × Base.Bytes)
iconv fuel reader writer [] out_remaining = some (false, [])
iconv zero reader writer (x ∷ input) out_remaining = none
iconv (suc fuel) reader writer (x ∷ input) out_remaining =
    let (taken, read) = reader (x ∷ input) in
    let value = elim read as (λ _. ℕ) [ none ↦ 0 | some v ↦ v ] in
    let output = writer out_remaining value in
    let rest = iconv fuel reader writer (drop taken (x ∷ input)) (out_remaining - length output) in
    if out_remaining == 0 then some (false, []) else elim read [
      | none ↦ none
      | some v ↦ if v == 0 then some (true, output) else behind output rest
    ]
