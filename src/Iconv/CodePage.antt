-- ===== src/Iconv/CodePage.antt =====
-- CP-1252 as a reader and a writer (guacamole/src/common/iconv.c).
use occamy.Base.{
  ℕ, ◌+◌, ◌-◌, ◌<◌, ◌≡◌, ◌≢◌, refl, ap, ◌∙◌, sym, arith, ◌==◌, ==_iff, ltb, leb, ◌&&◌, ◌||◌, Bool,
  true, false, if◌then◌else◌, some, List, [], ◌∷◌, get_or, codes,
}
use occamy.Base
use occamy.Base.Bits.{all_below, all_below_sound}
use occamy.Iconv.{cp1252_codepoint, read_cp1252, write_cp1252, search_codepoint}

-- The characters of the bytes from 0x80 to 0x9f, the replacement character where there is none.
abbrev special : List ℕ
special = codes "€�‚ƒ„…†‡ˆ‰Š‹Œ�Ž��‘’“”•–—˜™š›œ�žŸ"

-- The character of a byte in code page 1252, as a codepoint: that of Latin-1 but for those bytes.
abbrev pub codepoint_of : ℕ → ℕ
codepoint_of byte =
    if leb 0x80 byte && leb byte 0x9f then get_or special (byte - 0x80) 0xfffd else byte

-- The codepoint that the reader finds for a byte.
abbrev looked_up : ℕ → ℕ
looked_up byte =
    if leb 0x80 byte && leb byte 0x9f then get_or cp1252_codepoint (byte - 0x80) byte else byte

is_read_right : ℕ → Bool
is_read_right byte = looked_up byte == codepoint_of byte

every_reading : all_below 256 is_read_right ≡ true
unfolding all_below is_read_right
every_reading = refl

looked_up_lem : (byte : ℕ) → byte < 256 → looked_up byte ≡ codepoint_of byte
unfolding is_read_right
looked_up_lem byte small =
    (==_iff (looked_up byte) (codepoint_of byte)).0
      (all_below_sound 256 is_read_right byte every_reading small)

-- The byte of a codepoint.
abbrev byte_of : ℕ → ℕ
byte_of value =
    if (leb 0x80 value && leb value 0x9f) || ltb 0xff value
    then search_codepoint cp1252_codepoint 0x80 value
    else value

-- A byte that stands for a character is written for it.
is_read_back : ℕ → Bool
is_read_back byte = codepoint_of byte == 0xfffd || byte_of (codepoint_of byte) == byte

every_byte : all_below 256 is_read_back ≡ true
unfolding all_below is_read_back search_codepoint
every_byte = refl

-- A byte that stands for a character of code page 1252 is read as that character's codepoint, and
-- the codepoint is written as that byte.
pub write_cp1252-read_cp1252 :
    (byte remaining : ℕ) (rest : Base.Bytes)
    → byte < 256
    → codepoint_of byte ≢ 0xfffd
    → (read_cp1252 (byte ∷ rest) ≡ (1, some (codepoint_of byte)))
      × (write_cp1252 remaining (codepoint_of byte) ≡ byte ∷ [])
unfolding read_cp1252 write_cp1252 is_read_back
write_cp1252-read_cp1252 byte remaining rest small defined =
    let back : is_read_back byte ≡ true = all_below_sound 256 is_read_back byte every_byte small in
    let same = of_back (codepoint_of byte == 0xfffd) _ back (λ e. defined ((==_iff _ _).0 e)) in
    (
      ap (λ value. (1, some value)) (looked_up_lem byte small),
      ap (λ b. b ∷ []) ((==_iff (byte_of (codepoint_of byte)) byte).0 same),
    )
  where
    of_back : (a b : Bool) → (a || b) ≡ true → (a ≢ true) → b ≡ true
    of_back true b h ne = absurd (ne refl)
    of_back false b h ne = h
