-- ===== src/Unicode/RoundTrip.antt =====
-- Reading back what was written, and the room that writing and reading respect.
use occamy.Base.{
  ℕ, ◌+◌, ◌*◌, ◌/◌, ◌%◌, ◌≤◌, ◌<◌, ◌≡◌, refl, arith, bit_and, bit_or, ◌&&◌, leb, ltb, if◌then◌else◌,
  Option, none, some, List, [], ◌∷◌, ◌++◌, length, ◌↔◌,
}
use occamy.Base
use occamy.Base.Bits.{and_mask3, and_mask4, and_mask5, and_mask6, or_field6}
use occamy.Unicode.{charsize, utf8_write, utf8_read, read_initial, read_bytes, read_trailing}
use occamy.Unicode.Bytes.{
  is_ascii, is_lead2, is_lead3, is_lead4, charsize_lem, char_size, utf8_write-eq-encode,
}

join : (q c : ℕ) → bit_or (q * 64) (bit_and c 0x3f) ≡ q * 64 + c % 64
join q c = omega (arith, or_field6 q (bit_and c 0x3f), and_mask6 c)

-- The dispatch of the reader, with its tests as ranges and its masks as remainders.
read_initial_lem :
    (c room : ℕ) (utf8 : Base.Bytes)
    → c < 256
    → read_initial c room utf8 ≡ (
        if ltb c 128
        then read_bytes c 1 room utf8
        else if leb 192 c && ltb c 224
        then read_bytes (c % 32) 2 room utf8
        else if leb 224 c && ltb c 240
        then read_bytes (c % 16) 3 room utf8
        else if leb 240 c && ltb c 248
        then read_bytes (c % 8) 4 room utf8
        else (1, some 0xfffd))
unfolding read_initial
read_initial_lem c room utf8 h =
    rw (is_ascii c h, is_lead2 c h, is_lead3 c h, is_lead4 c h, and_mask5, and_mask4, and_mask3)

module _ (cp room : ℕ) (rest : Base.Bytes) where
  read_one : cp < 0x80 → 1 ≤ room → utf8_read (cp ∷ rest) room ≡ (1, some cp)
  unfolding utf8_read read_bytes read_trailing
  read_one h fits = ground (arith, read_initial_lem cp room rest)

  read_two :
      0x80 ≤ cp
      → cp < 0x800
      → 2 ≤ room
      → utf8_read ((192 + cp / 64) ∷ (128 + cp % 64) ∷ rest) room ≡ (2, some cp)
  unfolding utf8_read read_bytes read_trailing
  read_two lo h fits = ground (
    arith,
    read_initial_lem (192 + cp / 64) room ((128 + cp % 64) ∷ rest),
    join ((192 + cp / 64) % 32) (128 + cp % 64),
  )

  read_three :
      0x800 ≤ cp
      → cp < 0x10000
      → 3 ≤ room
      → utf8_read ((224 + cp / 64 / 64) ∷ (128 + cp / 64 % 64) ∷ (128 + cp % 64) ∷ rest) room
        ≡ (3, some cp)
  unfolding utf8_read read_bytes read_trailing
  read_three lo h fits = ground (
    arith,
    read_initial_lem (224 + cp / 64 / 64) room ((128 + cp / 64 % 64) ∷ (128 + cp % 64) ∷ rest),
    join ((224 + cp / 64 / 64) % 16) (128 + cp / 64 % 64),
    join (cp / 64) (128 + cp % 64),
  )

  read_four :
      0x10000 ≤ cp
      → cp < 0x200000
      → 4 ≤ room
      → utf8_read
          ((240 + cp / 64 / 64 / 64)
            ∷ (128 + cp / 64 / 64 % 64)
            ∷ (128 + cp / 64 % 64)
            ∷ (128 + cp % 64)
            ∷ rest)
          room
        ≡ (4, some cp)
  unfolding utf8_read read_bytes read_trailing
  read_four lo h fits = ground (
    arith,
    read_initial_lem (240 + cp / 64 / 64 / 64) room
        ((128 + cp / 64 / 64 % 64) ∷ (128 + cp / 64 % 64) ∷ (128 + cp % 64) ∷ rest),
    join ((240 + cp / 64 / 64 / 64) % 8) (128 + cp / 64 / 64 % 64),
    join (cp / 64 / 64) (128 + cp / 64 % 64),
    join (cp / 64) (128 + cp % 64),
  )

-- Every codepoint of at most 21 bits, written into a buffer with room for its bytes and read back
-- from a buffer that holds them, with any bytes behind, is read as that codepoint, and the reader
-- takes exactly the bytes written.
pub read-write :
    (cp room room' : ℕ) (rest : Base.Bytes)
    → cp < 0x200000
    → char_size cp ≤ room
    → char_size cp ≤ room'
    → utf8_read (utf8_write cp room ++ rest) room' ≡ (length (utf8_write cp room), some cp)
read-write cp room room' rest h fits fits' = rw (utf8_write-eq-encode cp room h fits) (
    ground (
      arith,
      read_one cp room' rest,
      read_two cp room' rest,
      read_three cp room' rest,
      read_four cp room' rest,
    ))

-- Reading takes no more bytes than the buffer has. It takes none only at an empty buffer or a
-- character that is cut off, and then, and only then, it stores no codepoint.
pub utf8_read_progress :
    (c room : ℕ) (utf8 : Base.Bytes)
    → c < 256
    → (let (taken, codepoint) = utf8_read (c ∷ utf8) room in
        (taken ≤ room)
        × ((taken ≡ 0) ↔ (room < charsize c))
        × ((codepoint ≡ none) ↔ (room < charsize c)))
unfolding utf8_read read_bytes
utf8_read_progress c room utf8 h = ground (arith, read_initial_lem c room utf8, charsize_lem c)
