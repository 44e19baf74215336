-- ===== src/Iconv/Tests.antt =====
-- Texts in CP-1252 and UTF-16, and the theorem there.
use occamy.Base.{
  ℕ, ◌+◌, ◌≤◌, ◌≡◌, ◌≢◌, refl, ap, ◌%◌, ◌/◌, arith, Bool, true, false, some, List, [], ◌∷◌, ◌++◌,
  length, leb, ltb, if◌then◌else◌, on_branches,
}
use occamy.Base
use occamy.Iconv.{iconv, read_cp1252, write_cp1252, write_utf16, read_iso8859_1}
use occamy.Iconv.CodePage.{codepoint_of, write_cp1252-read_cp1252}
use occamy.Iconv.Convert.{Converts, iconv-text}

abbrev wide : ℕ → Base.Bytes
wide value = value % 256 ∷ value / 256 % 256 ∷ []

room_for_two : (room : ℕ) → 2 ≤ room → ltb room 2 ≡ false
room_for_two room h = ground arith

-- A character of ISO 8859-1 becomes one of UTF-16.
one-Converts : (value : ℕ) → Converts read_iso8859_1 write_utf16 (λ v. v ∷ []) wide value
unfolding read_iso8859_1 write_utf16
one-Converts value = record {
  reads = λ rest. refl;
  some_read = omega arith;
  writes = λ room fits. ap (λ b. if b then [] else wide value) (room_for_two room fits);
  some_written = omega arith;
}

iconv-text_example :
    iconv 3 read_iso8859_1 write_utf16 (0x48 ∷ 0xe9 ∷ 0 ∷ 7 ∷ []) 6
    ≡ some (true, 0x48 ∷ 0 ∷ 0xe9 ∷ 0 ∷ 0 ∷ 0 ∷ [])
iconv-text_example =
    iconv-text read_iso8859_1 write_utf16 (λ v. v ∷ []) wide (0x48 ∷ 0xe9 ∷ []) 6 (7 ∷ [])
      ((one-Converts 0x48, λ e. omega (arith, e)), ((one-Converts 0xe9, λ e. omega (arith, e)), tt))
      (one-Converts 0) (omega arith)

write_cp1252-read_cp1252_example :
    (read_cp1252 (0x80 ∷ []) ≡ (1, some (codepoint_of 0x80)))
    × (write_cp1252 1 (codepoint_of 0x80) ≡ 0x80 ∷ [])
write_cp1252-read_cp1252_example =
    write_cp1252-read_cp1252 0x80 1 [] (omega arith) (λ e. omega (arith, e))
