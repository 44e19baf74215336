-- ===== src/Unicode/Tests.antt =====
-- The UTF-8 functions at concrete inputs, and the theorems at inputs that meet their hypotheses.
use occamy.Base.{
  ℕ, ◌+◌, ◌≤◌, ◌<◌, ◌≡◌, ◌↔◌, refl, arith, none, some, [], ◌∷◌, ◌++◌, length, List, if◌then◌else◌,
  leb,
}
use occamy.Base
use occamy.Unicode.{
  charsize, utf8_strlen, utf8_write, write_bytes, write_trailing, utf8_read, read_initial,
  read_bytes, read_trailing,
}
use occamy.Unicode.RoundTrip.{read-write, utf8_read_progress}
use occamy.Unicode.Count.{utf8_strlen-join}

-- The euro sign.
write_euro : utf8_write 0x20ac 8 ≡ 0xe2 ∷ 0x82 ∷ 0xac ∷ []
unfolding utf8_write write_bytes write_trailing
write_euro = refl

write_no_room : utf8_write 0x20ac 2 ≡ []
unfolding utf8_write write_bytes
write_no_room = refl

read_euro : utf8_read (0xe2 ∷ 0x82 ∷ 0xac ∷ 0x41 ∷ []) 4 ≡ (3, some 0x20ac)
unfolding utf8_read read_initial read_bytes read_trailing
read_euro = refl

read_cut : utf8_read (0xe2 ∷ 0x82 ∷ []) 2 ≡ (0, none)
unfolding utf8_read read_initial read_bytes
read_cut = refl

abbrev euro_a : List Base.Bytes
euro_a = (0xe2 ∷ 0x82 ∷ 0xac ∷ []) ∷ (0x41 ∷ []) ∷ []

read-write_example :
    utf8_read (utf8_write 0x20ac 8 ++ (0x41 ∷ [])) 4 ≡ (length (utf8_write 0x20ac 8), some 0x20ac)
read-write_example = read-write 0x20ac 8 4 (0x41 ∷ []) (omega arith) (omega arith) (omega arith)

utf8_read_progress_example :
    (let (taken, codepoint) = utf8_read (0xe2 ∷ 0x82 ∷ []) 2 in
      (taken ≤ 2)
      × ((taken ≡ 0) ↔ (2 < charsize 0xe2))
      × ((codepoint ≡ none) ↔ (2 < charsize 0xe2)))
utf8_read_progress_example = utf8_read_progress 0xe2 2 (0x82 ∷ []) (omega arith)

utf8_strlen-join_example : utf8_strlen (0xe2 ∷ 0x82 ∷ 0xac ∷ 0x41 ∷ []) ≡ 2
utf8_strlen-join_example = utf8_strlen-join euro_a (omega arith)
