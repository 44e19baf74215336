-- ===== src/Unicode/Count.antt =====
-- Texts as sequences of whole characters, each as long as UTF-8 says of its first byte, and their
-- count (guacamole/src/libguac/unicode.c).
use occamy.Base.{
  ℕ, zero, suc, ◌+◌, ◌-◌, ◌≤◌, ◌<◌, ◌≡◌, ◌≢◌, refl, ap, sym, ◌∙◌, arith, List, [], ◌∷◌, ◌++◌,
  length, All, map, append_assoc, ltb, Bool-cases, inl, inr, ◌/◌,
}
use occamy.Base
use occamy.Unicode.{charsize, strlen_from, utf8_strlen}
use occamy.Unicode.Bytes.{charsize_lem, encode, lead_size}

-- One character: a first byte and the bytes that it calls for by the ranges of UTF-8, none of them
-- null. A byte that begins no character of UTF-8 stands alone.
abbrev pub IsChar : Base.Bytes → Type 0
IsChar [] = ⊥
IsChar (c ∷ trailing) =
    (suc (length trailing) ≡ lead_size c)
    × (c ≢ 0)
    × (c < 256)
    × All (λ b. (b ≢ 0) × (b < 256)) trailing

-- The code finds the size of a whole character.
pub charsize_whole :
    (c : ℕ) (trailing : Base.Bytes) → IsChar (c ∷ trailing) → suc (length trailing) ≡ charsize c
charsize_whole c trailing h = h.0 ∙ sym (charsize_lem c h.2)

abbrev pub join : List Base.Bytes → Base.Bytes
join [] = []
join (ch ∷ text) = ch ++ join text

-- Skipping runs over the bytes behind a lead byte.
strlen_from-skip :
    (trailing str : Base.Bytes) (count : ℕ)
    → All (λ b. (b ≢ 0) × (b < 256)) trailing
    → strlen_from (trailing ++ str) (length trailing) count ≡ strlen_from str 0 count
unfolding strlen_from
strlen_from-skip [] str count h = refl
strlen_from-skip (b ∷ trailing) str count h =
    ground (arith, strlen_from-skip trailing str count h.1)

strlen_from-char :
    (ch str : Base.Bytes) (count : ℕ)
    → IsChar ch
    → strlen_from (ch ++ str) 0 count ≡ strlen_from str 0 (count + 1)
unfolding strlen_from
strlen_from-char [] str count h = elim h [ ]
strlen_from-char (c ∷ trailing) str count h =
    let e : charsize c - 1 ≡ length trailing = omega (arith, charsize_whole c trailing h) in
    ground (arith, e, strlen_from-skip trailing str (count + 1) h.3)

strlen_from-join :
    (text : List Base.Bytes) (count : ℕ)
    → All IsChar text
    → strlen_from (join text) 0 count ≡ count + length text
strlen_from-join [] count h = unfold strlen_from in omega arith
strlen_from-join (ch ∷ text) count h =
    strlen_from-char ch (join text) count h.0 ∙ strlen_from-join text (count + 1) h.1 ∙ omega arith

-- `guac_utf8_strlen` of a string of whole characters, each as long as the ranges of UTF-8 say of its
-- first byte, is the number of its characters.
pub utf8_strlen-join :
    (text : List Base.Bytes) → All IsChar text → utf8_strlen (join text) ≡ length text
unfolding utf8_strlen
utf8_strlen-join text h = strlen_from-join text 0 h ∙ omega arith

encode-IsChar : (cp : ℕ) → cp ≢ 0 → cp < 0x200000 → IsChar (encode cp)
encode-IsChar cp ne h = elim (Bool-cases (ltb cp 0x80)) [
  | inl one ↦ rw one (ground arith, ne, ground arith, tt)
  | inr more ↦ elim (Bool-cases (ltb cp 0x800)) [
    | inl two ↦ rw (more, two) (ground arith, ground arith, ground arith, ground arith)
    | inr more' ↦ elim (Bool-cases (ltb cp 0x10000)) [
      | inl three ↦ rw (more, more', three) (ground arith, ground arith, ground arith, ground arith)
      | inr four ↦ rw (more, more', four) (ground arith, ground arith, ground arith, ground arith)
    ]
  ]
]
