-- ===== src/Iconv/Convert.antt =====
-- The conversion of a whole text (guacamole/src/common/iconv.c).
use occamy.Base.{
  ℕ, zero, suc, ◌+◌, ◌-◌, ◌≤◌, ◌≡◌, ◌≢◌, refl, sym, ap, ◌∙◌, arith, ◌==◌, Bool, true, false,
  if◌then◌else◌, Option, none, some, List, [], ◌∷◌, ◌++◌, append_assoc, length, length-append, drop,
  drop-length, All, on_branches,
}
use occamy.Base
use occamy.Iconv.{Reader, Writer, iconv, behind}

-- The text of some values, in an encoding.
abbrev pub text : (ℕ → Base.Bytes) → List ℕ → Base.Bytes
text encode [] = []
text encode (value ∷ values) = encode value ++ text encode values

-- A reader and a writer agree with two encodings on a value: the reader takes its bytes, of which there
-- is one at least, with any bytes behind, and the writer stores its bytes where there is room for them.
pub record Converts (reader : Reader) (writer : Writer) (encode decode : ℕ → Base.Bytes) (value : ℕ)
    : Type 0 where
  pub reads :
      (rest : Base.Bytes) → reader (encode value ++ rest) ≡ (length (encode value), some value)
  pub some_read : 1 ≤ length (encode value)
  pub writes : (room : ℕ) → length (decode value) ≤ room → writer room value ≡ decode value
  pub some_written : 1 ≤ length (decode value)

no_bytes : (xs ys : Base.Bytes) → 1 ≤ length xs → [] ≡ xs ++ ys → ⊥
no_bytes [] ys h e = omega (arith, h)
no_bytes (x ∷ xs) ys h e = cc

is_positive : (n : ℕ) → 1 ≤ n → (n == 0) ≡ false
is_positive n h = ground arith

not_zero : (n : ℕ) → n ≢ 0 → (n == 0) ≡ false
not_zero n h = ground arith

module _ (reader : Reader) (writer : Writer) (encode decode : ℕ → Base.Bytes) where
  -- One round of the loop.
  round :
      (fuel value room : ℕ) (input rest : Base.Bytes)
      → Converts reader writer encode decode value
      → input ≡ encode value ++ rest
      → length (decode value) ≤ room
      → iconv (suc fuel) reader writer input room ≡ (
          if value == 0
          then some (true, decode value)
          else behind (decode value) (iconv fuel reader writer rest (room - length (decode value))))
  unfolding iconv
  round fuel value room [] rest c e fits = absurd (no_bytes (encode value) rest c.some_read e)
  round fuel value room (x ∷ input) rest c e fits =
      let p : reader (x ∷ input) ≡ (length (encode value), some value) =
        ap reader e ∙ c.reads rest in
      let q : drop (length (encode value)) (x ∷ input) ≡ rest =
        ap (drop (length (encode value))) e ∙ drop-length (encode value) rest in
      let w = c.writes room fits in
      let some_room : (room == 0) ≡ false = is_positive room (omega (arith, c.some_written)) in
      let result : ℕ × Option ℕ → Option (Bool × Base.Bytes) = λ r.
        let v = elim r.1 as (λ _. ℕ) [ none ↦ 0 | some v ↦ v ] in
        let output = writer room v in
        let behind_it = iconv fuel reader writer (drop r.0 (x ∷ input)) (room - length output) in
        if room == 0 then some (false, []) else elim r.1 [
          | none ↦ none
          | some v ↦ if v == 0 then some (true, output) else behind output behind_it
        ] in
      ap result p ∙ rw (some_room, w, q)

  -- Where the reader and the writer agree with two encodings on some values, none of them null, and on
  -- the null value, the text of the values with a null behind is converted whole into its text in the
  -- other encoding, whatever follows it, if there is room for that: as many rounds as values and one
  -- more are enough.
  pub iconv-text :
      (values : List ℕ) (room : ℕ) (rest : Base.Bytes)
      → All (λ v. Converts reader writer encode decode v × (v ≢ 0)) values
      → Converts reader writer encode decode 0
      → length (text decode values ++ decode 0) ≤ room
      → iconv (length values + 1) reader writer (text encode values ++ (encode 0 ++ rest)) room
        ≡ some (true, text decode values ++ decode 0)
  iconv-text [] room rest h null fits = round 0 0 room _ rest null refl fits
  iconv-text (value ∷ values) room rest ((c, ne), h) null fits =
      let whole = length-append (decode value) (text decode values) in
      let all = length-append (decode value ++ text decode values) (decode 0) in
      let parts = length-append (text decode values) (decode 0) in
      let left = room - length (decode value) in
      let tail = text encode values ++ (encode 0 ++ rest) in
      let r =
        round (length values + 1) value room
          ((encode value ++ text encode values) ++ (encode 0 ++ rest)) tail c
          (append_assoc (encode value) (text encode values) (encode 0 ++ rest))
          (omega (arith, whole, all, fits)) in
      let again = iconv-text values left rest h null (omega (arith, whole, all, parts, fits)) in
      let fuel : length (value ∷ values) + 1 ≡ suc (length values + 1) = omega arith in
      ap
        (λ n.
          iconv n reader writer ((encode value ++ text encode values) ++ (encode 0 ++ rest)) room)
        fuel
      ∙ r
      ∙ ap
          (λ b.
            if b
            then some (true, decode value)
            else behind (decode value) (iconv (length values + 1) reader writer tail left))
          (not_zero value ne)
      ∙ ap (behind (decode value)) again
      ∙ ap (λ t. some (true, t)) (sym (append_assoc (decode value) (text decode values) (decode 0)))
