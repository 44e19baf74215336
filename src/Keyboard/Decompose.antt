-- ===== src/Keyboard/Decompose.antt =====
-- guacamole/src/protocols/rdp/decompose.c: the characters that are typed with a dead key.
use occamy.Base.{
  ℕ, ◌≤◌, ◌<◌, ◌≡◌, ◌≢◌, ◌⊎◌, refl, arith, ◌==◌, leb, ltb, if◌then◌else◌, on_branches, Bool, true,
  false, ◌&&◌, ◌||◌, List, [], ◌∷◌,
}

abbrev pub dead_grave : ℕ
dead_grave = 0xFE50

abbrev pub dead_acute : ℕ
dead_acute = 0xFE51

abbrev pub dead_circumflex : ℕ
dead_circumflex = 0xFE52

abbrev pub dead_tilde : ℕ
dead_tilde = 0xFE53

abbrev pub dead_dieresis : ℕ
dead_dieresis = 0xFE57

abbrev pub dead_abovering : ℕ
dead_abovering = 0xFE58

-- The entries of `guac_rdp_decomposed_keys`, with their index.
abbrev decomposed_keys : List (ℕ × (ℕ × ℕ))
decomposed_keys =
    (0x5E, (dead_circumflex, b' '))
    ∷ (0x60, (dead_grave, b' '))
    ∷ (0x7E, (dead_tilde, b' '))
    ∷ (0xA8, (dead_dieresis, b' '))
    ∷ (0xB4, (dead_acute, b' '))
    ∷ (0xC0, (dead_grave, b'A'))
    ∷ (0xC1, (dead_acute, b'A'))
    ∷ (0xC2, (dead_circumflex, b'A'))
    ∷ (0xC3, (dead_tilde, b'A'))
    ∷ (0xC4, (dead_dieresis, b'A'))
    ∷ (0xC5, (dead_abovering, b'A'))
    ∷ (0xC8, (dead_grave, b'E'))
    ∷ (0xC9, (dead_acute, b'E'))
    ∷ (0xCA, (dead_circumflex, b'E'))
    ∷ (0xCB, (dead_dieresis, b'E'))
    ∷ (0xCC, (dead_grave, b'I'))
    ∷ (0xCD, (dead_acute, b'I'))
    ∷ (0xCE, (dead_circumflex, b'I'))
    ∷ (0xCF, (dead_dieresis, b'I'))
    ∷ (0xD1, (dead_tilde, b'N'))
    ∷ (0xD2, (dead_grave, b'O'))
    ∷ (0xD3, (dead_acute, b'O'))
    ∷ (0xD4, (dead_circumflex, b'O'))
    ∷ (0xD5, (dead_tilde, b'O'))
    ∷ (0xD6, (dead_dieresis, b'O'))
    ∷ (0xD9, (dead_grave, b'U'))
    ∷ (0xDA, (dead_acute, b'U'))
    ∷ (0xDB, (dead_circumflex, b'U'))
    ∷ (0xDC, (dead_dieresis, b'U'))
    ∷ (0xDD, (dead_acute, b'Y'))
    ∷ (0xE0, (dead_grave, b'a'))
    ∷ (0xE1, (dead_acute, b'a'))
    ∷ (0xE2, (dead_circumflex, b'a'))
    ∷ (0xE3, (dead_tilde, b'a'))
    ∷ (0xE4, (dead_dieresis, b'a'))
    ∷ (0xE5, (dead_abovering, b'a'))
    ∷ (0xE8, (dead_grave, b'e'))
    ∷ (0xE9, (dead_acute, b'e'))
    ∷ (0xEA, (dead_circumflex, b'e'))
    ∷ (0xEB, (dead_dieresis, b'e'))
    ∷ (0xEC, (dead_grave, b'i'))
    ∷ (0xED, (dead_acute, b'i'))
    ∷ (0xEE, (dead_circumflex, b'i'))
    ∷ (0xEF, (dead_dieresis, b'i'))
    ∷ (0xF1, (dead_tilde, b'n'))
    ∷ (0xF2, (dead_grave, b'o'))
    ∷ (0xF3, (dead_acute, b'o'))
    ∷ (0xF4, (dead_circumflex, b'o'))
    ∷ (0xF5, (dead_tilde, b'o'))
    ∷ (0xF6, (dead_dieresis, b'o'))
    ∷ (0xF9, (dead_grave, b'u'))
    ∷ (0xFA, (dead_acute, b'u'))
    ∷ (0xFB, (dead_circumflex, b'u'))
    ∷ (0xFC, (dead_dieresis, b'u'))
    ∷ (0xFD, (dead_acute, b'y'))
    ∷ (0xFF, (dead_dieresis, b'y'))
    ∷ []

-- The entry of a table at an index; one that is not there is null.
abbrev entry_of : List (ℕ × (ℕ × ℕ)) → ℕ → ℕ × ℕ
entry_of [] index = (0, 0)
entry_of (entry ∷ entries) index =
    let rest = entry_of entries index in if entry.0 == index then entry.1 else rest

-- `guac_rdp_decomposed_keys[index]`
unfoldable pub decomposed_key : ℕ → ℕ × ℕ
decomposed_key index = entry_of decomposed_keys index

-- A dead key is none or one of the keysyms of dead keys, and a base key is a letter or a space.
abbrev in_range : ℕ × ℕ → Bool
in_range key = ((key.0 == 0) || (leb 0xfe50 key.0 && leb key.0 0xfe58)) && ltb key.1 0x100

abbrev are_in_range : List (ℕ × (ℕ × ℕ)) → Bool
are_in_range [] = true
are_in_range (entry ∷ entries) = in_range entry.1 && are_in_range entries

left_lem : (a b : Bool) → (a && b) ≡ true → a ≡ true
left_lem true b h = refl
left_lem false b h = h

right_lem : (a b : Bool) → (a && b) ≡ true → b ≡ true
right_lem true b h = h
right_lem false b h = absurd (ground (arith, h))

entry_of_lem :
    (entries : List (ℕ × (ℕ × ℕ))) (i : ℕ)
    → are_in_range entries ≡ true
    → in_range (entry_of entries i) ≡ true
entry_of_lem [] i h = refl
entry_of_lem (entry ∷ entries) i h =
    let here : in_range entry.1 ≡ true = left_lem _ _ h in
    let there = right_lem (in_range entry.1) (are_in_range entries) h in
    on_branches (λ (key : ℕ × ℕ). in_range key ≡ true) (entry.0 == i) entry.1 (entry_of entries i)
      (λ _. here) (λ _. entry_of_lem entries i there)

apart_lem :
    (key : ℕ × ℕ) (m : ℕ)
    → in_range key ≡ true
    → 0x100 ≤ m
    → (m < 0xfe50) ⊎ (0xfe58 < m)
    → (key.0 ≢ m) × (key.1 ≢ m)
apart_lem key m range low apart = ground (arith, range)

decomposed_key-in_range : (i : ℕ) → in_range (decomposed_key i) ≡ true
unfolding decomposed_key
decomposed_key-in_range i = entry_of_lem decomposed_keys i refl

-- A keysym from 0x100 on that is none of the dead keys' types no other key.
pub decomposed_key_lem :
    (i m : ℕ)
    → 0x100 ≤ m
    → (m < 0xfe50) ⊎ (0xfe58 < m)
    → ((decomposed_key i).0 ≢ m) × ((decomposed_key i).1 ≢ m)
decomposed_key_lem i m low apart =
    apart_lem (decomposed_key i) m (decomposed_key-in_range i) low apart
