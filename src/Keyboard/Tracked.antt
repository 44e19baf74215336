-- ===== src/Keyboard/Tracked.antt =====
-- guacamole/src/protocols/rdp/keyboard.c: the state of the modifiers once a key is set.
use occamy.Base.{
  ℕ, ◌≡◌, ◌∙◌, inl, inr, refl, sym, ap, arith, ◌==◌, if◌then◌else◌, on_branches, Bool, true, false,
  Bool-cases, Option-cases, Option, none, some,
}
use occamy.Base.Int.{ℤ, pos, equal_ℤ}
use occamy.Keyboard.{set_pressed}
use occamy.Keyboard.Keys.{KeysymDesc, Key, Keyboard, map_key, get_key}
use occamy.Keyboard.Held.{IsKeymap, Holds, held_after}
use occamy.Keyboard.Modifiers.{map_key-modifier, get_key-modifier}
use occamy.Keyboard.Sends.{get_key-inverse, map_key-below}

-- A stroke: a keysym, and whether it is pressed or released.
abbrev pub Stroke : Type 0
Stroke = ℤ × Bool

-- What a stroke makes of the state of a modifier.
abbrev pub after_stroke : Stroke → ℕ → Bool → Bool
after_stroke stroke m before = if equal_ℤ stroke.0 (pos m) then stroke.1 else before

-- A keymap is one of the definitions alone.
pub IsKeymap_same :
    (is_modifier : ℕ → Bool) (desc_of : ℕ → KeysymDesc) (keys keys' : ℕ → Key)
    → ((i : ℕ) → (keys' i).definition ≡ (keys i).definition)
    → IsKeymap is_modifier desc_of keys
    → IsKeymap is_modifier desc_of keys'
IsKeymap_same is_modifier desc_of keys keys' same k = record {
  below = k.below;
  apart = k.apart;
  modifier = λ m h. same m ∙ k.modifier m h;
  sets_none = k.sets_none;
  clears_none = k.clears_none;
  scancode = λ i desc e. k.scancode i desc (sym (same i) ∙ e);
  sets = λ i desc e. k.sets i desc (sym (same i) ∙ e);
  clears = λ i desc e. k.clears i desc (sym (same i) ∙ e);
  distinct = λ i m desc e. k.distinct i m desc (sym (same i) ∙ e);
}

pub set_pressed_definition :
    (key : Option (ℕ × KeysymDesc)) (pressed : Bool) (kb : Keyboard) (i : ℕ)
    → ((set_pressed key pressed kb).keys i).definition ≡ (kb.keys i).definition
set_pressed_definition none pressed kb i = refl
set_pressed_definition (some (j, desc)) pressed kb i =
    on_branches (λ (k : Key). k.definition ≡ (kb.keys i).definition) (j == i) _ _
      (λ same. ap (λ n. (kb.keys n).definition) (ground (arith, same))) (λ _. refl)

module _ (is_modifier : ℕ → Bool) (desc_of : ℕ → KeysymDesc) where
  -- A connected keyboard whose modifiers are in the given state, here and at the server.
  pub record Tracks (held : ℕ → Bool) (kb : Keyboard) : Type 0 where
    pub keymap : IsKeymap is_modifier desc_of kb.keys
    pub connected : kb.is_connected ≡ true
    pub remote : (m : ℕ) → is_modifier m ≡ true → held_after (desc_of m) kb.events false ≡ held m
    pub local : (m : ℕ) → is_modifier m ≡ true → (kb.keys m).pressed ≡ held m

  pub keys_of : (h : ℕ → Bool) (kb : Keyboard) → Tracks h kb → Holds is_modifier desc_of kb h kb
  keys_of h kb t = record { keys = refl; connected = t.connected; remote = t.remote }

  modifier_at :
      (h : ℕ → Bool) (kb : Keyboard) (z : ℤ) (m : ℕ)
      → Tracks h kb
      → is_modifier m ≡ true
      → z ≡ pos m
      → get_key kb z ≡ some (m, desc_of m)
  modifier_at h kb z m t is_mod e =
      ap (get_key kb) e
      ∙ get_key-modifier is_modifier desc_of kb t.keymap h kb m is_mod (keys_of h kb t)

  -- The number of a key is that of a modifier where its keysym is.
  pub number_lem :
      (kb : Keyboard) (z : ℤ) (i m : ℕ) (desc : KeysymDesc)
      → IsKeymap is_modifier desc_of kb.keys
      → is_modifier m ≡ true
      → get_key kb z ≡ some (i, desc)
      → (i == m) ≡ equal_ℤ z (pos m)
  number_lem kb z i m desc keymap is_mod e =
      let number = (get_key-inverse kb z i desc e).0 in
      elim (Bool-cases (equal_ℤ z (pos m))) [
        | inl same ↦
            let there : z ≡ pos m = ground (arith, same) in
            let at_m = map_key-modifier is_modifier desc_of kb keymap m is_mod in
            let here : some i ≡ some m = sym number ∙ ap map_key there ∙ at_m in
            rw same (ground (arith, here))
        | inr other ↦ elim (Bool-cases (i == m)) [
          | inl same ↦
              let n : i ≡ m = ground (arith, same) in
              let z_is = map_key-below z m (number ∙ ap some n) (keymap.below m is_mod).1 in
              absurd (ground (arith, other, z_is))
          | inr different ↦ rw (different, other) refl
        ]
      ]

  undefined_lem :
      (h : ℕ → Bool) (kb : Keyboard) (z : ℤ) (m : ℕ)
      → Tracks h kb
      → is_modifier m ≡ true
      → get_key kb z ≡ none
      → equal_ℤ z (pos m) ≡ false
  undefined_lem h kb z m t is_mod undefined = elim (Bool-cases (equal_ℤ z (pos m))) [
    | inl same ↦
        let there : z ≡ pos m = ground (arith, same) in
        let known = modifier_at h kb z m t is_mod there in absurd (ground (arith, known, undefined))
    | inr other ↦ other
  ]

  -- The state of a modifier once a key is set.
  pub set_pressed_state :
      (kb : Keyboard) (z : ℤ) (pressed : Bool) (h : ℕ → Bool)
      → Tracks h kb
      → (m : ℕ) → is_modifier m ≡ true
      → ((set_pressed (get_key kb z) pressed kb).keys m).pressed ≡ after_stroke (z, pressed) m (h m)
  set_pressed_state kb z pressed h t m is_mod = elim (Option-cases (get_key kb z)) [
    | inl undefined ↦ rw (undefined, undefined_lem h kb z m t is_mod undefined) (t.local m is_mod)
    | inr (key, has) ↦
        rw (has, number_lem kb z key.0 m key.1 t.keymap is_mod has)
          (known (equal_ℤ z (pos m)) key.0 (kb.keys key.0) (t.local m is_mod))
  ]
    where
      known :
          (b : Bool) (i : ℕ) (k : Key)
          → (kb.keys m).pressed ≡ h m
          → (if b then (record k { pressed = pressed }) else kb.keys m).pressed
            ≡ (if b then pressed else h m)
      known true i k e = refl
      known false i k e = e
