-- ===== src/Keyboard/Modifiers.antt =====
-- guacamole/src/protocols/rdp/keyboard.c: the modifiers that are pressed and released around a key event.
use occamy.Base.{
  ℕ, suc, ◌≡◌, inl, inr, refl, ap, subst, arith, ◌==◌, if◌then◌else◌, Bool, true, false, ◌&&◌,
  Bool-cases, Option, none, some,
}
use occamy.Base.Int.{ℤ, pos, leb_ℤ}
use occamy.Keyboard.{Sending, send_defined, send_event}
use occamy.Keyboard.Keys.{KeysymDesc, key_event, Keyboard, map_key, defined_at, get_key, send}
use occamy.Keyboard.Held.{
  is_for, IsKeymap, changed, Holds, Holds_ext, send-Holds, update_locks-Holds,
}

module _ (is_modifier : ℕ → Bool) (desc_of : ℕ → KeysymDesc) (base : Keyboard)
    (keymap : IsKeymap is_modifier desc_of base.keys) where
  abbrev pub At : (ℕ → Bool) → Keyboard → Type 0
  At = Holds is_modifier desc_of base

  -- The state of a key as the keyboard has it.
  abbrev pub local_state : ℕ → Bool
  local_state m = (base.keys m).pressed

  pub get_key_base :
      (h : ℕ → Bool) (kb : Keyboard) (z : ℤ) → At h kb → get_key kb z ≡ get_key base z
  unfolding get_key
  get_key_base h kb z k = by_index (map_key z)
    where
      by_index : (o : Option ℕ) → defined_at kb o ≡ defined_at base o
      by_index none = refl
      by_index (some i) =
          ap
            (λ keys. elim (keys i).definition as (λ _. Option (ℕ × KeysymDesc)) [
              | none ↦ none
              | some desc ↦ some (i, desc)
            ])
            k.keys

  pub map_key-modifier : (m : ℕ) → is_modifier m ≡ true → map_key (pos m) ≡ some m
  unfolding map_key
  map_key-modifier m is_mod =
      let small = (keymap.below m is_mod).1 in
      let inside : (leb_ℤ (pos 0) (pos m) && leb_ℤ (pos m) (pos 0xffff)) ≡ true = ground arith in
      rw inside refl

  pub get_key-modifier :
      (h : ℕ → Bool) (kb : Keyboard) (m : ℕ)
      → is_modifier m ≡ true
      → At h kb
      → get_key kb (pos m) ≡ some (m, desc_of m)
  unfolding get_key
  get_key-modifier h kb m is_mod k =
      rw (map_key-modifier m is_mod, k.keys, keymap.modifier m is_mod) refl

  -- A key event of a modifier, and of another key.
  pub event_lem :
      (h : ℕ → Bool) (kb : Keyboard) (i : ℕ) (desc : KeysymDesc) (pressed : Bool)
      → (base.keys i).definition ≡ some desc
      → At h kb
      → At
          (λ m.
            if i == m
            then (if is_for (desc_of m) desc.flags desc.scancode then pressed else h m)
            else h m)
          (send (key_event desc.flags desc.scancode pressed) kb)
  event_lem h kb i desc pressed e k =
      Holds_ext is_modifier desc_of base _ _ _
        (λ m is_mod. elim (Bool-cases (i == m)) [
          | inl same ↦ rw same refl
          | inr other ↦ rw (other, keymap.distinct i m desc e is_mod (ground (arith, other))) refl
        ])
        (send-Holds is_modifier desc_of base (key_event desc.flags desc.scancode pressed) h kb k)

  is_for_self : (desc : KeysymDesc) → is_for desc desc.flags desc.scancode ≡ true
  is_for_self desc = ground arith

  -- A modifier is pressed or released by one event of its own.
  send_defined-modifier :
      (send_one : Sending) (h : ℕ → Bool) (kb : Keyboard) (m : ℕ) (pressed : Bool)
      → is_modifier m ≡ true
      → At h kb
      → At (changed h m pressed) (send_defined send_one (desc_of m) pressed kb)
  unfolding send_defined
  send_defined-modifier send_one h kb m pressed is_mod k =
      let locked =
        update_locks-Holds is_modifier desc_of base (desc_of m).set_locks (desc_of m).clear_locks h
          kb k in
      rw (keymap.sets_none m is_mod, keymap.clears_none m is_mod)
        (Holds_ext is_modifier desc_of base _ _ _
          (λ j is_mod_j. elim (Bool-cases (m == j)) [
            | inl same ↦
                let e : m ≡ j = ground (arith, same) in
                rw same (
                  subst
                    (λ i.
                      (if is_for (desc_of i) (desc_of m).flags (desc_of m).scancode
                        then pressed
                        else h i)
                      ≡ pressed)
                    e (rw (is_for_self (desc_of m)) refl))
            | inr other ↦ rw other refl
          ])
          (event_lem h _ m (desc_of m) pressed (keymap.modifier m is_mod) locked))

  pub send_event-modifier :
      (fuel m : ℕ) (h : ℕ → Bool) (kb : Keyboard) (pressed : Bool)
      → is_modifier m ≡ true
      → At h kb
      → At (changed h m pressed) (send_event (suc fuel) (pos m) pressed kb)
  unfolding send_event
  send_event-modifier fuel m h kb pressed is_mod k =
      let some_code : ((desc_of m).scancode == 0) ≡ false =
        ground (arith, keymap.scancode m (desc_of m) (keymap.modifier m is_mod)) in
      rw (get_key-modifier h kb m is_mod k, some_code)
        (send_defined-modifier (send_event fuel) h kb m pressed is_mod k)
