-- ===== src/Keyboard/Held.antt =====
-- guacamole/src/protocols/rdp/keyboard.c: which keys the RDP server holds down behind the events that were sent.
use occamy.Base.{
  ℕ, ◌≤◌, ◌<◌, ◌≡◌, ◌≢◌, ◌∙◌, ◌⊎◌, refl, ap, ◌==◌, if◌then◌else◌, on_branches, Bool, true, false,
  ◌&&◌, Option, none, some, List, [], ◌∷◌, ◌++◌, All,
}
use occamy.Keyboard.{update_locks, updated_locks}
use occamy.Keyboard.Keys.{
  KeysymDesc, Key, Event, key_event, unicode_event, synchronize_event, Keyboard, send,
}

-- Whether a key event is for the key of a description.
abbrev pub is_for : KeysymDesc → ℕ → ℕ → Bool
is_for desc flags scancode = desc.flags == flags && desc.scancode == scancode

-- Whether the server holds a key behind an event, if it did before.
abbrev pub after_event : KeysymDesc → Event → Bool → Bool
after_event desc (key_event flags scancode pressed) held =
    if is_for desc flags scancode then pressed else held
after_event desc (unicode_event _) held = held
after_event desc (synchronize_event _) held = held

-- The same behind all events.
abbrev pub held_after : KeysymDesc → List Event → Bool → Bool
held_after desc [] held = held
held_after desc (event ∷ events) held = held_after desc events (after_event desc event held)

held_after-append :
    (desc : KeysymDesc) (events : List Event) (event : Event) (held : Bool)
    → held_after desc (events ++ (event ∷ [])) held
      ≡ after_event desc event (held_after desc events held)
held_after-append desc [] event held = refl
held_after-append desc (e ∷ events) event held =
    held_after-append desc events event (after_event desc e held)

-- The keys that a description refers to.
abbrev pub AreModifiers : (ℕ → Bool) → Option (List ℕ) → Type 0
AreModifiers is_modifier none = Unit
AreModifiers is_modifier (some keysyms) = All (λ k. is_modifier k ≡ true) keysyms

-- Keymaps over a set of modifiers: a modifier has a key of its own, which refers to no other, and the keys
-- of all descriptions refer to modifiers only. No modifier is a dead key or a letter.
pub record IsKeymap (is_modifier : ℕ → Bool) (desc_of : ℕ → KeysymDesc) (keys : ℕ → Key)
    : Type 0 where
  pub below : (m : ℕ) → is_modifier m ≡ true → (0x100 ≤ m) × (m < 0x10000)
  pub apart : (m : ℕ) → is_modifier m ≡ true → (m < 0xfe50) ⊎ (0xfe58 < m)
  pub modifier : (m : ℕ) → is_modifier m ≡ true → (keys m).definition ≡ some (desc_of m)
  pub sets_none : (m : ℕ) → is_modifier m ≡ true → (desc_of m).set_keysyms ≡ none
  pub clears_none : (m : ℕ) → is_modifier m ≡ true → (desc_of m).clear_keysyms ≡ none
  pub scancode : (i : ℕ) (desc : KeysymDesc) → (keys i).definition ≡ some desc → 0 < desc.scancode
  pub sets :
      (i : ℕ) (desc : KeysymDesc)
      → (keys i).definition ≡ some desc
      → AreModifiers is_modifier desc.set_keysyms
  pub clears :
      (i : ℕ) (desc : KeysymDesc)
      → (keys i).definition ≡ some desc
      → AreModifiers is_modifier desc.clear_keysyms
  pub distinct :
      (i m : ℕ) (desc : KeysymDesc)
      → (keys i).definition ≡ some desc
      → is_modifier m ≡ true
      → i ≢ m
      → is_for (desc_of m) desc.flags desc.scancode ≡ false

-- A state of the modifiers with one of them changed.
abbrev pub changed : (ℕ → Bool) → ℕ → Bool → ℕ → Bool
changed held m pressed k = if m == k then pressed else held k

module _ (is_modifier : ℕ → Bool) (desc_of : ℕ → KeysymDesc) (base : Keyboard) where
  -- A keyboard with the keys of `base`, along whose connection the modifiers are held as given.
  pub record Holds (held : ℕ → Bool) (keyboard : Keyboard) : Type 0 where
    pub keys : keyboard.keys ≡ base.keys
    pub connected : keyboard.is_connected ≡ true
    pub remote :
        (m : ℕ) → is_modifier m ≡ true → held_after (desc_of m) keyboard.events false ≡ held m

  pub Holds_ext :
      (h h' : ℕ → Bool) (kb : Keyboard)
      → ((m : ℕ) → is_modifier m ≡ true → h m ≡ h' m)
      → Holds h kb
      → Holds h' kb
  Holds_ext h h' kb e k = record {
    keys = k.keys;
    connected = k.connected;
    remote = λ m is_mod. k.remote m is_mod ∙ e m is_mod;
  }

  pub send-Holds :
      (event : Event) (h : ℕ → Bool) (kb : Keyboard)
      → Holds h kb
      → Holds (λ m. after_event (desc_of m) event (h m)) (send event kb)
  unfolding send
  send-Holds event h kb k = rw (k.connected) (record {
    keys = k.keys;
    connected = refl;
    remote = λ m is_mod.
        held_after-append (desc_of m) kb.events event false
        ∙ ap (after_event (desc_of m) event) (k.remote m is_mod);
  })

  pub update_locks-Holds :
      (set_flags clear_flags : ℕ) (h : ℕ → Bool) (kb : Keyboard)
      → Holds h kb
      → Holds h (update_locks set_flags clear_flags kb)
  unfolding update_locks
  update_locks-Holds set_flags clear_flags h kb k =
      let locks = updated_locks kb.lock_flags set_flags clear_flags in
      on_branches (Holds h) (locks == kb.lock_flags) _ _ (λ _. k)
        (λ _.
          let sent = send-Holds (synchronize_event locks) h kb k in
          record { keys = sent.keys; connected = sent.connected; remote = sent.remote })
