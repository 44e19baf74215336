-- ===== src/Keyboard/Tests.antt =====
-- A keyboard with the left shift key and the letter A, which needs it.
use occamy.Base.{
  ℕ, ◌<◌, ◌≡◌, inr, refl, sym, ap, subst, arith, ◌==◌, if◌then◌else◌, Bool, true, false, Option,
  none, some, List, [], ◌∷◌,
}
use occamy.Base.Int.{pos}
use occamy.Keyboard.{
  update_keysym, synchronize, send_event, send_events, send_defined, update_locks,
}
use occamy.Keyboard.Keys.{
  KeysymDesc, Key, Keymap, root, alloc, LockFlags, load_keymap, load_mapping, map_key, key_event,
  synchronize_event, send, get_key, lock_flag,
}
use occamy.Keyboard.Held.{IsKeymap, AreModifiers, is_for}
use occamy.Keyboard.Tracked.{Stroke, Tracks}
use occamy.Keyboard.Strokes.{run_strokes, is_pressed_by, alloc-run_strokes}

abbrev shift : KeysymDesc
shift = record {
  keysym = 0xffe1;
  scancode = 0x2a;
  flags = 0;
  set_keysyms = none;
  clear_keysyms = none;
  set_locks = 0;
  clear_locks = 0;
}

abbrev capital_a : KeysymDesc
capital_a = record {
  keysym = 65;
  scancode = 0x1e;
  flags = 0;
  set_keysyms = some (0xffe1 ∷ []);
  clear_keysyms = none;
  set_locks = 0;
  clear_locks = 0;
}

abbrev keymap : Keymap
keymap = root (shift ∷ capital_a ∷ [])

abbrev lock_flags : LockFlags
lock_flags = record { scroll_lock = 1; kana_lock = 8; num_lock = 2; caps_lock = 4 }

-- The letter alone, and the letter while shift is held.
abbrev strokes : List Stroke
strokes = (pos 65, true) ∷ (pos 65, false) ∷ (pos 0xffe1, true) ∷ (pos 65, true) ∷ []

abbrev is_shift : ℕ → Bool
is_shift m = m == 0xffe1

-- The letter brings shift with it.
typed_a :
    (update_keysym lock_flags 3 (pos 65) true (alloc keymap true)).events
    ≡ synchronize_event 0
      ∷ key_event 0 0x2a true
      ∷ key_event 0 0x1e true
      ∷ key_event 0 0x2a false
      ∷ []
unfolding update_keysym alloc load_keymap load_mapping map_key synchronize send send_event
    send_events send_defined get_key update_locks lock_flag
typed_a = refl

abbrev key_of : Option KeysymDesc → Key
key_of definition = record { definition = definition; pressed = false }

-- The keys of the keyboard, one by one.
one_of :
    (P : KeysymDesc → Type 0) (is_a is_s : Bool) (desc : KeysymDesc)
    → (is_a ≡ true → P capital_a)
    → (is_s ≡ true → P shift)
    → (if is_a
        then key_of (some capital_a)
        else (if is_s then key_of (some shift) else key_of none)).definition
      ≡ some desc
    → P desc
one_of P true is_s desc a s e =
    subst P
      (ap (λ (o : Option KeysymDesc). elim o as (λ _. KeysymDesc) [ none ↦ shift | some d ↦ d ]) e)
      (a refl)
one_of P false true desc a s e =
    subst P
      (ap (λ (o : Option KeysymDesc). elim o as (λ _. KeysymDesc) [ none ↦ shift | some d ↦ d ]) e)
      (s refl)
one_of P false false desc a s e = absurd (ground (arith, e))

either_key :
    (P : KeysymDesc → Type 0) (i : ℕ) (desc : KeysymDesc)
    → ((65 == i) ≡ true → P capital_a)
    → ((0xffe1 == i) ≡ true → P shift)
    → ((alloc keymap true).keys i).definition ≡ some desc
    → P desc
unfolding alloc load_keymap load_mapping map_key
either_key P i desc a s e = one_of P (65 == i) (0xffe1 == i) desc a s e

shift_at : (m : ℕ) → is_shift m ≡ true → ((alloc keymap true).keys m).definition ≡ some shift
unfolding alloc load_keymap load_mapping map_key
shift_at m e =
    let here : m ≡ 0xffe1 = ground (arith, e) in
    subst (λ i. ((alloc keymap true).keys i).definition ≡ some shift) (sym here) refl

keymap-IsKeymap : IsKeymap is_shift (λ m. shift) (alloc keymap true).keys
keymap-IsKeymap = record {
  below = λ m e. ground (arith, e);
  apart = λ m e. inr (ground (arith, e));
  modifier = shift_at;
  sets_none = λ m e. refl;
  clears_none = λ m e. refl;
  scancode =
      λ i desc. either_key (λ d. 0 < d.scancode) i desc (λ _. omega arith) (λ _. omega arith);
  sets = λ i desc.
      either_key (λ d. AreModifiers is_shift d.set_keysyms) i desc (λ _. (refl, tt)) (λ _. tt);
  clears =
      λ i desc. either_key (λ d. AreModifiers is_shift d.clear_keysyms) i desc (λ _. tt) (λ _. tt);
  distinct = λ i m desc e is_mod other.
      either_key (λ d. is_for shift d.flags d.scancode ≡ false) i desc (λ _. refl)
        (λ same. absurd (other (ground (arith, same, is_mod)))) e;
}

alloc-run_strokes_example :
    Tracks is_shift
      (λ m. shift)
      (λ m. is_pressed_by strokes m false)
      (run_strokes lock_flags 3 strokes (alloc keymap true))
alloc-run_strokes_example =
    alloc-run_strokes is_shift (λ m. shift) lock_flags 0 strokes keymap keymap-IsKeymap
