-- ===== src/Keyboard.antt =====
-- guacamole/src/protocols/rdp/keyboard.c and decompose.c: the keyboard of an RDP session. The constants of the lock
-- keys are FreeRDP's, and a parameter.
pub mod Keys
pub mod Decompose
pub mod Held
pub mod Modifiers
pub mod Restores
pub mod Sends
pub mod Tracked
pub mod Fresh
pub mod Strokes
mod Tests
use occamy.Base.{
  ℕ, zero, suc, ◌+◌, ◌-◌, ◌%◌, ◌^◌, ◌==◌, if◌then◌else◌, Bool, true, false, not, ◌&&◌, ◌||◌, Option,
  none, some, List, [], ◌∷◌, ◌++◌, bit_and, bit_or, bit_xor, ltb, leb,
}
use occamy.Base.Int.{ℤ, pos, negsuc, pos_part, ltb_ℤ, leb_ℤ}
use Decompose.{decomposed_key}
use occamy.Keyboard.Keys.{
  KeysymDesc, Keyboard, LockFlags, lock_flag, send, set_key, get_key, is_defined, key_event,
  unicode_event, synchronize_event,
}

-- `(flags | set) & ~clear`, of an `int`.
abbrev pub updated_locks : ℕ → ℕ → ℕ → ℕ
updated_locks lock_flags set_flags clear_flags =
    bit_and (bit_or lock_flags set_flags) (bit_xor clear_flags 0xffffffff)

-- `guac_rdp_keyboard_update_locks`
unfoldable pub update_locks : ℕ → ℕ → Keyboard → Keyboard
update_locks set_flags clear_flags keyboard =
    let lock_flags = updated_locks keyboard.lock_flags set_flags clear_flags in
    if lock_flags == keyboard.lock_flags
    then keyboard
    else record (send (synchronize_event lock_flags) keyboard) { lock_flags = lock_flags }

-- `guac_rdp_keyboard_send_event` for another key.
abbrev pub Sending : Type 0
Sending = ℤ → Bool → Keyboard → Keyboard

-- Whether a key that is defined is in the state `from`.
abbrev pub is_in_state : Keyboard → Bool → Option (ℕ × KeysymDesc) → Bool
is_in_state keyboard from none = false
is_in_state keyboard from (some key) =
    let pressed = (keyboard.keys key.0).pressed in if from then pressed else not pressed

-- `guac_rdp_keyboard_send_events`
unfoldable pub send_events : Sending → Bool → Bool → List ℕ → Keyboard → Keyboard
send_events send_one from to [] keyboard = keyboard
send_events send_one from to (keysym ∷ keysyms) keyboard = send_events send_one from to keysyms (
    if is_in_state keyboard from (get_key keyboard (pos keysym))
    then send_one (pos keysym) to keyboard
    else keyboard)

-- `guac_rdp_keyboard_send_events` where the array is not NULL.
abbrev pub send_any : Sending → Bool → Bool → Option (List ℕ) → Keyboard → Keyboard
send_any send_one from to none keyboard = keyboard
send_any send_one from to (some keysyms) keyboard = send_events send_one from to keysyms keyboard

-- The event of a key that has a scancode, in `guac_rdp_keyboard_send_event`.
unfoldable pub send_defined : Sending → KeysymDesc → Bool → Keyboard → Keyboard
send_defined send_one desc pressed keyboard = send_any send_one true true desc.clear_keysyms (
    send_any send_one false false desc.set_keysyms (
      send (key_event desc.flags desc.scancode pressed) (
        send_any send_one true false desc.clear_keysyms (
          send_any send_one false true desc.set_keysyms
            (update_locks desc.set_locks desc.clear_locks keyboard)))))

-- `guac_rdp_decompose_keysym`: none where the keysym cannot be typed so.
unfoldable pub decompose_keysym : Sending → ℤ → Keyboard → Option Keyboard
decompose_keysym send_one keysym keyboard =
    let (dead_keysym, base_keysym) = decomposed_key (pos_part keysym) in
    let typed = send_one (pos base_keysym) false (
      send_one (pos base_keysym) true
        (send_one (pos dead_keysym) false (send_one (pos dead_keysym) true keyboard))) in
    if ltb_ℤ keysym (pos 0) || ltb_ℤ (pos 0xff) keysym
    then none
    else if dead_keysym == 0
    then none
    else if not (is_defined keyboard (pos dead_keysym))
        || not (is_defined keyboard (pos base_keysym))
    then none
    else some typed

-- The Unicode event of a keysym. A negative one is at most 0xff, and its event has its pattern.
unfoldable pub send_unicode : ℤ → Keyboard → Keyboard
send_unicode (negsuc n) keyboard = send (unicode_event (2 ^ 32 - 1 - n % 2 ^ 32)) keyboard
send_unicode (pos keysym) keyboard =
    if leb keysym 0xff
    then send (unicode_event keysym) keyboard
    else if leb 0x1000000 keysym
    then send (unicode_event (bit_and keysym 0xffffff)) keyboard
    else keyboard

-- What is done for a key that has no scancode.
abbrev pub fall_back : Sending → ℤ → Bool → Keyboard → Keyboard
fall_back send_one keysym false keyboard = keyboard
fall_back send_one keysym true keyboard = elim (decompose_keysym send_one keysym keyboard) [
  | none ↦ send_unicode keysym keyboard
  | some typed ↦ typed
]

-- The branches of `guac_rdp_keyboard_send_event`, which sends its other events by `send_one`.
abbrev pub send_by : Sending → Option (ℕ × KeysymDesc) → Sending
send_by send_one none keysym pressed keyboard = fall_back send_one keysym pressed keyboard
send_by send_one (some (i, desc)) keysym pressed keyboard =
    if desc.scancode == 0
    then fall_back send_one keysym pressed keyboard
    else send_defined send_one desc pressed keyboard

-- `guac_rdp_keyboard_send_event`, on fuel.
unfoldable pub send_event : ℕ → Sending
send_event zero keysym pressed keyboard = keyboard
send_event (suc fuel) keysym pressed keyboard =
    send_by (send_event fuel) (get_key keyboard keysym) keysym pressed keyboard

-- The new state of a key that is defined.
abbrev pub set_pressed : Option (ℕ × KeysymDesc) → Bool → Keyboard → Keyboard
set_pressed none pressed keyboard = keyboard
set_pressed (some (i, desc)) pressed keyboard = record keyboard {
  keys = set_key keyboard.keys i (record (keyboard.keys i) { pressed = pressed });
}

-- The synchronizing of the lock keys by `guac_rdp_keyboard_update_keysym`, once.
unfoldable pub synchronize : Keyboard → Keyboard
synchronize keyboard =
    if keyboard.synchronized
    then keyboard
    else record (send (synchronize_event keyboard.lock_flags) keyboard) { synchronized = true }

-- `guac_rdp_keyboard_update_keysym`
unfoldable pub update_keysym : LockFlags → ℕ → ℤ → Bool → Keyboard → Keyboard
update_keysym flags fuel keysym pressed keyboard =
    let ready = synchronize keyboard in
    let toggled = record ready {
      lock_flags =
          if pressed
          then bit_xor ready.lock_flags (lock_flag flags (pos_part keysym))
          else ready.lock_flags;
    } in
    send_event fuel keysym pressed (set_pressed (get_key toggled keysym) pressed toggled)
