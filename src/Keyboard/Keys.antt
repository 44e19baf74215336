-- ===== src/Keyboard/Keys.antt =====
-- guacamole/src/protocols/rdp/keyboard.c: the keys of a keyboard, the keymap that is loaded into them, and the
-- events that are sent. The connection is the list of the events that were sent along it, where there is
-- one. A keymap is a list of descriptions behind that of its parent.
use occamy.Base.{
  ℕ, ◌+◌, ◌==◌, if◌then◌else◌, Bool, true, false, ◌&&◌, Option, none, some, List, [], ◌∷◌, ◌++◌,
  bit_and,
}
use occamy.Base.Int.{ℤ, pos, pos_part, leb_ℤ}

-- `guac_rdp_keysym_desc`; an array that ends in a null is a list, and NULL is `none`.
pub record KeysymDesc : Type 0 where
  pub keysym : ℕ
  pub scancode : ℕ
  pub flags : ℕ
  pub set_keysyms : Option (List ℕ)
  pub clear_keysyms : Option (List ℕ)
  pub set_locks : ℕ
  pub clear_locks : ℕ

-- `guac_rdp_keymap`: `load_from p mapping` has the parent `p`.
pub data Keymap : Type 0 where
  root : List KeysymDesc → Keymap
  child_of : Keymap → List KeysymDesc → Keymap

-- `guac_rdp_key`
pub record Key : Type 0 where
  pub definition : Option KeysymDesc
  pub pressed : Bool

-- What is sent to FreeRDP: `KeyboardEvent` with its flags besides `KBD_FLAGS_DOWN` and
-- `KBD_FLAGS_RELEASE`, `UnicodeKeyboardEvent`, and `SynchronizeEvent`.
pub data Event : Type 0 where
  key_event : (flags scancode : ℕ) → (pressed : Bool) → Event
  unicode_event : (codepoint : ℕ) → Event
  synchronize_event : (flags : ℕ) → Event

-- `guac_rdp_keyboard` with the connection of its client: whether there is one, and what was sent.
pub record Keyboard : Type 0 where
  pub lock_flags : ℕ
  pub synchronized : Bool
  pub keys : ℕ → Key
  pub is_connected : Bool
  pub events : List Event

-- The constants `KBD_SYNC_...` of FreeRDP.
pub record LockFlags : Type 0 where
  pub scroll_lock : ℕ
  pub kana_lock : ℕ
  pub num_lock : ℕ
  pub caps_lock : ℕ

-- `guac_rdp_keyboard_lock_flag`
unfoldable pub lock_flag : LockFlags → ℕ → ℕ
lock_flag flags keysym =
    if keysym == 0xff14
    then flags.scroll_lock
    else if keysym == 0xff2d
    then flags.kana_lock
    else if keysym == 0xff7f
    then flags.num_lock
    else if keysym == 0xffe5
    then flags.caps_lock
    else 0

-- `guac_rdp_send_key_event`, `guac_rdp_send_unicode_event` and `guac_rdp_send_synchronize_event`.
unfoldable pub send : Event → Keyboard → Keyboard
send event keyboard =
    if keyboard.is_connected
    then record keyboard { events = keyboard.events ++ (event ∷ []) }
    else keyboard

-- `guac_rdp_keyboard_map_key`, with the number of the key.
unfoldable pub map_key : ℤ → Option ℕ
map_key keysym =
    if leb_ℤ (pos 0) keysym && leb_ℤ keysym (pos 0xffff)
    then some (pos_part keysym)
    else if leb_ℤ (pos 0x1000000) keysym && leb_ℤ keysym (pos 0x100ffff)
    then some (0x10000 + bit_and (pos_part keysym) 0xffff)
    else none

-- The keys with one of them changed.
abbrev pub set_key : (ℕ → Key) → ℕ → Key → ℕ → Key
set_key keys i key j = if i == j then key else keys j

-- The loop over one mapping in `__guac_rdp_keyboard_load_keymap`.
unfoldable pub load_mapping : List KeysymDesc → Keyboard → Keyboard
load_mapping [] keyboard = keyboard
load_mapping (desc ∷ mapping) keyboard = load_mapping mapping (elim (map_key (pos desc.keysym)) [
  | none ↦ keyboard
  | some i ↦ record keyboard {
    keys = set_key keyboard.keys i (record (keyboard.keys i) { definition = some desc });
  }
])

-- `__guac_rdp_keyboard_load_keymap`
unfoldable pub load_keymap : Keymap → Keyboard → Keyboard
load_keymap (root mapping) keyboard = load_mapping mapping keyboard
load_keymap (child_of parent mapping) keyboard = load_mapping mapping (load_keymap parent keyboard)

-- `guac_rdp_keyboard_alloc`
unfoldable pub alloc : Keymap → Bool → Keyboard
alloc keymap is_connected = load_keymap keymap (record {
  lock_flags = 0;
  synchronized = false;
  keys = λ i. record { definition = none; pressed = false };
  is_connected = is_connected;
  events = [];
})

-- A key that is defined: its number, and its description.
abbrev pub defined_at : Keyboard → Option ℕ → Option (ℕ × KeysymDesc)
defined_at keyboard none = none
defined_at keyboard (some i) = elim (keyboard.keys i).definition [
  | none ↦ none
  | some desc ↦ some (i, desc)
]

-- `guac_rdp_keyboard_get_key`
unfoldable pub get_key : Keyboard → ℤ → Option (ℕ × KeysymDesc)
get_key keyboard keysym = defined_at keyboard (map_key keysym)

-- `guac_rdp_keyboard_is_defined`
unfoldable pub is_defined : Keyboard → ℤ → Bool
is_defined keyboard keysym = elim (get_key keyboard keysym) [ none ↦ false | some _ ↦ true ]
