-- ===== src/Keyboard/Fresh.antt =====
-- guacamole/src/protocols/rdp/keyboard.c: a keyboard into which a keymap was loaded.
use occamy.Base.{ℕ, ◌≡◌, ◌==◌, on_branches, true, false, Option, none, some, List, [], ◌∷◌}
use occamy.Base.Int.{pos}
use occamy.Keyboard.Keys.{
  KeysymDesc, Key, Keyboard, Keymap, root, child_of, map_key, set_key, load_keymap, load_mapping,
}

-- A connected keyboard along which nothing was sent, and of which no key is pressed.
pub record IsFresh (kb : Keyboard) : Type 0 where
  pub connected : kb.is_connected ≡ true
  pub silent : kb.events ≡ []
  pub released : (i : ℕ) → (kb.keys i).pressed ≡ false

load_mapping-IsFresh :
    (mapping : List KeysymDesc) (kb : Keyboard) → IsFresh kb → IsFresh (load_mapping mapping kb)
unfolding load_mapping
load_mapping-IsFresh [] kb fresh = fresh
load_mapping-IsFresh (desc ∷ mapping) kb fresh =
    load_mapping-IsFresh mapping _ (entry (map_key (pos desc.keysym)))
  where
    entry :
        (o : Option ℕ)
        → IsFresh (elim o as (λ _. Keyboard) [
          | none ↦ kb
          | some i ↦ record kb {
            keys = set_key kb.keys i (record (kb.keys i) { definition = some desc });
          }
        ])
    entry none = fresh
    entry (some i) = record {
      connected = fresh.connected;
      silent = fresh.silent;
      released = λ j.
          on_branches (λ (k : Key). k.pressed ≡ false) (i == j) _ _ (λ _. fresh.released i)
            (λ _. fresh.released j);
    }

pub load_keymap-IsFresh :
    (keymap : Keymap) (kb : Keyboard) → IsFresh kb → IsFresh (load_keymap keymap kb)
unfolding load_keymap
load_keymap-IsFresh (root mapping) kb fresh = load_mapping-IsFresh mapping kb fresh
load_keymap-IsFresh (child_of parent mapping) kb fresh =
    load_mapping-IsFresh mapping _ (load_keymap-IsFresh parent kb fresh)
