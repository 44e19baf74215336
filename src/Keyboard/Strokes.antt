-- ===== src/Keyboard/Strokes.antt =====
-- guacamole/src/protocols/rdp/keyboard.c: the modifiers over any sequence of strokes.
use occamy.Base.{
  ℕ, suc, ◌≡◌, ◌∙◌, inl, inr, refl, sym, ap, subst, arith, if◌then◌else◌, on_branches, Bool, true,
  false, Bool-cases, Option-cases, Option, none, some, List, [], ◌∷◌,
}
use occamy.Base.Int.{ℤ, pos, equal_ℤ}
use occamy.Keyboard.{set_pressed, synchronize, update_keysym, send_event}
use occamy.Keyboard.Keys.{
  KeysymDesc, Key, Keyboard, Keymap, LockFlags, get_key, synchronize_event, alloc,
}
use occamy.Keyboard.Fresh.{load_keymap-IsFresh}
use occamy.Keyboard.Held.{IsKeymap, Holds, Holds_ext, held_after, send-Holds}
use occamy.Keyboard.Modifiers.{get_key-modifier}
use occamy.Keyboard.Sends.{send_event-Kept, send_event-changed}
use occamy.Keyboard.Tracked.{
  Stroke, after_stroke, Tracks, IsKeymap_same, set_pressed_definition, keys_of, number_lem,
  set_pressed_state,
}

-- Whether the last stroke of a keysym pressed it.
abbrev pub is_pressed_by : List Stroke → ℕ → Bool → Bool
is_pressed_by [] m before = before
is_pressed_by (stroke ∷ strokes) m before = is_pressed_by strokes m (after_stroke stroke m before)

-- The strokes one after the other.
abbrev pub run_strokes : LockFlags → ℕ → List Stroke → Keyboard → Keyboard
run_strokes flags fuel [] kb = kb
run_strokes flags fuel (stroke ∷ strokes) kb =
    run_strokes flags fuel strokes (update_keysym flags fuel stroke.0 stroke.1 kb)

module _ (is_modifier : ℕ → Bool) (desc_of : ℕ → KeysymDesc) where
  -- A keyboard that keeps its keys.
  from-Tracks :
      (h : ℕ → Bool) (base kb : Keyboard)
      → IsKeymap is_modifier desc_of base.keys
      → ((m : ℕ) → is_modifier m ≡ true → (base.keys m).pressed ≡ h m)
      → Holds is_modifier desc_of base h kb
      → Tracks is_modifier desc_of h kb
  from-Tracks h base kb keymap states k = record {
    keymap = subst (IsKeymap is_modifier desc_of) (sym k.keys) keymap;
    connected = k.connected;
    remote = k.remote;
    local = λ m is_mod. ap (λ (keys : ℕ → Key). (keys m).pressed) k.keys ∙ states m is_mod;
  }

  synchronize-Tracks :
      (h : ℕ → Bool) (kb : Keyboard)
      → Tracks is_modifier desc_of h kb
      → Tracks is_modifier desc_of h (synchronize kb)
  unfolding synchronize
  synchronize-Tracks h kb t =
      on_branches (Tracks is_modifier desc_of h) kb.synchronized _ _ (λ _. t)
        (λ _.
          let sent = from-Tracks h kb _ t.keymap t.local (
            send-Holds is_modifier desc_of kb (synchronize_event kb.lock_flags) h kb
              (keys_of is_modifier desc_of h kb t)) in
          record {
            keymap = sent.keymap;
            connected = sent.connected;
            remote = sent.remote;
            local = sent.local;
          })

  set_pressed-Holds :
      (h : ℕ → Bool) (kb : Keyboard) (key : Option (ℕ × KeysymDesc)) (pressed : Bool)
      → Tracks is_modifier desc_of h kb
      → Holds is_modifier desc_of (set_pressed key pressed kb) h (set_pressed key pressed kb)
  set_pressed-Holds h kb none pressed t = keys_of is_modifier desc_of h kb t
  set_pressed-Holds h kb (some key) pressed t = record {
    keys = refl;
    connected = t.connected;
    remote = t.remote;
  }

  number_of :
      (o : Option (ℕ × KeysymDesc)) (i j : ℕ) (d e : KeysymDesc)
      → o ≡ some (i, d)
      → o ≡ some (j, e)
      → i ≡ j
  number_of o i j d e at_i at_j =
      ap (λ (k : Option (ℕ × KeysymDesc)). elim k as (λ _. ℕ) [ none ↦ i | some key ↦ key.0 ])
        (sym at_i ∙ at_j)

  -- The event of a keysym that is no modifier's.
  unmodified :
      (fuel : ℕ) (h : ℕ → Bool) (base : Keyboard) (z : ℤ) (pressed : Bool)
      (keymap : IsKeymap is_modifier desc_of base.keys)
      → Holds is_modifier desc_of base h base
      → ((m : ℕ) → is_modifier m ≡ true → (base.keys m).pressed ≡ after_stroke (z, pressed) m (h m))
      → ((i : ℕ) (desc : KeysymDesc) → get_key base z ≡ some (i, desc) → is_modifier i ≡ false)
      → Tracks is_modifier desc_of
          (λ m. after_stroke (z, pressed) m (h m))
          (send_event (suc (suc (suc fuel))) z pressed base)
  unmodified fuel h base z pressed keymap before states other =
      let untouched : (m : ℕ) → is_modifier m ≡ true → h m ≡ after_stroke (z, pressed) m (h m) =
        λ m is_mod. elim (Bool-cases (equal_ℤ z (pos m))) [
          | inl same ↦
              let there : z ≡ pos m = ground (arith, same) in
              let known =
                ap (get_key base) there
                ∙ get_key-modifier is_modifier desc_of base keymap h base m is_mod before in
              absurd (ground (arith, other m (desc_of m) known, is_mod))
          | inr different ↦ rw different refl
        ] in
      from-Tracks _ base _ keymap states (
        Holds_ext is_modifier desc_of base _ _ _ states (
          send_event-Kept is_modifier desc_of base keymap fuel z pressed base other (
            Holds_ext is_modifier desc_of base _ _ _
              (λ m is_mod. untouched m is_mod ∙ sym (states m is_mod)) before)))

  -- The event behind a stroke whose key has been set.
  stroke_sent :
      (fuel : ℕ) (h : ℕ → Bool) (kb : Keyboard) (z : ℤ) (pressed : Bool)
      → Tracks is_modifier desc_of h kb
      → Tracks is_modifier desc_of
          (λ m. after_stroke (z, pressed) m (h m))
          (send_event (suc (suc (suc fuel))) z pressed (set_pressed (get_key kb z) pressed kb))
  stroke_sent fuel h kb z pressed t =
      let base = set_pressed (get_key kb z) pressed kb in
      let keymap =
        IsKeymap_same is_modifier desc_of kb.keys base.keys
          (set_pressed_definition (get_key kb z) pressed kb) t.keymap in
      let before = set_pressed-Holds h kb (get_key kb z) pressed t in
      let states = set_pressed_state is_modifier desc_of kb z pressed h t in
      elim (Option-cases (get_key base z)) [
        | inl undefined ↦
            unmodified fuel h base z pressed keymap before states
              (λ i desc e. absurd (ground (arith, e, undefined)))
        | inr (key, has) ↦ elim (Bool-cases (is_modifier key.0)) [
          | inl is_mod ↦ from-Tracks _ base _ keymap states (
              Holds_ext is_modifier desc_of base _ _ _
                (λ m is_mod_m.
                  ap (λ b. if b then pressed else h m)
                    (number_lem is_modifier desc_of base z key.0 m key.1 keymap is_mod_m has))
                (send_event-changed is_modifier desc_of base keymap (suc (suc fuel)) z key.0 key.1
                  pressed h base has is_mod before))
          | inr not_mod ↦ unmodified fuel h base z pressed keymap before states (λ i desc e.
              subst (λ j. is_modifier j ≡ false)
                (number_of (get_key base z) key.0 i key.1 desc has e) not_mod)
        ]
      ]

  toggled_lem :
      (h : ℕ → Bool) (kb : Keyboard) (lock_flags : ℕ)
      → Tracks is_modifier desc_of h kb
      → Tracks is_modifier desc_of h (record kb { lock_flags = lock_flags })
  toggled_lem h kb lock_flags t = record {
    keymap = t.keymap;
    connected = t.connected;
    remote = t.remote;
    local = t.local;
  }

  update_keysym-Tracks :
      (flags : LockFlags) (fuel : ℕ) (h : ℕ → Bool) (kb : Keyboard) (z : ℤ) (pressed : Bool)
      → Tracks is_modifier desc_of h kb
      → Tracks is_modifier desc_of
          (λ m. after_stroke (z, pressed) m (h m))
          (update_keysym flags (suc (suc (suc fuel))) z pressed kb)
  unfolding update_keysym
  update_keysym-Tracks flags fuel h kb z pressed t =
      stroke_sent fuel h _ z pressed (toggled_lem h _ _ (synchronize-Tracks h kb t))

  alloc-Tracks :
      (keymap : Keymap)
      → IsKeymap is_modifier desc_of (alloc keymap true).keys
      → Tracks is_modifier desc_of (λ m. false) (alloc keymap true)
  unfolding alloc
  alloc-Tracks keymap k =
      let fresh =
        load_keymap-IsFresh keymap _
          (record { connected = refl; silent = refl; released = λ i. refl }) in
      record {
        keymap = k;
        connected = fresh.connected;
        remote = λ m is_mod. ap (λ events. held_after (desc_of m) events false) fresh.silent;
        local = λ m is_mod. fresh.released m;
      }

  run_strokes-Tracks :
      (flags : LockFlags) (fuel : ℕ) (strokes : List Stroke) (h : ℕ → Bool) (kb : Keyboard)
      → Tracks is_modifier desc_of h kb
      → Tracks is_modifier desc_of
          (λ m. is_pressed_by strokes m (h m))
          (run_strokes flags (suc (suc (suc fuel))) strokes kb)
  run_strokes-Tracks flags fuel [] h kb t = t
  run_strokes-Tracks flags fuel ((z, pressed) ∷ strokes) h kb t =
      run_strokes-Tracks flags fuel strokes (λ m. after_stroke (z, pressed) m (h m)) _
        (update_keysym-Tracks flags fuel h kb z pressed t)

  -- However keys are pressed and released from the start on, a modifier is held at the server exactly if
  -- the last stroke of its keysym pressed it, and the keyboard has it so too, though modifiers are
  -- pressed and released for the events of other keys in between, if the server is connected and the
  -- keymap is well formed; 3 levels of events are enough.
  pub alloc-run_strokes :
      (flags : LockFlags) (fuel : ℕ) (strokes : List Stroke) (keymap : Keymap)
      → IsKeymap is_modifier desc_of (alloc keymap true).keys
      → Tracks is_modifier desc_of
          (λ m. is_pressed_by strokes m false)
          (run_strokes flags (suc (suc (suc fuel))) strokes (alloc keymap true))
  alloc-run_strokes flags fuel strokes keymap k =
      run_strokes-Tracks flags fuel strokes (λ m. false) (alloc keymap true) (alloc-Tracks keymap k)
