-- ===== src/Keyboard/Restores.antt =====
-- guacamole/src/protocols/rdp/keyboard.c: the lists of modifiers around a key event.
use occamy.Base.{
  ℕ, suc, ◌≡◌, inl, inr, refl, sym, subst, arith, ◌==◌, if◌then◌else◌, Bool, true, false, not, ◌&&◌,
  Bool-cases, Option, none, some, List, [], ◌∷◌, All,
}
use occamy.Base.Members.{member}
use occamy.Base.Int.{pos}
use occamy.Keyboard.{is_in_state, send_events, send_any, send_defined, send_event}
use occamy.Keyboard.Keys.{KeysymDesc, Keyboard, get_key}
use occamy.Keyboard.Held.{AreModifiers, IsKeymap, changed, Holds_ext, update_locks-Holds}
use occamy.Keyboard.Modifiers.{At, local_state, get_key-modifier, send_event-modifier, event_lem}

module _ (is_modifier : ℕ → Bool) (desc_of : ℕ → KeysymDesc) (base : Keyboard)
    (keymap : IsKeymap is_modifier desc_of base.keys) where
  abbrev is_wanted : Bool → ℕ → Bool
  is_wanted from m =
      if from
      then local_state is_modifier desc_of base keymap m
      else not (local_state is_modifier desc_of base keymap m)

  -- Modifiers of a list that are in a state are brought to another.
  abbrev brought : Bool → Bool → List ℕ → (ℕ → Bool) → ℕ → Bool
  brought from to keysyms h m = if member m keysyms && is_wanted from m then to else h m

  wanted_at :
      (from : Bool) (m j : ℕ) (b : Bool)
      → (m == j) ≡ true
      → is_wanted from m ≡ b
      → is_wanted from j ≡ b
  wanted_at from m j b same w =
      let e : m ≡ j = ground (arith, same) in subst (λ i. is_wanted from i ≡ b) e w

  brought_on :
      (from to : Bool) (m : ℕ) (keysyms : List ℕ) (h : ℕ → Bool) (j : ℕ)
      → is_wanted from m ≡ true
      → brought from to keysyms (changed h m to) j ≡ brought from to (m ∷ keysyms) h j
  brought_on from to m keysyms h j is_on = elim (Bool-cases (m == j)) [
    | inl same ↦ rw (same, wanted_at from m j true same is_on) (either (member j keysyms) to)
    | inr other ↦ rw other refl
  ]
    where
      either : (b t : Bool) → (if b && true then t else t) ≡ t
      either true t = refl
      either false t = refl

  brought_off :
      (from to : Bool) (m : ℕ) (keysyms : List ℕ) (h : ℕ → Bool) (j : ℕ)
      → is_wanted from m ≡ false
      → brought from to keysyms h j ≡ brought from to (m ∷ keysyms) h j
  brought_off from to m keysyms h j is_off = elim (Bool-cases (m == j)) [
    | inl same ↦
        rw (same, wanted_at from m j false same is_off) (neither (member j keysyms) to (h j))
    | inr other ↦ rw other refl
  ]
    where
      neither : (b t u : Bool) → (if b && false then t else u) ≡ u
      neither true t u = refl
      neither false t u = refl

  send_events-modifiers :
      (fuel : ℕ) (from to : Bool) (keysyms : List ℕ) (h : ℕ → Bool) (kb : Keyboard)
      → All (λ k. is_modifier k ≡ true) keysyms
      → At is_modifier desc_of base keymap h kb
      → At is_modifier desc_of base keymap
          (brought from to keysyms h)
          (send_events (send_event (suc fuel)) from to keysyms kb)
  unfolding send_events
  send_events-modifiers fuel from to [] h kb are_mods k = k
  send_events-modifiers fuel from to (m ∷ keysyms) h kb are_mods k =
      let wanted : is_in_state kb from (get_key kb (pos m)) ≡ is_wanted from m =
        rw (get_key-modifier is_modifier desc_of base keymap h kb m are_mods.0 k, k.keys) refl in
      rw wanted (elim (Bool-cases (is_wanted from m)) [
        | inl is_on ↦ rw is_on (
            Holds_ext is_modifier desc_of base _ _ _
              (λ j is_mod. brought_on from to m keysyms h j is_on)
              (send_events-modifiers fuel from to keysyms (changed h m to) _ are_mods.1
                (send_event-modifier is_modifier desc_of base keymap fuel m h kb to are_mods.0 k)))
        | inr is_off ↦ rw is_off (
            Holds_ext is_modifier desc_of base _ _ _
              (λ j is_mod. brought_off from to m keysyms h j is_off)
              (send_events-modifiers fuel from to keysyms h kb are_mods.1 k))
      ])

  abbrev member_any : ℕ → Option (List ℕ) → Bool
  member_any m none = false
  member_any m (some keysyms) = member m keysyms

  abbrev brought_any : Bool → Bool → Option (List ℕ) → (ℕ → Bool) → ℕ → Bool
  brought_any from to keysyms h m = if member_any m keysyms && is_wanted from m then to else h m

  send_any-modifiers :
      (fuel : ℕ) (from to : Bool) (keysyms : Option (List ℕ)) (h : ℕ → Bool) (kb : Keyboard)
      → AreModifiers is_modifier keysyms
      → At is_modifier desc_of base keymap h kb
      → At is_modifier desc_of base keymap
          (brought_any from to keysyms h)
          (send_any (send_event (suc fuel)) from to keysyms kb)
  send_any-modifiers fuel from to none h kb are_mods k = k
  send_any-modifiers fuel from to (some keysyms) h kb are_mods k =
      send_events-modifiers fuel from to keysyms h kb are_mods k

  -- What is set is set from released and released again, and what is cleared is pressed again.
  restored :
      (sets clears : Option (List ℕ)) (m : ℕ)
      → brought_any true true clears
          (brought_any false false sets (
            brought_any true false clears
              (brought_any false true sets (local_state is_modifier desc_of base keymap))))
          m
        ≡ (local_state is_modifier desc_of base keymap) m
  restored sets clears m =
      back (member_any m sets) (member_any m clears)
        ((local_state is_modifier desc_of base keymap) m)
    where
      back :
          (a b s : Bool)
          → (if b && s
              then true
              else (if a && not s
                  then false
                  else (if b && s then false else (if a && not s then true else s))))
            ≡ s
      back true true true = refl
      back true true false = refl
      back true false true = refl
      back true false false = refl
      back false true true = refl
      back false true false = refl
      back false false true = refl
      back false false false = refl

  other_key : (i m : ℕ) → is_modifier i ≡ false → is_modifier m ≡ true → (i == m) ≡ false
  other_key i m not_mod is_mod = elim (Bool-cases (i == m)) [
    | inl same ↦
        let e : i ≡ m = ground (arith, same) in
        absurd (ground (arith, subst (λ k. is_modifier k ≡ true) (sym e) is_mod, not_mod))
    | inr other ↦ other
  ]

  -- Around the event of any other key, the modifiers that are pressed or released for it are released
  -- or pressed again.
  pub send_defined-restores :
      (fuel : ℕ) (kb : Keyboard) (i : ℕ) (desc : KeysymDesc) (pressed : Bool)
      → (base.keys i).definition ≡ some desc
      → is_modifier i ≡ false
      → At is_modifier desc_of base keymap (local_state is_modifier desc_of base keymap) kb
      → At is_modifier desc_of base keymap
          (local_state is_modifier desc_of base keymap)
          (send_defined (send_event (suc fuel)) desc pressed kb)
  unfolding send_defined
  send_defined-restores fuel kb i desc pressed e not_mod k =
      let sets = keymap.sets i desc e in
      let clears = keymap.clears i desc e in
      let locked =
        update_locks-Holds is_modifier desc_of base desc.set_locks desc.clear_locks
          (local_state is_modifier desc_of base keymap) kb k in
      let set =
        send_any-modifiers fuel false true desc.set_keysyms
          (local_state is_modifier desc_of base keymap) _ sets locked in
      let cleared = send_any-modifiers fuel true false desc.clear_keysyms _ _ clears set in
      let fired =
        Holds_ext is_modifier desc_of base _ _ _
          (λ m is_mod. rw (other_key i m not_mod is_mod) refl)
          (event_lem is_modifier desc_of base keymap _ _ i desc pressed e cleared) in
      let unset = send_any-modifiers fuel false false desc.set_keysyms _ _ sets fired in
      let uncleared = send_any-modifiers fuel true true desc.clear_keysyms _ _ clears unset in
      Holds_ext is_modifier desc_of base _ _ _
        (λ m is_mod. restored desc.set_keysyms desc.clear_keysyms m) uncleared
