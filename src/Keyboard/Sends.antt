-- ===== src/Keyboard/Sends.antt =====
-- guacamole/src/protocols/rdp/keyboard.c and decompose.c: the events of any keysym, on enough fuel.
use occamy.Base.{
  ℕ, suc, ◌<◌, ◌≡◌, ◌≢◌, ◌∙◌, inl, inr, refl, sym, ap, subst, arith, ◌==◌, on_branches, Bool, true,
  false, not, ◌||◌, Bool-cases, Option-cases, Option, none, some, leb,
}
use occamy.Base.Int.{ℤ, pos, negsuc, pos_part, ltb_ℤ}
use occamy.Keyboard.{send_event, decompose_keysym, fall_back, send_unicode}
use occamy.Keyboard.Keys.{
  KeysymDesc, Keyboard, unicode_event, map_key, defined_at, get_key, is_defined,
}
use occamy.Keyboard.Decompose.{decomposed_key, decomposed_key_lem}
use occamy.Keyboard.Held.{IsKeymap, changed, send-Holds}
use occamy.Keyboard.Restores.{send_defined-restores}
use occamy.Keyboard.Modifiers.{At, local_state, get_key_base, send_event-modifier}

-- A number of a key below 0x10000 is that of its keysym.
pub map_key-below : (z : ℤ) (i : ℕ) → map_key z ≡ some i → i < 0x10000 → z ≡ pos i
unfolding map_key
map_key-below (pos n) i e lt = ground (arith, e)
map_key-below (negsuc n) i e lt = absurd (ground (arith, e))

some_of : {A : Type 0} → A → Option A → A
some_of x none = x
some_of x (some y) = y

-- A defined key has the number of its keysym, and its description.
defined_at-inverse :
    (kb : Keyboard) (o : Option ℕ) (i : ℕ) (desc : KeysymDesc)
    → defined_at kb o ≡ some (i, desc)
    → (o ≡ some i) × ((kb.keys i).definition ≡ some desc)
unfolding some_of
defined_at-inverse kb none i desc e = absurd (ground (arith, e))
defined_at-inverse kb (some j) i desc e = elim (Option-cases (kb.keys j).definition) [
  | inl undefined ↦ absurd (ground (arith, e, undefined))
  | inr (d, has) ↦
      let key : ℕ × KeysymDesc = (j, d) in
      let there : defined_at kb (some j) ≡ some (j, d) = rw (has, defined_at) refl in
      let same = ap (some_of key) (sym there ∙ e) in
      let number : j ≡ i = ap (λ (k : ℕ × KeysymDesc). k.0) same in
      let content : d ≡ desc = ap (λ (k : ℕ × KeysymDesc). k.1) same in
      (ap some number, ap (λ k. (kb.keys k).definition) (sym number) ∙ has ∙ ap some content)
]

pub get_key-inverse :
    (kb : Keyboard) (z : ℤ) (i : ℕ) (desc : KeysymDesc)
    → get_key kb z ≡ some (i, desc)
    → (map_key z ≡ some i) × ((kb.keys i).definition ≡ some desc)
unfolding get_key
get_key-inverse kb z i desc e = defined_at-inverse kb (map_key z) i desc e

left_false : (a b : Bool) → (a || b) ≡ false → a ≡ false
left_false true b h = absurd (ground (arith, h))
left_false false b h = refl

right_false : (a b : Bool) → (a || b) ≡ false → b ≡ false
right_false true b h = absurd (ground (arith, h))
right_false false b h = h

is_defined-cases :
    (kb : Keyboard) (z : ℤ)
    → not (is_defined kb z) ≡ false
    → (i : ℕ) × (desc : KeysymDesc) × (get_key kb z ≡ some (i, desc))
unfolding is_defined
is_defined-cases kb z h = elim (Option-cases (get_key kb z)) [
  | inl undefined ↦ absurd (ground (arith, h, undefined))
  | inr (key, has) ↦ (key.0, key.1, has)
]

module _ (is_modifier : ℕ → Bool) (desc_of : ℕ → KeysymDesc) (base : Keyboard)
    (keymap : IsKeymap is_modifier desc_of base.keys) where
  abbrev Kept : Keyboard → Type 0
  Kept = At is_modifier desc_of base keymap (local_state is_modifier desc_of base keymap)

  -- A key that is no modifier.
  send_event-defined :
      (fuel : ℕ) (z : ℤ) (i : ℕ) (desc : KeysymDesc) (pressed : Bool) (kb : Keyboard)
      → get_key base z ≡ some (i, desc)
      → is_modifier i ≡ false
      → Kept kb
      → Kept (send_event (suc (suc fuel)) z pressed kb)
  unfolding send_event
  send_event-defined fuel z i desc pressed kb e not_mod k =
      let (number, has) = get_key-inverse base z i desc e in
      let some_code : (desc.scancode == 0) ≡ false = ground (arith, keymap.scancode i desc has) in
      rw (get_key_base is_modifier desc_of base keymap _ kb z k, e, some_code)
        (send_defined-restores is_modifier desc_of base keymap fuel kb i desc pressed has not_mod k)

  -- What is typed instead of a key that is not defined, if it is typed at all.
  abbrev KeptAny : Option Keyboard → Type 0
  KeptAny none = Unit
  KeptAny (some kb) = Kept kb

  typed_or_unicode :
      (z : ℤ) (kb : Keyboard) (typed : Option Keyboard)
      → KeptAny typed
      → Kept kb
      → Kept (elim typed as (λ _. Keyboard) [ none ↦ send_unicode z kb | some t ↦ t ])
  unfolding send_unicode
  typed_or_unicode z kb (some t) h k = h
  typed_or_unicode (negsuc n) kb none h k =
      send-Holds is_modifier desc_of base (unicode_event _) _ kb k
  typed_or_unicode (pos n) kb none h k =
      on_branches Kept (leb n 0xff) _ _
        (λ _. send-Holds is_modifier desc_of base (unicode_event n) _ kb k)
        (λ _.
          on_branches Kept (leb 0x1000000 n) _ _
            (λ _. send-Holds is_modifier desc_of base (unicode_event _) _ kb k) (λ _. k))

  -- The two keys of a decomposed key are no modifiers.
  not_modifier :
      (d i : ℕ) (desc : KeysymDesc)
      → ((m : ℕ) → is_modifier m ≡ true → d ≢ m)
      → get_key base (pos d) ≡ some (i, desc)
      → is_modifier i ≡ false
  not_modifier d i desc apart e = elim (Bool-cases (is_modifier i)) [
    | inl is_mod ↦
        let same =
          map_key-below (pos d) i (get_key-inverse base (pos d) i desc e).0
            (keymap.below i is_mod).1 in
        absurd (apart i is_mod (ap pos_part same))
    | inr not_mod ↦ not_mod
  ]

  -- One press or release of a key that is defined and is no modifier.
  type_one :
      (fuel d : ℕ) (pressed : Bool) (kb : Keyboard)
      → ((m : ℕ) → is_modifier m ≡ true → d ≢ m)
      → not (is_defined base (pos d)) ≡ false
      → Kept kb
      → Kept (send_event (suc (suc fuel)) (pos d) pressed kb)
  type_one fuel d pressed kb apart known k =
      let (i, desc, e) = is_defined-cases base (pos d) known in
      send_event-defined fuel (pos d) i desc pressed kb e (not_modifier d i desc apart e) k

  is_defined_base : (kb : Keyboard) (z : ℤ) → Kept kb → is_defined kb z ≡ is_defined base z
  unfolding is_defined
  is_defined_base kb z k =
      rw (get_key_base is_modifier desc_of base keymap _ kb z k, is_defined) refl

  fall_back-Kept :
      (fuel : ℕ) (z : ℤ) (pressed : Bool) (kb : Keyboard)
      → Kept kb
      → Kept (fall_back (send_event (suc (suc fuel))) z pressed kb)
  unfolding decompose_keysym
  fall_back-Kept fuel z false kb k = k
  fall_back-Kept fuel z true kb k =
      let (dead, letter) = decomposed_key (pos_part z) in
      let apart = λ (m : ℕ) (is_mod : is_modifier m ≡ true).
        decomposed_key_lem (pos_part z) m (keymap.below m is_mod).0 (keymap.apart m is_mod) in
      let not_dead = λ (m : ℕ) (is_mod : is_modifier m ≡ true). (apart m is_mod).0 in
      let not_letter = λ (m : ℕ) (is_mod : is_modifier m ≡ true). (apart m is_mod).1 in
      let typed : (not (is_defined kb (pos dead)) || not (is_defined kb (pos letter))) ≡ false
          → Kept (
              send_event (suc (suc fuel)) (pos letter) false (
                send_event (suc (suc fuel)) (pos letter) true (
                  send_event (suc (suc fuel)) (pos dead) false
                    (send_event (suc (suc fuel)) (pos dead) true kb)))) =
        λ both.
          let dead_known : not (is_defined base (pos dead)) ≡ false =
            subst (λ b. not b ≡ false) (is_defined_base kb (pos dead) k) (left_false _ _ both) in
          let letter_known : not (is_defined base (pos letter)) ≡ false =
            subst (λ b. not b ≡ false) (is_defined_base kb (pos letter) k)
              (right_false (not (is_defined kb (pos dead))) _ both) in
          type_one fuel letter false _ not_letter letter_known (
            type_one fuel letter true _ not_letter letter_known (
              type_one fuel dead false _ not_dead dead_known
                (type_one fuel dead true kb not_dead dead_known k))) in
      typed_or_unicode z kb (decompose_keysym (send_event (suc (suc fuel))) z kb)
        (on_branches KeptAny (ltb_ℤ z (pos 0) || ltb_ℤ (pos 0xff) z) none _ (λ _. tt)
          (λ _.
            on_branches KeptAny (dead == 0) none _ (λ _. tt)
              (λ _.
                on_branches KeptAny
                  (not (is_defined kb (pos dead)) || not (is_defined kb (pos letter))) none _
                  (λ _. tt) (λ both. typed both))))
        k

  -- Whatever keysym an event is for, if it is that of no modifier, it leaves the modifiers as they are.
  pub send_event-Kept :
      (fuel : ℕ) (z : ℤ) (pressed : Bool) (kb : Keyboard)
      → ((i : ℕ) (desc : KeysymDesc) → get_key base z ≡ some (i, desc) → is_modifier i ≡ false)
      → Kept kb
      → Kept (send_event (suc (suc (suc fuel))) z pressed kb)
  unfolding send_event
  send_event-Kept fuel z pressed kb other k = elim (Option-cases (get_key base z)) [
    | inl undefined ↦ unknown undefined
    | inr (key, has) ↦
        send_event-defined (suc fuel) z key.0 key.1 pressed kb has (other key.0 key.1 has) k
  ]
    where
      unknown : get_key base z ≡ none → Kept (send_event (suc (suc (suc fuel))) z pressed kb)
      unknown undefined =
          rw (get_key_base is_modifier desc_of base keymap _ kb z k, undefined)
            (fall_back-Kept fuel z pressed kb k)

  -- An event of a modifier changes it alone.
  pub send_event-changed :
      (fuel : ℕ) (z : ℤ) (i : ℕ) (desc : KeysymDesc) (pressed : Bool) (h : ℕ → Bool) (kb : Keyboard)
      → get_key base z ≡ some (i, desc)
      → is_modifier i ≡ true
      → At is_modifier desc_of base keymap h kb
      → At is_modifier desc_of base keymap
          (changed h i pressed)
          (send_event (suc fuel) z pressed kb)
  send_event-changed fuel z i desc pressed h kb e is_mod k =
      let same = map_key-below z i (get_key-inverse base z i desc e).0 (keymap.below i is_mod).1 in
      subst
        (λ y.
          At is_modifier desc_of base keymap (changed h i pressed)
            (send_event (suc fuel) y pressed kb))
        (sym same)
        (send_event-modifier is_modifier desc_of base keymap fuel i h kb pressed is_mod k)
