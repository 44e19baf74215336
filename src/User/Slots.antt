-- ===== src/User/Slots.antt =====
-- Arrays whose entries a pool hands out, as guacamole/src/libguac/user.c and client.c keep them.
use occamy.Base.{
  ℕ, ◌≤◌, ◌<◌, ◌≡◌, ◌≢◌, ◌∙◌, arith, ap, sym, ltb, ◌==◌, if◌then◌else◌, Bool-cases, inl, inr,
  Option, none, some, List, ◌∷◌, length, set, get_or, length-set, get_or-set_self, get_or-set_ne,
}
use mathlib.Core.Path.{subst}
use occamy.Pool.{Pool, next_int, free_int}
use occamy.Pool.Unique.{
  IsValid, count, remove, count-remove, next_int-IsValid, next_int_bound, free_int-IsValid,
  next_int-min_size,
}

module _ {A : Type 0} (index : A → Option ℕ) (tag : ℕ → ℕ) (bound : ℕ) where
  -- The index of an entry, by how often the entry is in use.
  abbrev pub expected : ℕ → ℕ → Option ℕ
  expected i n = if ltb 0 n then some (tag i) else none

  expected_used : (i n : ℕ) → 1 ≤ n → some (tag i) ≡ expected i n
  expected_used i n h = ground arith

  expected_unused : (i n : ℕ) → n ≡ 0 → none ≡ expected i n
  expected_unused i n h = ground arith

  -- The entries in use are those that the pool has handed out, and they carry their index.
  pub record IsOpen (pool : Pool) (slots : List A) (used : List ℕ) : Type 0 where
    pub valid : IsValid pool used
    pub small : pool.min_size ≡ 0
    pub below : pool.next_value ≤ bound
    pub size : length slots ≡ bound
    pub open_at : (i : ℕ) (d : A) → i < bound → index (get_or slots i d) ≡ expected i (count i used)

  module _ (pool : Pool) (slots : List A) (used : List ℕ) (is_open : IsOpen pool slots used) where
    -- An entry after a store, by whether it is the one stored to.
    entry_at :
        (i j : ℕ) (s d : A) (P : Option ℕ → Type 0)
        → i < length slots
        → (i ≡ j → P (index s))
        → (i ≢ j → P (index (get_or slots j d)))
        → P (index (get_or (set slots i s) j d))
    entry_at i j s d P lt here there = elim (Bool-cases (i == j)) [
      | inl is_same ↦
          let e : i ≡ j = ground arith in
          subst (λ k. P (index (get_or (set slots i s) k d))) e
            (subst (λ a. P (index a)) (sym (get_or-set_self slots i s d lt)) (here e))
      | inr is_other ↦
          let ne : i ≢ j = ground arith in
          subst (λ a. P (index a)) (sym (get_or-set_ne slots i j s d ne)) (there ne)
    ]

    pub next_int-IsOpen :
        (s : A)
        → index s ≡ some (tag (next_int pool).0)
        → length used < bound
        → let (i, pool') = next_int pool in
          (i < bound) × (count i used ≡ 0) × IsOpen pool' (set slots i s) (i ∷ used)
    next_int-IsOpen s e room =
        let (i, pool') = next_int pool in
        let handed = next_int-IsValid pool used is_open.valid in
        let bounds =
          next_int_bound pool used is_open.valid bound (omega (arith, is_open.small)) is_open.below
            room in
        (
          bounds.0,
          handed.0,
          record {
            valid = handed.1;
            small = next_int-min_size pool ∙ is_open.small;
            below = bounds.1;
            size = length-set slots i s ∙ is_open.size;
            open_at = λ j d lt.
                entry_at i j s d (λ r. r ≡ expected j (count j (i ∷ used)))
                  (omega (arith, is_open.size, bounds.0))
                  (λ same.
                    e
                    ∙ ap (λ k. some (tag k)) same
                    ∙ expected_used j (count j (i ∷ used)) (ground arith))
                  (λ other. is_open.open_at j d lt ∙ ap (expected j) (ground arith));
          },
        )

    pub free_int-IsOpen :
        (i : ℕ) (s : A)
        → index s ≡ none
        → i < bound
        → 1 ≤ count i used
        → IsOpen (free_int pool i) (set slots i s) (remove i used)
    unfolding free_int
    free_int-IsOpen i s e lt h = record {
      valid = free_int-IsValid pool used is_open.valid i h;
      small = is_open.small;
      below = is_open.below;
      size = length-set slots i s ∙ is_open.size;
      open_at = λ j d lt'.
          entry_at i j s d (λ r. r ≡ expected j (count j (remove i used)))
            (omega (arith, is_open.size, lt))
            (λ same.
              e
              ∙ expected_unused j (count j (remove i used))
                  (ground (arith, is_open.valid.once j, count-remove i j used h)))
            (λ other.
              is_open.open_at j d lt' ∙ ap (expected j) (ground (arith, count-remove i j used h)));
    }

-- What an allocation does: it refuses, and changes nothing, where all entries are in use, or it
-- hands out an entry that was not.
abbrev pub Allocates : {S : Type 0} → (S → List ℕ → Type 0) → S → List ℕ → Option ℕ × S → Type 0
Allocates AreOpen s used (none, s') = (s' ≡ s) × (length used ≡ 64)
Allocates AreOpen s used (some i, s') = (i < 64) × (count i used ≡ 0) × AreOpen s' (i ∷ used)

module _ {A : Type 0} (index : A → Option ℕ) (tag : ℕ → ℕ) where
  -- What is in use is within the array, and its entry has its index.
  pub used_below :
      (i : ℕ) {pool : _} {slots : List A} {used : List ℕ}
      → IsOpen index tag 64 pool slots used
      → 1 ≤ count i used
      → i < 64
  used_below i h used_i = ground (arith, h.valid.once i, h.below)

  pub used_index :
      (i : ℕ) (d : A) {pool : _} {slots : List A} {used : List ℕ}
      → IsOpen index tag 64 pool slots used
      → 1 ≤ count i used
      → index (get_or slots i d) ≡ some (tag i)
  used_index i d h used_i = h.open_at i d (used_below i h used_i) ∙ ground arith
