-- ===== src/Pool/Unique.antt =====
-- The pool of guacamole/src/libguac/pool.c against the integers that are in use.
use occamy.Base.{
  ℕ, ◌+◌, ◌≤◌, ◌<◌, ◌≡◌, refl, arith, ltb, ◌==◌, if◌then◌else◌, List, [], ◌∷◌, ◌++◌, length,
  length-append, on_branches, ap,
}
use occamy.Pool.{Pool, next_int, next_of, free_int, alloc}

-- How often a value stands in a list.
abbrev pub count : ℕ → List ℕ → ℕ
count v [] = 0
count v (x ∷ xs) = (if x == v then 1 else 0) + count v xs

-- The list without the first occurrence of a value.
abbrev pub remove : ℕ → List ℕ → List ℕ
remove v [] = []
remove v (x ∷ xs) = if x == v then xs else x ∷ remove v xs

pub count-append : (v : ℕ) (xs ys : List ℕ) → count v (xs ++ ys) ≡ count v xs + count v ys
count-append v [] ys = omega arith
count-append v (x ∷ xs) ys = omega (arith, count-append v xs ys)

pub count-remove :
    (v w : ℕ) (xs : List ℕ)
    → 1 ≤ count v xs
    → count w (remove v xs) + (if v == w then 1 else 0) ≡ count w xs
count-remove v w [] h = absurd (omega arith)
count-remove v w (x ∷ xs) h = ground (arith, count-remove v w xs)

length-remove : (v : ℕ) (xs : List ℕ) → 1 ≤ count v xs → length (remove v xs) + 1 ≡ length xs
length-remove v [] h = absurd (omega arith)
length-remove v (x ∷ xs) h = ground (arith, length-remove v xs)

-- The pool, where `used` are the integers handed out and not taken back: each integer below the next
-- new one is used or free, once, and no other is.
pub record IsValid (pool : Pool) (used : List ℕ) : Type 0 where
  pub active : pool.active ≡ length used
  pub total : length used + length pool.free_ints ≡ pool.next_value
  pub once :
      (v : ℕ) → count v used + count v pool.free_ints ≡ (if ltb v pool.next_value then 1 else 0)

pub alloc-IsValid : (size : ℕ) → IsValid (alloc size) []
unfolding alloc
alloc-IsValid size = record { active = refl; total = refl; once = λ v. ground arith }

module _ (pool : Pool) (used : List ℕ) (valid : IsValid pool used) where
  new_once :
      (v : ℕ)
      → count v (pool.next_value ∷ used) + count v pool.free_ints
        ≡ (if ltb v (pool.next_value + 1) then 1 else 0)
  new_once v = ground (arith, valid.once v)

  abbrev Hands : ℕ × Pool → Type 0
  Hands (value, pool') = (count value used ≡ 0) × IsValid pool' (value ∷ used)

  new_int-Hands :
      Hands (
        pool.next_value,
        record pool { active = pool.active + 1; next_value = pool.next_value + 1 },
      )
  new_int-Hands = (
    ground (arith, valid.once pool.next_value),
    record {
      active = omega (arith, valid.active);
      total = omega (arith, valid.total);
      once = new_once;
    },
  )

  next_of-Hands :
      (free : List ℕ)
      → pool.free_ints ≡ free
      → Hands (next_of free (record pool { active = pool.active + 1 }))
  unfolding next_of
  next_of-Hands [] e = new_int-Hands
  next_of-Hands (value ∷ rest) e =
      on_branches Hands (ltb pool.next_value pool.min_size) _ _ (λ _. new_int-Hands)
        (λ _. (
          ground (arith, valid.once value, ap (count value) e),
          record {
            active = omega (arith, valid.active);
            total = omega (arith, valid.total, ap length e);
            once = λ v. omega (arith, valid.once v, ap (count v) e);
          },
        ))

  -- An integer that the pool hands out was not in use, and then is.
  pub next_int-IsValid :
      let (value, pool') = next_int pool in (count value used ≡ 0) × IsValid pool' (value ∷ used)
  unfolding next_int
  next_int-IsValid = next_of-Hands pool.free_ints refl

  -- An integer in use that the pool takes back is in use once less.
  pub free_int-IsValid : (v : ℕ) → 1 ≤ count v used → IsValid (free_int pool v) (remove v used)
  unfolding free_int
  free_int-IsValid v h = record {
    active = omega (arith, valid.active, length-remove v used h);
    total =
        omega (arith, valid.total, length-remove v used h, length-append pool.free_ints (v ∷ []));
    once = λ w.
        omega
          (arith, valid.once w, count-remove v w used h, count-append w pool.free_ints (v ∷ []));
  }

  -- As long as fewer than `bound` integers are in use, and the pool's minimum size is no more than
  -- that, the pool hands out integers below `bound` and makes new ones only below it.
  pub next_int_bound :
      (bound : ℕ)
      → pool.min_size ≤ bound
      → pool.next_value ≤ bound
      → length used < bound
      → ((next_int pool).0 < bound) × ((next_int pool).1.next_value ≤ bound)
  unfolding next_int next_of
  next_int_bound bound small below room = of_free pool.free_ints refl
    where
      of_free :
          (free : List ℕ)
          → pool.free_ints ≡ free
          → let (value, pool') = next_of free (record pool { active = pool.active + 1 }) in
            (value < bound) × (pool'.next_value ≤ bound)
      of_free [] e =
          (omega (arith, valid.total, ap length e), omega (arith, valid.total, ap length e))
      of_free (value ∷ rest) e =
          ground (arith, valid.once value, ap (count value) e, valid.total, ap length e)

pub next_int-min_size : (pool : Pool) → (next_int pool).1.min_size ≡ pool.min_size
unfolding next_int next_of
next_int-min_size pool = of_free pool.free_ints
  where
    of_free :
        (free : List ℕ)
        → (next_of free (record pool { active = pool.active + 1 })).1.min_size ≡ pool.min_size
    of_free [] = refl
    of_free (value ∷ rest) =
        on_branches (λ (r : ℕ × Pool). r.1.min_size ≡ pool.min_size)
          (ltb pool.next_value pool.min_size) _ _ (λ _. refl) (λ _. refl)
