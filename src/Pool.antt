-- ===== src/Pool.antt =====
-- guacamole/src/libguac/pool.c: the pool that hands out integers and takes them back. Its linked list
-- of free integers is a list, from the head to the tail.
pub mod Unique
mod Tests
use occamy.Base.{ℕ, ◌+◌, ◌-◌, ltb, if◌then◌else◌, List, [], ◌∷◌, ◌++◌}

-- `guac_pool`
pub record Pool : Type 0 where
  pub min_size : ℕ
  pub active : ℕ
  pub next_value : ℕ
  pub free_ints : List ℕ

-- `guac_pool_alloc`
unfoldable pub alloc : ℕ → Pool
alloc size = record { min_size = size; active = 0; next_value = 0; free_ints = [] }

abbrev new_int : Pool → ℕ × Pool
new_int pool = (pool.next_value, record pool { next_value = pool.next_value + 1 })

-- `guac_pool_next_int`, by the list of free integers, once the integer counts as active.
unfoldable pub next_of : List ℕ → Pool → ℕ × Pool
next_of [] pool = new_int pool
next_of (value ∷ rest) pool =
    if ltb pool.next_value pool.min_size
    then new_int pool
    else (value, record pool { free_ints = rest })

-- `guac_pool_next_int`
unfoldable pub next_int : Pool → ℕ × Pool
unfolding next_of
next_int pool = next_of pool.free_ints (record pool { active = pool.active + 1 })

-- `guac_pool_free_int`
unfoldable pub free_int : Pool → ℕ → Pool
free_int pool value = record pool {
  active = pool.active - 1;
  free_ints = pool.free_ints ++ (value ∷ []);
}
