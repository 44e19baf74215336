-- ===== src/Pool/Tests.antt =====
-- The pool at concrete states, and the theorems at one of them.
use occamy.Base.{◌≡◌, refl, [], ◌∷◌}
use occamy.Pool.{Pool, alloc, next_int, next_of}
use occamy.Pool.Unique.{IsValid, alloc-IsValid, next_int-IsValid}

abbrev one_used : Pool
one_used = (next_int (alloc 0)).1

first : (next_int (alloc 0)).0 ≡ 0
unfolding alloc next_int next_of
first = refl

one_used-IsValid : IsValid one_used (0 ∷ [])
unfolding alloc next_int next_of
one_used-IsValid = (next_int-IsValid (alloc 0) [] (alloc-IsValid 0)).1
