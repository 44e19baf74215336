-- ===== src/User/Streams.antt =====
-- The streams and objects of a user over every sequence of allocations and releases
-- (guacamole/src/libguac/user.c).
use occamy.Base.{
  ℕ, zero, suc, ◌*◌, ◌≤◌, ◌<◌, ◌≡◌, ◌∙◌, refl, arith, ap, sym, ◌==◌, on_branches, Option, none,
  some, List, [], ◌∷◌, set, get_or, length-replicate, replicate,
}
use mathlib.Core.Path.{subst}
use occamy.Pool
use occamy.Pool.{next_int, free_int}
use occamy.Pool.Unique.{count, remove, alloc-IsValid}
use occamy.User.{
  User, Stream, Object, alloc, alloc_stream, free_stream, alloc_object, free_object, max_streams,
  max_objects, half, index_bits, new_stream, new_object,
}
use occamy.User.Slots.{IsOpen, Allocates, used_below, used_index, next_int-IsOpen, free_int-IsOpen}

-- The output streams in use are the open ones, and each has twice its number as its index.
abbrev pub StreamsAreOpen : User → List ℕ → Type 0
StreamsAreOpen user =
    IsOpen (λ (s : Stream). s.index) (λ i. i * 2) max_streams user.stream_pool user.output_streams

-- The objects in use are the defined ones, and each has its number as its index.
abbrev pub ObjectsAreOpen : User → List ℕ → Type 0
ObjectsAreOpen user =
    IsOpen (λ (o : Object). o.index) (λ i. i) max_objects user.object_pool user.objects

-- An allocation of a stream refuses, and changes nothing, only where all 64 streams are in use;
-- otherwise it opens a stream within the array that was not in use, of twice its number as its index,
-- and leaves every other as it was.
pub alloc_stream_lem :
    (user : User) (used : List ℕ)
    → StreamsAreOpen user used
    → Allocates StreamsAreOpen user used (alloc_stream user)
unfolding alloc_stream
alloc_stream_lem user used h =
    on_branches (Allocates StreamsAreOpen user used) (user.stream_pool.active == max_streams) _ _
      (λ full. (refl, ground (arith, h.valid.active)))
      (λ room.
        next_int-IsOpen _ _ _ user.stream_pool user.output_streams used h _ refl
          (ground (arith, h.valid.active, h.valid.total, h.below)))

-- Releasing a stream in use closes it, gives its number back, and leaves every other as it was.
free_stream_lem :
    (user : User) (used : List ℕ) (i : ℕ)
    → StreamsAreOpen user used
    → 1 ≤ count i used
    → StreamsAreOpen (free_stream user i) (remove i used)
unfolding free_stream
free_stream_lem user used i h used_i =
    let s = get_or user.output_streams i (new_stream none) in
    let e : half s.index ≡ i =
      ap half (used_index _ _ i (new_stream none) h used_i) ∙ omega arith in
    subst
      (λ k.
        IsOpen (λ (s : Stream). s.index) (λ i. i * 2) max_streams (free_int user.stream_pool k)
          (set user.output_streams i (record s { index = none })) (remove i used))
      (sym e)
      (free_int-IsOpen _ _ _ user.stream_pool user.output_streams used h i _ refl
        (used_below _ _ i h used_i) used_i)

-- The same of objects: an allocation refuses only where all 64 are in use.
alloc_object_lem :
    (user : User) (used : List ℕ)
    → ObjectsAreOpen user used
    → Allocates ObjectsAreOpen user used (alloc_object user)
unfolding alloc_object
alloc_object_lem user used h =
    on_branches (Allocates ObjectsAreOpen user used) (user.object_pool.active == max_objects) _ _
      (λ full. (refl, ground (arith, h.valid.active)))
      (λ room.
        next_int-IsOpen _ _ _ user.object_pool user.objects used h _ refl
          (ground (arith, h.valid.active, h.valid.total, h.below)))

free_object_lem :
    (user : User) (used : List ℕ) (i : ℕ)
    → ObjectsAreOpen user used
    → 1 ≤ count i used
    → ObjectsAreOpen (free_object user i) (remove i used)
unfolding free_object
free_object_lem user used i h used_i =
    let o = get_or user.objects i (new_object none) in
    let e : index_bits o.index ≡ i = ap index_bits (used_index _ _ i (new_object none) h used_i) in
    subst
      (λ k.
        IsOpen (λ (o : Object). o.index) (λ i. i) max_objects (free_int user.object_pool k)
          (set user.objects i (record o { index = none })) (remove i used))
      (sym e)
      (free_int-IsOpen _ _ _ user.object_pool user.objects used h i _ refl
        (used_below _ _ i h used_i) used_i)

-- What a user goes through: allocations that succeed, and releases of what is in use. The lists are
-- the streams and the objects in use.
pub data Reachable : User → List ℕ → List ℕ → Type 0 where
  start : Reachable alloc [] []
  stream_opened :
      (user user' : User) (i : ℕ) (streams objects : List ℕ)
      → Reachable user streams objects
      → alloc_stream user ≡ (some i, user')
      → Reachable user' (i ∷ streams) objects
  stream_closed :
      (user : User) (i : ℕ) (streams objects : List ℕ)
      → Reachable user streams objects
      → 1 ≤ count i streams
      → Reachable (free_stream user i) (remove i streams) objects
  object_opened :
      (user user' : User) (i : ℕ) (streams objects : List ℕ)
      → Reachable user streams objects
      → alloc_object user ≡ (some i, user')
      → Reachable user' streams (i ∷ objects)
  object_closed :
      (user : User) (i : ℕ) (streams objects : List ℕ)
      → Reachable user streams objects
      → 1 ≤ count i objects
      → Reachable (free_object user i) streams (remove i objects)

replicate_index :
    {A : Type 0} (index : A → Option ℕ) (n i : ℕ) (x d : A)
    → i < n
    → index x ≡ none
    → index (get_or (replicate n x) i d) ≡ none
replicate_index index zero i x d lt e = absurd (omega arith)
replicate_index index (suc n) zero x d lt e = e
replicate_index index (suc n) (suc i) x d lt e = replicate_index index n i x d (omega arith) e

streams_kept :
    (user : User) (used : List ℕ)
    → StreamsAreOpen user used
    → StreamsAreOpen (alloc_object user).1 used
unfolding alloc_object
streams_kept user used h =
    on_branches (λ (r : Option ℕ × User). StreamsAreOpen r.1 used)
      (user.object_pool.active == max_objects) _ _ (λ _. h) (λ _. h)

objects_kept :
    (user : User) (used : List ℕ)
    → ObjectsAreOpen user used
    → ObjectsAreOpen (alloc_stream user).1 used
unfolding alloc_stream
objects_kept user used h =
    on_branches (λ (r : Option ℕ × User). ObjectsAreOpen r.1 used)
      (user.stream_pool.active == max_streams) _ _ (λ _. h) (λ _. h)

pub alloc-IsOpen :
    {A : Type 0} (index : A → Option ℕ) (tag : ℕ → ℕ) (x : A)
    → index x ≡ none
    → IsOpen index tag 64 (Pool.alloc 0) (replicate 64 x) []
unfolding Pool.alloc
alloc-IsOpen index tag x e = record {
  valid = alloc-IsValid 0;
  small = refl;
  below = omega arith;
  size = length-replicate 64 x;
  open_at = λ i d lt. replicate_index index 64 i x d lt e;
}

-- However streams and objects are allocated and released, those in use are exactly the open ones,
-- no two of them share an entry or an index, and all are within their arrays.
pub Reachable-AreOpen :
    {user : User} {streams objects : List ℕ}
    → Reachable user streams objects
    → StreamsAreOpen user streams × ObjectsAreOpen user objects
unfolding alloc free_stream free_object
Reachable-AreOpen start =
    (alloc-IsOpen _ _ (new_stream none) refl, alloc-IsOpen _ _ (new_object none) refl)
Reachable-AreOpen (stream_opened user _ i streams objects r e) =
    let (s, o) = Reachable-AreOpen r in
    (
      (subst (Allocates StreamsAreOpen user streams) e (alloc_stream_lem user streams s)).2,
      subst (λ (t : Option ℕ × User). ObjectsAreOpen t.1 objects) e (objects_kept user objects o),
    )
Reachable-AreOpen (stream_closed user i streams objects r h) =
    let (s, o) = Reachable-AreOpen r in (free_stream_lem user streams i s h, o)
Reachable-AreOpen (object_opened user _ i streams objects r e) =
    let (s, o) = Reachable-AreOpen r in
    (
      subst (λ (t : Option ℕ × User). StreamsAreOpen t.1 streams) e (streams_kept user streams s),
      (subst (Allocates ObjectsAreOpen user objects) e (alloc_object_lem user objects o)).2,
    )
Reachable-AreOpen (object_closed user i streams objects r h) =
    let (s, o) = Reachable-AreOpen r in (s, free_object_lem user objects i o h)
