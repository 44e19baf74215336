-- ===== src/Client/Tests.antt =====
-- A new client, and the theorems at it.
use occamy.Base.{ℕ, ◌≡◌, ◌+◌, ◌*◌, ◌≤◌, ◌==◌, refl, arith, none, some, [], ◌∷◌}
use occamy.Base.Int.{pos}
use occamy.Pool
use occamy.Pool.{next_int, next_of}
use occamy.Pool.Unique.{IsValid, count, remove, alloc-IsValid, next_int-IsValid}
use occamy.User.{new_stream}
use occamy.User.Streams.{alloc-IsOpen}
use occamy.Client.{
  Client, alloc, alloc_layer, alloc_buffer, free_buffer, free_layer, alloc_stream, free_stream,
}
use occamy.Client.Layers.{
  OpensOne, ClosesOne, buffer_index, buffers_lem, free_layer_lem, client_streams_lem,
}
use occamy.Client.Users.{
  Users, add_user, remove_user, foreach_user, get_processing_lag, for_user, remove_all,
}
use occamy.Client.Joined.{HasUsers, Reachable, start, joined, left, Reachable-remove_all}
use occamy.Client.Traversal.{
  IsLargest, Reachable-foreach_user, Reachable-get_processing_lag, Reachable-for_user,
}

abbrev with_layer : Client
with_layer = (alloc_layer alloc).1

first_buffer : (alloc_buffer alloc).0 ≡ 0xffffffff
unfolding alloc_buffer alloc next_int next_of Pool.alloc
first_buffer = refl

first_layer : (alloc_layer alloc).0 ≡ 1
unfolding alloc_layer alloc next_int next_of Pool.alloc
first_layer = refl

buffers_lem_example :
    (let (index, client') = alloc_buffer alloc in
      (value : ℕ) × (index ≡ buffer_index value)
      × (count value [] ≡ 0)
      × IsValid client'.buffer_pool (value ∷ []))
    × ((value : ℕ)
        → 1 ≤ count value []
        → IsValid (free_buffer alloc (buffer_index value)).buffer_pool (remove value []))
unfolding alloc Pool.alloc
buffers_lem_example = buffers_lem alloc [] (alloc-IsValid 1024) (omega arith) (omega arith)

client_streams_lem_example :
    OpensOne alloc [] (alloc_stream alloc)
    × ((i : ℕ) → 1 ≤ count i [] → ClosesOne alloc [] i (free_stream alloc i))
unfolding alloc
client_streams_lem_example =
    client_streams_lem alloc []
      (alloc-IsOpen (λ s. s.index) (λ i. i * 2 + 1) (new_stream none) refl)

free_layer_lem_example : ¬ IsValid (free_layer with_layer (0 + 1)).layer_pool (remove 0 (0 ∷ []))
unfolding alloc_layer alloc next_int next_of Pool.alloc
free_layer_lem_example =
    free_layer_lem with_layer (0 ∷ []) 0
      (next_int-IsValid (alloc.layer_pool) [] (alloc-IsValid 1024)).1 (omega arith)

-- Three users join, and the second leaves.
abbrev no_users : Users
no_users = record {
  first = none;
  connected_users = pos 0;
  owner = none;
  leave_handler = none;
  prev = λ u. none;
  next = λ u. none;
  is_owner = λ u. u == 7;
  processing_lag = λ u. pos (u * 10);
  user_leave_handler = λ u. none;
  left = [];
}

abbrev two_users : Users
two_users = remove_user 5 (add_user 3 (add_user 5 (add_user 7 no_users)))

two_users-Reachable : Reachable two_users (3 ∷ 7 ∷ [])
two_users-Reachable =
    left 5 _ (3 ∷ 5 ∷ 7 ∷ [])
      (joined 3 _ (5 ∷ 7 ∷ [])
        (joined 5 _ (7 ∷ []) (joined 7 _ [] (start no_users refl refl) refl) refl) refl)
      refl

Reachable-foreach_user_example : foreach_user 3 two_users ◌∷◌ [] ≡ 7 ∷ 3 ∷ []
Reachable-foreach_user_example =
    Reachable-foreach_user two_users (3 ∷ 7 ∷ []) 3 ◌∷◌ [] two_users-Reachable (omega arith)

Reachable-get_processing_lag_example :
    IsLargest two_users.processing_lag (pos 0) (3 ∷ 7 ∷ []) (get_processing_lag 3 two_users)
Reachable-get_processing_lag_example =
    Reachable-get_processing_lag two_users (3 ∷ 7 ∷ []) 3 two_users-Reachable (omega arith)

Reachable-for_user_example : for_user 3 two_users 5 (λ u a. u) (some 1) ≡ none
Reachable-for_user_example =
    Reachable-for_user two_users (3 ∷ 7 ∷ []) 3 5 (λ u a. u) (some 1) two_users-Reachable
      (omega arith)

Reachable-remove_all_example : HasUsers [] (remove_all 3 two_users)
Reachable-remove_all_example =
    Reachable-remove_all two_users (3 ∷ 7 ∷ []) 3 two_users-Reachable (omega arith)
