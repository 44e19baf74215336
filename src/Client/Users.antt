-- ===== src/Client/Users.antt =====
-- guacamole/src/libguac/client.c: the list of the users of a client, which is linked in both directions through the
-- users themselves. A user is its address, and the fields of all users are functions of it; NULL is `none`.
-- The callbacks of a traversal are functions on a state of their own.
use occamy.Base.{
  ℕ, zero, suc, ◌==◌, if◌then◌else◌, Bool, true, false, Option, none, some, List, [], ◌∷◌, ◌++◌,
}
use occamy.Base.Int.{ℤ, pos, ltb_ℤ, ◌+ℤ◌, ◌-ℤ◌}

-- The part of `guac_client` about its users, with the fields of these; `left` are the calls of leave handlers,
-- each with the handler and the user.
pub record Users : Type 0 where
  pub first : Option ℕ
  pub connected_users : ℤ
  pub owner : Option ℕ
  pub leave_handler : Option ℕ
  pub prev : ℕ → Option ℕ
  pub next : ℕ → Option ℕ
  pub is_owner : ℕ → Bool
  pub processing_lag : ℕ → ℤ
  pub user_leave_handler : ℕ → Option ℕ
  pub left : List (ℕ × ℕ)

-- A store to the field of the user that a pointer points to, where it is not NULL.
abbrev pub store_at : (ℕ → Option ℕ) → Option ℕ → Option ℕ → ℕ → Option ℕ
store_at field none value b = field b
store_at field (some a) value b = if a == b then value else field b

-- `guac_client_add_user`
unfoldable pub add_user : ℕ → Users → Users
add_user user client = record client {
  prev = store_at (store_at client.prev (some user) none) client.first (some user);
  next = store_at client.next (some user) client.first;
  first = some user;
  connected_users = client.connected_users +ℤ pos 1;
  owner = if client.is_owner user then some user else client.owner;
}

-- The head of the list behind a removal, by the pointer of the user to the one before it.
abbrev pub head_after : Option ℕ → Option ℕ → Option ℕ → Option ℕ
head_after none next first = next
head_after (some before) next first = first

-- The call of a leave handler, if there is one.
abbrev pub leave_calls : Option ℕ → Option ℕ → ℕ → List (ℕ × ℕ)
leave_calls (some h) other user = (h, user) ∷ []
leave_calls none (some h) user = (h, user) ∷ []
leave_calls none none user = []

-- `guac_client_remove_user`
unfoldable pub remove_user : ℕ → Users → Users
remove_user user client = record client {
  first = head_after (client.prev user) (client.next user) client.first;
  next = store_at client.next (client.prev user) (client.next user);
  prev = store_at client.prev (client.next user) (client.prev user);
  connected_users = client.connected_users -ℤ pos 1;
  owner = if client.is_owner user then none else client.owner;
  left = client.left ++ leave_calls (client.user_leave_handler user) client.leave_handler user;
}

-- The loop of `guac_client_foreach_user` from `current` on, on fuel.
unfoldable pub foreach_from : {A : Type 0} → ℕ → (ℕ → Option ℕ) → (ℕ → A → A) → Option ℕ → A → A
foreach_from zero next callback current a = a
foreach_from (suc fuel) next callback none a = a
foreach_from (suc fuel) next callback (some current) a =
    foreach_from fuel next callback (next current) (callback current a)

-- `guac_client_foreach_user`
unfoldable pub foreach_user : {A : Type 0} → ℕ → Users → (ℕ → A → A) → A → A
foreach_user fuel client callback a = foreach_from fuel client.next callback client.first a

-- `__calculate_lag`
abbrev pub calculate_lag : Users → ℕ → ℤ → ℤ
calculate_lag client user processing_lag =
    if ltb_ℤ processing_lag (client.processing_lag user)
    then client.processing_lag user
    else processing_lag

-- `guac_client_get_processing_lag`
unfoldable pub get_processing_lag : ℕ → Users → ℤ
get_processing_lag fuel client = foreach_user fuel client (calculate_lag client) (pos 0)

-- `guac_client_for_owner`
unfoldable pub for_owner : {A : Type 0} → Users → (Option ℕ → A → A) → A → A
for_owner client callback a = callback client.owner a

-- The search of `guac_client_for_user` from `current` on, on fuel.
unfoldable pub is_listed : ℕ → (ℕ → Option ℕ) → Option ℕ → ℕ → Bool
is_listed zero next current user = false
is_listed (suc fuel) next none user = false
is_listed (suc fuel) next (some current) user =
    let rest = is_listed fuel next (next current) user in if current == user then true else rest

-- `guac_client_for_user`
unfoldable pub for_user : {A : Type 0} → ℕ → Users → ℕ → (Option ℕ → A → A) → A → A
for_user fuel client user callback a =
    callback (if is_listed fuel client.next client.first user then some user else none) a

-- The loop of `guac_client_free` that removes all users, on fuel.
unfoldable pub remove_all : ℕ → Users → Users
remove_all zero client = client
remove_all (suc fuel) client = elim client.first [
  | none ↦ client
  | some user ↦ remove_all fuel (remove_user user client)
]
