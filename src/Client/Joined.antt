-- ===== src/Client/Joined.antt =====
-- guacamole/src/libguac/client.c: the users of a client, however they join and leave.
use occamy.Base.{
  ℕ, zero, suc, ◌<◌, ◌≡◌, ◌≢◌, ◌∙◌, refl, sym, ap, subst, arith, ◌==◌, if◌then◌else◌, true, false,
  Bool-cases, inl, inr, Option, none, some, List, [], ◌∷◌, length,
}
use occamy.Base.Int.{pos, ◌+ℤ◌, ◌-ℤ◌}
use occamy.Base.Members.{member, erase, AreDistinct, erase-AreDistinct, member_ne}
use occamy.Client.Users.{Users, store_at, head_after, add_user, remove_user, remove_all}
use occamy.Client.Links.{
  AreLinked, elsewhere-AreLinked, points_to, unlink_lem, prev_of, store_at_other, store_at_self,
  member-deeper,
}

-- A client whose users are those of a list.
pub record HasUsers (xs : List ℕ) (client : Users) : Type 0 where
  pub links : AreLinked client.prev client.next none client.first xs
  pub distinct : AreDistinct xs
  pub size : client.connected_users ≡ pos (length xs)

length-erase : (u : ℕ) (xs : List ℕ) → member u xs ≡ true → suc (length (erase u xs)) ≡ length xs
length-erase u [] m = absurd (ground (arith, m))
length-erase u (x ∷ xs) m = elim (Bool-cases (x == u)) [
  | inl here ↦ rw here refl
  | inr there ↦
      let inside : member u xs ≡ true = ground (arith, m, there) in
      rw there (ap suc (length-erase u xs inside))
]

add_one : (n : ℕ) → pos n +ℤ pos 1 ≡ pos (suc n)
unfolding ◌+ℤ◌
add_one n = ground arith

take_one : (n : ℕ) → pos (suc n) -ℤ pos 1 ≡ pos n
unfolding ◌-ℤ◌
take_one n = ground arith

other_lem : (u z : ℕ) (xs : List ℕ) → member u xs ≡ false → member z xs ≡ true → (u == z) ≡ false
other_lem u z xs out m = let ne : z ≢ u = member_ne z u xs m out in ground (arith, ne)

-- A user in front of a list that it is not in.
front_lem :
    (prev next : ℕ → Option ℕ) (first : Option ℕ) (xs : List ℕ) (u : ℕ)
    → AreLinked prev next none first xs
    → AreDistinct xs
    → member u xs ≡ false
    → AreLinked
        (store_at (store_at prev (some u) none) first (some u))
        (store_at next (some u) first)
        none
        (some u)
        (u ∷ xs)
front_lem prev next first [] u h d new = (
  refl,
  ap (λ f. store_at (store_at prev (some u) none) f (some u) u) h ∙ store_at_self prev u none,
  store_at_self next u first ∙ h,
)
front_lem prev next first (y ∷ ys) u h d new =
    let self : (y == y) ≡ true = ground arith in
    let y_in : member y (y ∷ ys) ≡ true = rw self refl in
    let uy = other_lem u y (y ∷ ys) new y_in in
    let yu : (y == u) ≡ false = ground (arith, uy) in
    let before = store_at prev (some u) none in
    (
      refl,
      ap (λ f. store_at before f (some u) u) h.0
          ∙ store_at_other before (some y) (some u) u yu
          ∙ store_at_self prev u none,
      (
        store_at_self next u first ∙ h.0,
        ap (λ f. store_at before f (some u) y) h.0 ∙ store_at_self before y (some u),
        subst
            (λ f.
              AreLinked (store_at before first (some u)) (store_at next (some u) first) (some y) f
                ys)
            (sym (store_at_other next (some u) first y uy))
            (elsewhere-AreLinked prev next _ _ (some y) (next y) ys
              (λ z m.
                let uz = other_lem u z (y ∷ ys) new (member-deeper y z ys m) in
                ap (λ f. store_at before f (some u) z) h.0
                ∙ store_at_other before (some y) (some u) z (other_lem y z ys d.0 m)
                ∙ store_at_other prev (some u) none z uz)
              (λ z m.
                store_at_other next (some u) first z
                  (other_lem u z (y ∷ ys) new (member-deeper y z ys m)))
              h.2),
      ),
    )

-- A user that joins comes first.
add_user-HasUsers :
    (u : ℕ) (xs : List ℕ) (client : Users)
    → member u xs ≡ false
    → HasUsers xs client
    → HasUsers (u ∷ xs) (add_user u client)
unfolding add_user
add_user-HasUsers u xs client new h = record {
  links = front_lem client.prev client.next client.first xs u h.links h.distinct new;
  distinct = (new, h.distinct);
  size = ap (λ n. n +ℤ pos 1) h.size ∙ add_one (length xs);
}

-- The pointer to the list behind a removal.
head_lem :
    (xs : List ℕ) (u : ℕ) (client : Users)
    → AreLinked client.prev client.next none client.first xs
    → member u xs ≡ true
    → head_after (client.prev u) (client.next u) client.first
      ≡ (if points_to client.first u then client.next u else client.first)
head_lem [] u client h m = absurd (ground (arith, m))
head_lem (x ∷ xs) u client h m = elim (Bool-cases (x == u)) [
  | inl here ↦
      let same : x ≡ u = ground (arith, here) in
      let alone : client.prev u ≡ none = ap client.prev (sym same) ∙ h.1 in
      rw (alone, h.0, here) refl
  | inr there ↦
      let inside : member u xs ≡ true = ground (arith, m, there) in
      let (q, e, among) = prev_of client.prev client.next x (client.next x) xs u h.2 inside in
      rw (e, h.0, there) refl
]

-- A user that leaves is taken out, and the others stay in their order.
remove_user-HasUsers :
    (u : ℕ) (xs : List ℕ) (client : Users)
    → member u xs ≡ true
    → HasUsers xs client
    → HasUsers (erase u xs) (remove_user u client)
unfolding remove_user
remove_user-HasUsers u xs client m h = record {
  links =
      subst
        (λ f.
          AreLinked (store_at client.prev (client.next u) (client.prev u))
            (store_at client.next (client.prev u) (client.next u)) none f (erase u xs))
        (sym (head_lem xs u client h.links m))
        (unlink_lem client.prev client.next none client.first xs u h.links h.distinct
          (λ q e. absurd (ground (arith, e))) m);
  distinct = erase-AreDistinct u xs h.distinct;
  size =
      ap (λ n. n -ℤ pos 1) (h.size ∙ ap pos (sym (length-erase u xs m)))
      ∙ take_one (length (erase u xs));
}

-- What a client goes through: users that are not there join, and users that are there leave.
pub data Reachable : Users → List ℕ → Type 0 where
  start :
      (client : Users) → client.first ≡ none → client.connected_users ≡ pos 0 → Reachable client []
  joined :
      (u : ℕ) (client : Users) (xs : List ℕ)
      → Reachable client xs
      → member u xs ≡ false
      → Reachable (add_user u client) (u ∷ xs)
  left :
      (u : ℕ) (client : Users) (xs : List ℕ)
      → Reachable client xs
      → member u xs ≡ true
      → Reachable (remove_user u client) (erase u xs)

pub Reachable-HasUsers : (client : Users) (xs : List ℕ) → Reachable client xs → HasUsers xs client
Reachable-HasUsers client _ (start _ e n) = record { links = e; distinct = tt; size = n }
Reachable-HasUsers _ _ (joined u client xs r new) =
    add_user-HasUsers u xs client new (Reachable-HasUsers client xs r)
Reachable-HasUsers _ _ (left u client xs r m) =
    remove_user-HasUsers u xs client m (Reachable-HasUsers client xs r)

-- The removal of all users ends with none: as many rounds as users and one more are enough.
remove_all-HasUsers :
    (fuel : ℕ) (xs : List ℕ) (client : Users)
    → HasUsers xs client
    → length xs < fuel
    → HasUsers [] (remove_all fuel client)
unfolding remove_all
remove_all-HasUsers zero xs client h lt = absurd (omega arith)
remove_all-HasUsers (suc fuel) [] client h lt =
    subst
      (λ f. HasUsers [] (elim f as (λ _. Users) [
        | none ↦ client
        | some user ↦ remove_all fuel (remove_user user client)
      ]))
      (sym h.links) h
remove_all-HasUsers (suc fuel) (x ∷ xs) client h lt =
    let self : (x == x) ≡ true = ground arith in
    let listed : member x (x ∷ xs) ≡ true = rw self refl in
    let without = remove_user-HasUsers x (x ∷ xs) client listed h in
    let shorter : HasUsers xs (remove_user x client) =
      subst (λ ys. HasUsers ys (remove_user x client)) (erase_first x xs self) without in
    subst
      (λ f. HasUsers [] (elim f as (λ _. Users) [
        | none ↦ client
        | some user ↦ remove_all fuel (remove_user user client)
      ]))
      (sym h.links.0) (remove_all-HasUsers fuel xs (remove_user x client) shorter (omega arith))
  where
    erase_first : (x : ℕ) (xs : List ℕ) → (x == x) ≡ true → erase x (x ∷ xs) ≡ xs
    erase_first x xs self = rw self refl

-- However users join and leave, the removal of all of them ends with none: as many rounds as users and one
-- more are enough.
pub Reachable-remove_all :
    (client : Users) (xs : List ℕ) (fuel : ℕ)
    → Reachable client xs
    → length xs < fuel
    → HasUsers [] (remove_all fuel client)
Reachable-remove_all client xs fuel r lt =
    remove_all-HasUsers fuel xs client (Reachable-HasUsers client xs r) lt
