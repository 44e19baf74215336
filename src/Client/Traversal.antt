-- ===== src/Client/Traversal.antt =====
-- guacamole/src/libguac/client.c: traversals of the users of a client.
use occamy.Base.{
  ℕ, zero, suc, ◌<◌, ◌≡◌, refl, sym, ap, subst, arith, if◌then◌else◌, on_branches, inl, inr, Option,
  none, some, List, [], ◌∷◌, length, All, Any, ◌⊎◌,
}
use occamy.Base.Int.{ℤ, pos, ltb_ℤ, ◌≤ℤ◌}
use occamy.Base.Members.{member}
use occamy.Client.Users.{
  Users, foreach_from, foreach_user, calculate_lag, get_processing_lag, is_listed, for_user,
}
use occamy.Client.Links.{AreLinked}
use occamy.Client.Joined.{Reachable, Reachable-HasUsers}

-- A callback for each user of a list, in order.
abbrev pub visit : {A : Type 0} → List ℕ → (ℕ → A → A) → A → A
visit [] callback a = a
visit (x ∷ xs) callback a = visit xs callback (callback x a)

foreach_from_lem :
    {A : Type 0} (fuel : ℕ) (prev next : ℕ → Option ℕ) (before first : Option ℕ) (xs : List ℕ)
    (callback : ℕ → A → A) (a : A)
    → AreLinked prev next before first xs
    → length xs < fuel
    → foreach_from fuel next callback first a ≡ visit xs callback a
unfolding foreach_from
foreach_from_lem zero prev next before first xs callback a h lt = absurd (omega arith)
foreach_from_lem (suc fuel) prev next before first [] callback a h lt = rw h refl
foreach_from_lem (suc fuel) prev next before first (x ∷ xs) callback a h lt =
    rw (h.0) (
      foreach_from_lem fuel prev next (some x) (next x) xs callback (callback x a) h.2
        (omega arith))

-- However users join and leave, a traversal calls its callback once for each user that is there, the last
-- that joined first, and ends: as many rounds as users and one more are enough.
pub Reachable-foreach_user :
    {A : Type 0} (client : Users) (xs : List ℕ) (fuel : ℕ) (callback : ℕ → A → A) (a : A)
    → Reachable client xs
    → length xs < fuel
    → foreach_user fuel client callback a ≡ visit xs callback a
unfolding foreach_user
Reachable-foreach_user client xs fuel callback a r lt =
    foreach_from_lem fuel client.prev client.next none client.first xs callback a
      (Reachable-HasUsers client xs r).links lt

-- A lag that no user of a list exceeds, and that one of them has, or that is the given one.
abbrev pub IsLargest : (ℕ → ℤ) → ℤ → List ℕ → ℤ → Type 0
IsLargest lags least xs lag =
    (least ≤ℤ lag) × All (λ x. lags x ≤ℤ lag) xs × ((lag ≡ least) ⊎ Any (λ x. lag ≡ lags x) xs)

larger_lem :
    (lags : ℕ → ℤ) (least lag : ℤ) (x : ℕ) (xs : List ℕ)
    → least ≤ℤ lags x
    → IsLargest lags (lags x) xs lag
    → IsLargest lags least (x ∷ xs) lag
larger_lem lags least lag x xs le (above, all, inl e) = (omega arith, (above, all), inr (inl e))
larger_lem lags least lag x xs le (above, all, inr a) = (omega arith, (above, all), inr (inr a))

smaller_lem :
    (lags : ℕ → ℤ) (least lag : ℤ) (x : ℕ) (xs : List ℕ)
    → lags x ≤ℤ least
    → IsLargest lags least xs lag
    → IsLargest lags least (x ∷ xs) lag
smaller_lem lags least lag x xs le (above, all, inl e) = (above, (omega arith, all), inl e)
smaller_lem lags least lag x xs le (above, all, inr a) = (above, (omega arith, all), inr (inr a))

visit-calculate_lag :
    (client : Users) (xs : List ℕ) (least : ℤ)
    → IsLargest client.processing_lag least xs (visit xs (calculate_lag client) least)
visit-calculate_lag client [] least = (omega arith, tt, inl refl)
visit-calculate_lag client (x ∷ xs) least =
    on_branches
      (λ n. IsLargest client.processing_lag least (x ∷ xs) (visit xs (calculate_lag client) n))
      (ltb_ℤ least (client.processing_lag x)) (client.processing_lag x) least
      (λ more.
        larger_lem client.processing_lag least _ x xs (ground (arith, more))
          (visit-calculate_lag client xs (client.processing_lag x)))
      (λ less.
        smaller_lem client.processing_lag least _ x xs (ground (arith, less))
          (visit-calculate_lag client xs least))

-- However users join and leave, the lag of a client is the largest lag of the users that are there, or 0 if
-- none is larger.
pub Reachable-get_processing_lag :
    (client : Users) (xs : List ℕ) (fuel : ℕ)
    → Reachable client xs
    → length xs < fuel
    → IsLargest client.processing_lag (pos 0) xs (get_processing_lag fuel client)
unfolding get_processing_lag
Reachable-get_processing_lag client xs fuel r lt =
    subst (IsLargest client.processing_lag (pos 0) xs)
      (sym (Reachable-foreach_user client xs fuel (calculate_lag client) (pos 0) r lt))
      (visit-calculate_lag client xs (pos 0))

is_listed_lem :
    (fuel : ℕ) (prev next : ℕ → Option ℕ) (before first : Option ℕ) (xs : List ℕ) (u : ℕ)
    → AreLinked prev next before first xs
    → length xs < fuel
    → is_listed fuel next first u ≡ member u xs
unfolding is_listed
is_listed_lem zero prev next before first xs u h lt = absurd (omega arith)
is_listed_lem (suc fuel) prev next before first [] u h lt = rw h refl
is_listed_lem (suc fuel) prev next before first (x ∷ xs) u h lt =
    rw (h.0, is_listed_lem fuel prev next (some x) (next x) xs u h.2 (omega arith)) refl

-- However users join and leave, a callback for a user gets it exactly if it is there, and none otherwise, so
-- that it never follows the pointer to a user that has left.
pub Reachable-for_user :
    {A : Type 0} (client : Users) (xs : List ℕ) (fuel u : ℕ) (callback : Option ℕ → A → A) (a : A)
    → Reachable client xs
    → length xs < fuel
    → for_user fuel client u callback a ≡ callback (if member u xs then some u else none) a
unfolding for_user
Reachable-for_user client xs fuel u callback a r lt =
    ap (λ b. callback (if b then some u else none) a)
      (is_listed_lem fuel client.prev client.next none client.first xs u
        (Reachable-HasUsers client xs r).links lt)
