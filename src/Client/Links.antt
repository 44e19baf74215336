-- ===== src/Client/Links.antt =====
-- guacamole/src/libguac/client.c: the links between the users of a client, and the list that they hold.
use occamy.Base.{
  ℕ, ◌≡◌, ◌≢◌, ◌∙◌, refl, sym, ap, subst, arith, ◌==◌, if◌then◌else◌, on_branches, Bool, true,
  false, Bool-cases, inl, inr, Option, none, some, List, [], ◌∷◌,
}
use occamy.Base.Members.{member, erase, AreDistinct, member_ne}
use occamy.Client.Users.{store_at}

-- The users from `first` on are those of a list, each linked to the one before it, and the first to `before`.
abbrev pub AreLinked : (ℕ → Option ℕ) → (ℕ → Option ℕ) → Option ℕ → Option ℕ → List ℕ → Type 0
AreLinked prev next before first [] = first ≡ none
AreLinked prev next before first (x ∷ xs) =
    (first ≡ some x) × (prev x ≡ before) × AreLinked prev next (some x) (next x) xs

-- Whether a pointer points to a user.
abbrev pub points_to : Option ℕ → ℕ → Bool
points_to none u = false
points_to (some x) u = x == u

pub store_at_other :
    (f : ℕ → Option ℕ) (p v : Option ℕ) (b : ℕ) → points_to p b ≡ false → store_at f p v b ≡ f b
store_at_other f none v b h = refl
store_at_other f (some a) v b h = rw h refl

out_of : (b c : Bool) → (if c then true else b) ≡ false → b ≡ false
out_of b true h = absurd (ground (arith, h))
out_of b false h = h

pub store_at_self : (f : ℕ → Option ℕ) (a : ℕ) (v : Option ℕ) → store_at f (some a) v a ≡ v
store_at_self f a v = ground arith

-- Links that are stored elsewhere do not matter.
pub elsewhere-AreLinked :
    (prev next prev' next' : ℕ → Option ℕ) (before first : Option ℕ) (xs : List ℕ)
    → ((x : ℕ) → member x xs ≡ true → prev' x ≡ prev x)
    → ((x : ℕ) → member x xs ≡ true → next' x ≡ next x)
    → AreLinked prev next before first xs
    → AreLinked prev' next' before first xs
elsewhere-AreLinked prev next prev' next' before first [] p n h = h
elsewhere-AreLinked prev next prev' next' before first (x ∷ xs) p n h =
    let self : (x == x) ≡ true = ground arith in
    let here : member x (x ∷ xs) ≡ true = rw self refl in
    let deeper : (y : ℕ) → member y xs ≡ true → member y (x ∷ xs) ≡ true =
      λ y m. on_branches (λ b. b ≡ true) (x == y) true (member y xs) (λ _. refl) (λ _. m) in
    (
      h.0,
      p x here ∙ h.1,
      subst (λ f. AreLinked prev' next' (some x) f xs) (sym (n x here))
          (elsewhere-AreLinked prev next prev' next' (some x) (next x) xs (λ y m. p y (deeper y m))
            (λ y m. n y (deeper y m)) h.2),
    )

pub points_to_none : (p : Option ℕ) (b : ℕ) → ((q : ℕ) → p ≡ some q → q ≢ b) → points_to p b ≡ false
points_to_none none b h = refl
points_to_none (some a) b h = elim (Bool-cases (a == b)) [
  | inl same ↦ absurd (h a refl (ground (arith, same)))
  | inr other ↦ other
]

pub member-deeper : (x q : ℕ) (xs : List ℕ) → member q xs ≡ true → member q (x ∷ xs) ≡ true
member-deeper x q xs m =
    on_branches (λ b. b ≡ true) (x == q) true (member q xs) (λ _. refl) (λ _. m)

module _ (prev next : ℕ → Option ℕ) where
  -- The user before one that is not the first is in the list, or the one before it.
  pub prev_of :
      (x : ℕ) (first : Option ℕ) (xs : List ℕ) (u : ℕ)
      → AreLinked prev next (some x) first xs
      → member u xs ≡ true
      → (q : ℕ) × (prev u ≡ some q) × (member q (x ∷ xs) ≡ true)
  prev_of x first [] u h m = absurd (ground (arith, m))
  prev_of x first (y ∷ ys) u h m = elim (Bool-cases (y == u)) [
    | inl here ↦
        let e : y ≡ u = ground (arith, here) in
        let self : (x == x) ≡ true = ground arith in (x, ap prev (sym e) ∙ h.1, rw self refl)
    | inr there ↦
        let inside : member u ys ≡ true = ground (arith, m, there) in
        let (q, e, among) = prev_of y (next y) ys u h.2 inside in
        (q, e, member-deeper x q (y ∷ ys) among)
  ]

  -- The user after one of a list is in the list, and is not its first.
  next_of :
      (before first : Option ℕ) (x : ℕ) (xs : List ℕ) (u r : ℕ)
      → AreLinked prev next before first (x ∷ xs)
      → member u (x ∷ xs) ≡ true
      → next u ≡ some r
      → member r xs ≡ true
  next_of before first x [] u r h m e = elim (Bool-cases (x == u)) [
    | inl here ↦
        let same : x ≡ u = ground (arith, here) in
        let nothing : none ≡ some r = sym h.2 ∙ ap next same ∙ e in absurd (ground (arith, nothing))
    | inr there ↦ absurd (ground (arith, m, there))
  ]
  next_of before first x (y ∷ ys) u r h m e = elim (Bool-cases (x == u)) [
    | inl here ↦
        let same : x ≡ u = ground (arith, here) in
        let both : some y ≡ some r = sym h.2.0 ∙ ap next same ∙ e in
        let is_y : (y == r) ≡ true = ground (arith, both) in rw is_y refl
    | inr there ↦
        let inside : member u (y ∷ ys) ≡ true = ground (arith, m, there) in
        member-deeper y r ys (next_of (some x) (next x) y ys u r h.2 inside e)
  ]

  -- The links behind the removal of `u`.
  abbrev pub prev_without : ℕ → ℕ → Option ℕ
  prev_without u = store_at prev (next u) (prev u)

  abbrev pub next_without : ℕ → ℕ → Option ℕ
  next_without u = store_at next (prev u) (next u)

  -- The removal of the first user of a list.
  unlink_first :
      (before first : Option ℕ) (x : ℕ) (xs : List ℕ)
      → AreLinked prev next before first (x ∷ xs)
      → AreDistinct (x ∷ xs)
      → ((q : ℕ) → before ≡ some q → member q (x ∷ xs) ≡ false)
      → AreLinked (prev_without x) (next_without x) before (next x) xs
  unlink_first before first x [] h d out = h.2
  unlink_first before first x (y ∷ ys) h d out =
      let outside : (z : ℕ) → member z (y ∷ ys) ≡ true → points_to (prev x) z ≡ false = λ z m.
        points_to_none (prev x) z (λ q e same.
          member_ne z q (y ∷ ys) m (out_of (member q (y ∷ ys)) (x == q) (out q (sym h.1 ∙ e)))
            (sym same)) in
      let self : (y == y) ≡ true = ground arith in
      let y_in : member y (y ∷ ys) ≡ true = rw self refl in
      (
        h.2.0,
        ap (λ p. store_at prev p (prev x) y) h.2.0 ∙ store_at_self prev y (prev x) ∙ h.1,
        subst (λ f. AreLinked (prev_without x) (next_without x) (some y) f ys)
            (sym (store_at_other next (prev x) (next x) y (outside y y_in)))
            (elsewhere-AreLinked prev next (prev_without x) (next_without x) (some y) (next y) ys
              (λ z m. store_at_other prev (next x) (prev x) z (
                points_to_none (next x) z (λ q e same.
                  let is_y : some y ≡ some q = sym h.2.0 ∙ e in
                  let yz : z ≡ y = ground (arith, is_y, same) in member_ne z y ys m d.1.0 yz)))
              (λ z m. store_at_other next (prev x) (next x) z (outside z (member-deeper y z ys m)))
              h.2.2),
      )

  -- The link of the user before a list, behind the removal of one in the list.
  next_lem :
      (x : ℕ) (xs : List ℕ) (u : ℕ)
      → AreLinked prev next (some x) (next x) xs
      → member x xs ≡ false
      → member u xs ≡ true
      → next_without u x ≡ (if points_to (next x) u then next u else next x)
  next_lem x [] u h out m = absurd (ground (arith, m))
  next_lem x (y ∷ ys) u h out m = elim (Bool-cases (y == u)) [
    | inl here ↦
        let same : y ≡ u = ground (arith, here) in
        let before_u : prev u ≡ some x = ap prev (sym same) ∙ h.1 in
        rw (h.0, here)
          (ap (λ p. store_at next p (next u) x) before_u ∙ store_at_self next x (next u))
    | inr there ↦
        let inside : member u ys ≡ true = ground (arith, m, there) in
        let (q, e, among) = prev_of y (next y) ys u h.2 inside in
        let apart : points_to (prev u) x ≡ false = points_to_none (prev u) x (λ r f same.
          let is_q : some q ≡ some r = sym e ∙ f in
          let qx : q ≡ x = ground (arith, is_q, same) in member_ne q x (y ∷ ys) among out qx) in
        store_at_other next (prev u) (next u) x apart ∙ rw (h.0, there) refl
  ]

  -- The removal of any user of a list.
  pub unlink_lem :
      (before first : Option ℕ) (xs : List ℕ) (u : ℕ)
      → AreLinked prev next before first xs
      → AreDistinct xs
      → ((q : ℕ) → before ≡ some q → member q xs ≡ false)
      → member u xs ≡ true
      → AreLinked
          (prev_without u)
          (next_without u)
          before
          (if points_to first u then next u else first)
          (erase u xs)
  unlink_lem before first [] u h d out m = absurd (ground (arith, m))
  unlink_lem before first (x ∷ xs) u h d out m = elim (Bool-cases (x == u)) [
    | inl here ↦
        let same : x ≡ u = ground (arith, here) in
        let self : (x == x) ≡ true = ground arith in
        subst
          (λ v.
            AreLinked (prev_without v) (next_without v) before
              (if points_to first v then next v else first) (erase v (x ∷ xs)))
          same (rw (h.0, self) (unlink_first before first x xs h d out))
    | inr there ↦
        let inside : member u xs ≡ true = ground (arith, m, there) in
        let after_u : points_to (next u) x ≡ false =
          points_to_none (next u) x
            (λ r e same. member_ne r x xs (next_of before first x xs u r h m e) d.0 same) in
        let rest =
          unlink_lem (some x) (next x) xs u h.2 d.1
            (λ q e. subst (λ y. member y xs ≡ false) (ground (arith, e)) d.0) inside in
        rw (h.0, there)
          (
            refl,
            store_at_other prev (next u) (prev u) x after_u ∙ h.1,
            subst (λ f. AreLinked (prev_without u) (next_without u) (some x) f (erase u xs))
                (sym (next_lem x xs u h.2 d.0 inside)) rest,
          )
  ]
