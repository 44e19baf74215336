-- ===== src/Base/Lists.antt =====
-- Arrays as lists measured and indexed by native numbers, under the library's names.
use Prim.Native.Nat.{ℕ, zero, suc, ◌+◌, ◌-◌, ◌≤◌, ◌<◌, min}
use mathlib.Core.Path.{◌≡◌, refl, ap, ◌∙◌, subst}
use mathlib.Core.Logic.{◌≢◌, ◌⊎◌, inl, inr}
use mathlib.Core.List.{List, [], ◌∷◌, ◌++◌, map, Permᴰ}
use mathlib.Core.Option.{Option, none, some}
use native.Mathlib.Omega.{arith}

module _ {ℓ} {A : Type ℓ} where
  abbrev pub length : List A → ℕ
  length [] = 0
  length (x ∷ xs) = suc (length xs)

  abbrev pub get_elem? : List A → ℕ → Option A
  get_elem? [] i = none
  get_elem? (x ∷ xs) zero = some x
  get_elem? (x ∷ xs) (suc i) = get_elem? xs i

  -- A read past the end gives the default.
  abbrev pub get_or : List A → ℕ → A → A
  get_or [] i d = d
  get_or (x ∷ xs) zero d = x
  get_or (x ∷ xs) (suc i) d = get_or xs i d

  -- A write past the end changes nothing.
  abbrev pub set : List A → ℕ → A → List A
  set [] i v = []
  set (x ∷ xs) zero v = v ∷ xs
  set (x ∷ xs) (suc i) v = x ∷ set xs i v

  abbrev pub take : ℕ → List A → List A
  take zero xs = []
  take (suc n) [] = []
  take (suc n) (x ∷ xs) = x ∷ take n xs

  abbrev pub drop : ℕ → List A → List A
  drop zero xs = xs
  drop (suc n) [] = []
  drop (suc n) (x ∷ xs) = drop n xs

  abbrev pub replicate : ℕ → A → List A
  replicate zero a = []
  replicate (suc n) a = a ∷ replicate n a

  -- A predicate of every element.
  abbrev pub All {κ} : (A → Type κ) → List A → Type κ
  All P [] = Unit
  All P (x ∷ xs) = P x × All P xs

  -- A predicate of some element.
  abbrev pub Any : (A → Type 0) → List A → Type 0
  Any P [] = ⊥
  Any P (x ∷ xs) = P x ⊎ Any P xs

  pub All-append {κ} : (P : A → Type κ) (xs ys : List A) → All P xs → All P ys → All P (xs ++ ys)
  All-append P [] ys p q = q
  All-append P (x ∷ xs) ys p q = (p.0, All-append P xs ys p.1 q)

module _ {ℓ} {A : Type ℓ} where
  pub Any-append_left : (P : A → Type 0) (xs ys : List A) → Any P xs → Any P (xs ++ ys)
  Any-append_left P [] ys h = absurd h
  Any-append_left P (x ∷ xs) ys (inl h) = inl h
  Any-append_left P (x ∷ xs) ys (inr h) = inr (Any-append_left P xs ys h)

  pub Any-append_right : (P : A → Type 0) (xs ys : List A) → Any P ys → Any P (xs ++ ys)
  Any-append_right P [] ys h = h
  Any-append_right P (x ∷ xs) ys h = inr (Any-append_right P xs ys h)

  pub Any-permute : (P : A → Type 0) (xs ys : List A) → Permᴰ xs ys → Any P xs → Any P ys
  Any-permute P _ _ Permᴰ.nil h = h
  Any-permute P _ _ (Permᴰ.cons e p) (inl h) = inl (subst P e h)
  Any-permute P _ _ (Permᴰ.cons e p) (inr h) = inr (Any-permute P _ _ p h)
  Any-permute P _ _ (Permᴰ.swap e f) (inl h) = inr (inl (subst P e h))
  Any-permute P _ _ (Permᴰ.swap e f) (inr (inl h)) = inl (subst P f h)
  Any-permute P _ _ (Permᴰ.swap e f) (inr (inr h)) = inr (inr h)
  Any-permute P _ _ (Permᴰ.trans p q) h = Any-permute P _ _ q (Any-permute P _ _ p h)

  pub length-permute : (xs ys : List A) → Permᴰ xs ys → length xs ≡ length ys
  length-permute _ _ Permᴰ.nil = refl
  length-permute _ _ (Permᴰ.cons e p) = ap suc (length-permute _ _ p)
  length-permute _ _ (Permᴰ.swap e f) = refl
  length-permute _ _ (Permᴰ.trans p q) = length-permute _ _ p ∙ length-permute _ _ q

  pub length-append : (xs ys : List A) → length (xs ++ ys) ≡ length xs + length ys
  length-append [] ys = omega arith
  length-append (x ∷ xs) ys = omega (arith, length-append xs ys)

  pub length-set : (xs : List A) (i : ℕ) (v : A) → length (set xs i v) ≡ length xs
  length-set [] i v = refl
  length-set (x ∷ xs) zero v = refl
  length-set (x ∷ xs) (suc i) v = ap suc (length-set xs i v)

  pub length-replicate : (n : ℕ) (a : A) → length (replicate n a) ≡ n
  length-replicate zero a = refl
  length-replicate (suc n) a = ap suc (length-replicate n a)

  pub length-take : (n : ℕ) (xs : List A) → length (take n xs) ≡ min n (length xs)
  length-take zero xs = omega arith
  length-take (suc n) [] = omega arith
  length-take (suc n) (x ∷ xs) = omega (arith, length-take n xs)

  pub length-drop : (n : ℕ) (xs : List A) → length (drop n xs) ≡ length xs - n
  length-drop zero xs = omega arith
  length-drop (suc n) [] = omega arith
  length-drop (suc n) (x ∷ xs) = omega (arith, length-drop n xs)

  pub get_or-set_self :
      (xs : List A) (i : ℕ) (v d : A) → i < length xs → get_or (set xs i v) i d ≡ v
  get_or-set_self [] i v d h = elim h [ ]
  get_or-set_self (x ∷ xs) zero v d h = refl
  get_or-set_self (x ∷ xs) (suc i) v d h = get_or-set_self xs i v d (omega arith)

  pub get_or-set_ne :
      (xs : List A) (i j : ℕ) (v d : A) → i ≢ j → get_or (set xs i v) j d ≡ get_or xs j d
  get_or-set_ne [] i j v d h = refl
  get_or-set_ne (x ∷ xs) zero zero v d h = absurd (h refl)
  get_or-set_ne (x ∷ xs) zero (suc j) v d h = refl
  get_or-set_ne (x ∷ xs) (suc i) zero v d h = refl
  get_or-set_ne (x ∷ xs) (suc i) (suc j) v d h = get_or-set_ne xs i j v d (λ e. h (ap suc e))

  pub get_elem?-eq-get_or :
      (xs : List A) (i : ℕ) (d : A) → i < length xs → get_elem? xs i ≡ some (get_or xs i d)
  get_elem?-eq-get_or [] i d h = elim h [ ]
  get_elem?-eq-get_or (x ∷ xs) zero d h = refl
  get_elem?-eq-get_or (x ∷ xs) (suc i) d h = get_elem?-eq-get_or xs i d (omega arith)

  pub take-append-drop : (n : ℕ) (xs : List A) → take n xs ++ drop n xs ≡ xs
  take-append-drop zero xs = refl
  take-append-drop (suc n) [] = refl
  take-append-drop (suc n) (x ∷ xs) = ap (◌∷◌ x) (take-append-drop n xs)

  pub take_all : (n : ℕ) (xs : List A) → length xs ≤ n → take n xs ≡ xs
  take_all zero [] h = refl
  take_all zero (x ∷ xs) h = absurd (omega arith)
  take_all (suc n) [] h = refl
  take_all (suc n) (x ∷ xs) h = ap (◌∷◌ x) (take_all n xs (omega arith))

  pub take-length : (xs ys : List A) → take (length xs) (xs ++ ys) ≡ xs
  take-length [] ys = refl
  take-length (x ∷ xs) ys = ap (◌∷◌ x) (take-length xs ys)

  pub drop-length : (xs ys : List A) → drop (length xs) (xs ++ ys) ≡ ys
  drop-length [] ys = refl
  drop-length (x ∷ xs) ys = drop-length xs ys

  pub take-append : (xs ys : List A) (k : ℕ) → take (length xs + k) (xs ++ ys) ≡ xs ++ take k ys
  take-append [] ys k = ap (λ n. take n ys) (omega arith)
  take-append (x ∷ xs) ys k = ap (λ n. take n (x ∷ (xs ++ ys))) e ∙ ap (◌∷◌ x) (take-append xs ys k)
    where
      e : suc (length xs) + k ≡ suc (length xs + k)
      e = omega arith

  pub drop-append : (xs ys : List A) (k : ℕ) → drop (length xs + k) (xs ++ ys) ≡ drop k ys
  drop-append [] ys k = ap (λ n. drop n ys) (omega arith)
  drop-append (x ∷ xs) ys k = ap (λ n. drop n (x ∷ (xs ++ ys))) e ∙ drop-append xs ys k
    where
      e : suc (length xs) + k ≡ suc (length xs + k)
      e = omega arith

  pub drop-nil : (n : ℕ) → drop {A = A} n [] ≡ []
  drop-nil zero = refl
  drop-nil (suc n) = refl

  pub drop-drop : (j k : ℕ) (xs : List A) → drop k (drop j xs) ≡ drop (j + k) xs
  drop-drop zero k xs = ap (λ n. drop n xs) (omega arith)
  drop-drop (suc j) k [] = rw (drop-nil k, drop-nil (suc j + k))
  drop-drop (suc j) k (x ∷ xs) = drop-drop j k xs ∙ ap (λ n. drop n (x ∷ xs)) e
    where
      e : suc (j + k) ≡ suc j + k
      e = omega arith

  pub drop-set :
      (xs : List A) (k i : ℕ) (v : A) → k ≤ i → drop k (set xs i v) ≡ set (drop k xs) (i - k) v
  drop-set xs zero i v h = ap (λ n. set xs n v) (omega arith)
  drop-set [] (suc k) i v h = refl
  drop-set (x ∷ xs) (suc k) zero v h = absurd (omega arith)
  drop-set (x ∷ xs) (suc k) (suc i) v h =
      drop-set xs k i v (omega arith) ∙ ap (λ n. set (drop k xs) n v) (omega arith)

  pub drop-set_above : (xs : List A) (k i : ℕ) (v : A) → i < k → drop k (set xs i v) ≡ drop k xs
  drop-set_above [] k i v h = refl
  drop-set_above (x ∷ xs) zero i v h = absurd (omega arith)
  drop-set_above (x ∷ xs) (suc k) zero v h = refl
  drop-set_above (x ∷ xs) (suc k) (suc i) v h = drop-set_above xs k i v (omega arith)

  pub set-append :
      (xs ys : List A) (k : ℕ) (v : A) → set (xs ++ ys) (length xs + k) v ≡ xs ++ set ys k v
  set-append [] ys k v = ap (λ n. set ys n v) (omega arith)
  set-append (x ∷ xs) ys k v =
      ap (λ n. set (x ∷ (xs ++ ys)) n v) e ∙ ap (◌∷◌ x) (set-append xs ys k v)
    where
      e : suc (length xs) + k ≡ suc (length xs + k)
      e = omega arith

  pub take-set_above : (xs : List A) (k i : ℕ) (v : A) → k ≤ i → take k (set xs i v) ≡ take k xs
  take-set_above [] k i v h = refl
  take-set_above (x ∷ xs) zero i v h = refl
  take-set_above (x ∷ xs) (suc k) zero v h = absurd (omega arith)
  take-set_above (x ∷ xs) (suc k) (suc i) v h = ap (◌∷◌ x) (take-set_above xs k i v (omega arith))

  pub take-set_next :
      (xs : List A) (n : ℕ) (v : A)
      → n < length xs
      → take (suc n) (set xs n v) ≡ take n xs ++ (v ∷ [])
  take-set_next [] n v h = elim h [ ]
  take-set_next (x ∷ xs) zero v h = refl
  take-set_next (x ∷ xs) (suc n) v h = ap (◌∷◌ x) (take-set_next xs n v (omega arith))

  pub replicate-append :
      (a : A) (n m k : ℕ) → n + m ≡ k → replicate n a ++ replicate m a ≡ replicate k a
  replicate-append a zero m k h = ap (λ i. replicate i a) (omega arith)
  replicate-append a (suc n) m zero h = absurd (omega arith)
  replicate-append a (suc n) m (suc k) h = ap (◌∷◌ a) (replicate-append a n m k (omega arith))

  pub set_next :
      (values rest : List A) (x v : A)
      → set (values ++ (x ∷ rest)) (length values) v ≡ (values ++ (v ∷ [])) ++ rest
  set_next [] rest x v = refl
  set_next (y ∷ values) rest x v = ap (◌∷◌ y) (set_next values rest x v)

  pub length-map : {B : Type ℓ} (f : A → B) (xs : List A) → length (map f xs) ≡ length xs
  length-map f [] = refl
  length-map f (x ∷ xs) = ap suc (length-map f xs)
