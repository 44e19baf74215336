-- ===== src/Parser/Strings.antt =====
-- The C strings that element pointers point to, and how they outlive later writes.
use occamy.Base.{
  ℕ, zero, suc, ◌+◌, ◌-◌, ◌≤◌, ◌<◌, ◌≡◌, ◌≢◌, refl, sym, ap, ◌∙◌, arith, ◌==◌, Bool, if◌then◌else◌,
  List, [], ◌∷◌, ◌++◌, length, set, drop, All, drop-set,
}
use occamy.Base
use occamy.Unicode.Count.{IsChar, join}

-- The C string that a buffer starts with.
abbrev pub c_string : Base.Bytes → Base.Bytes
c_string [] = []
c_string (c ∷ buf) = let rest = c_string buf in if c == 0 then [] else c ∷ rest

pub c_string-cut :
    (str rest : Base.Bytes) → All (λ b. b ≢ 0) str → c_string (str ++ (0 ∷ rest)) ≡ str
c_string-cut [] rest h = refl
c_string-cut (c ∷ str) rest h = ground (arith, c_string-cut str rest h.1)

pub c_string-set :
    (buf : Base.Bytes) (i v : ℕ) → length (c_string buf) < i → c_string (set buf i v) ≡ c_string buf
c_string-set [] i v h = refl
c_string-set (c ∷ buf) zero v h = absurd (omega arith)
c_string-set (c ∷ buf) (suc i) v h = ground (arith, c_string-set buf i v)

-- The string at a pointer, whose terminator stands below a bound.
pub record Holds (buf : Base.Bytes) (bound at : ℕ) (str : Base.Bytes) : Type 0 where
  pub string : c_string (drop at buf) ≡ str
  pub within : at + length str < bound

pub Holds-set :
    {buf : Base.Bytes} {bound at : ℕ} {str : Base.Bytes} (i v : ℕ) {bound' : ℕ}
    → bound ≤ i
    → bound ≤ bound'
    → Holds buf bound at str
    → Holds (set buf i v) bound' at str
Holds-set {buf} {bound} {at} i v le le' h = record {
  string =
      ap c_string (drop-set buf at i v (omega (arith, h.within)))
      ∙ c_string-set (drop at buf) (i - at) v (omega (arith, h.within, ap length h.string))
      ∙ h.string;
  within = omega (arith, h.within);
}

-- Pointers to strings, one for one.
abbrev pub HoldAll : Base.Bytes → ℕ → List ℕ → List Base.Bytes → Type 0
HoldAll buf bound [] [] = Unit
HoldAll buf bound [] (str ∷ strs) = ⊥
HoldAll buf bound (at ∷ ats) [] = ⊥
HoldAll buf bound (at ∷ ats) (str ∷ strs) = Holds buf bound at str × HoldAll buf bound ats strs

pub HoldAll-set :
    (buf : Base.Bytes) (bound : ℕ) (ats : List ℕ) (strs : List Base.Bytes) (i v bound' : ℕ)
    → bound ≤ i
    → bound ≤ bound'
    → HoldAll buf bound ats strs
    → HoldAll (set buf i v) bound' ats strs
HoldAll-set buf bound [] [] i v bound' le le' h = tt
HoldAll-set buf bound [] (str ∷ strs) i v bound' le le' h = elim h [ ]
HoldAll-set buf bound (at ∷ ats) [] i v bound' le le' h = elim h [ ]
HoldAll-set buf bound (at ∷ ats) (str ∷ strs) i v bound' le le' h =
    (Holds-set i v le le' h.0, HoldAll-set buf bound ats strs i v bound' le le' h.1)

pub HoldAll-concat :
    (buf : Base.Bytes) (bound : ℕ) (ats : List ℕ) (strs : List Base.Bytes) (at : ℕ)
    (str : Base.Bytes)
    → HoldAll buf bound ats strs
    → Holds buf bound at str
    → HoldAll buf bound (ats ++ (at ∷ [])) (strs ++ (str ∷ []))
HoldAll-concat buf bound [] [] at str h last = (last, tt)
HoldAll-concat buf bound [] (s ∷ strs) at str h last = elim h [ ]
HoldAll-concat buf bound (a ∷ ats) [] at str h last = elim h [ ]
HoldAll-concat buf bound (a ∷ ats) (s ∷ strs) at str h last =
    (h.0, HoldAll-concat buf bound ats strs at str h.1 last)

-- A text of whole characters has no null byte.
pub join-nonzero : (text : List Base.Bytes) → All IsChar text → All (λ b. b ≢ 0) (join text)
join-nonzero [] h = tt
join-nonzero ([] ∷ text) h = elim h.0 [ ]
join-nonzero ((c ∷ trailing) ∷ text) h =
    (h.0.1, Base.All-append _ trailing (join text) (firsts trailing h.0.3) (join-nonzero text h.1))
  where
    firsts : (bs : Base.Bytes) → All (λ b. (b ≢ 0) × (b < 256)) bs → All (λ b. b ≢ 0) bs
    firsts [] k = tt
    firsts (b ∷ bs) k = (k.0.0, firsts bs k.1)
