-- ===== src/Terminal/Rows.antt =====
-- The rows of a buffer in its array (guacamole/src/protocols/ssh/terminal_buffer.c), and the turning of
-- the buffer that scrolls (terminal.c).
use occamy.Base.{ℕ, ◌≡◌, arith, ◌+◌, ◌⊎◌, inl, inr, ap, refl, true, false, on_branches}
use occamy.Base.Int.{ℤ, pos, ◌+ℤ◌, ◌-ℤ◌, ◌≤ℤ◌, leb_ℤ, ltb_ℤ, int_laws, pos_part, neg_part}
use occamy.Terminal.Buffer.{Buffer, row_index}
use occamy.Terminal.Scroll.{advance_top}

-- The first row of the screen is one of the array, which holds no more rows than it has.
pub record IsTurned (buffer : Buffer) : Type 0 where
  pub top_low : pos 0 ≤ℤ buffer.top
  pub top_high : buffer.top +ℤ pos 1 ≤ℤ pos buffer.available
  pub size_fits : buffer.size ≤ℤ pos buffer.available

-- The smaller of two numbers.
abbrev pub IsLeast : ℤ → ℤ → ℤ → Type 0
IsLeast a b n = (n ≤ℤ a) × (n ≤ℤ b) × ((n ≡ a) ⊎ (n ≡ b))

-- A row is at most as far from the first one as the array has rows.
abbrev pub IsNear : Buffer → ℤ → Type 0
IsNear buffer row = (pos 0 ≤ℤ row +ℤ pos buffer.available) × (row ≤ℤ pos buffer.available)

le_of_ltb : (a b : ℤ) → ltb_ℤ a b ≡ true → a ≤ℤ b
unfolding ◌+ℤ◌
le_of_ltb a b h = ground arith

le_of_not_ltb : (a b : ℤ) → ltb_ℤ a b ≡ false → b ≤ℤ a
unfolding ◌+ℤ◌
le_of_not_ltb a b h = ground arith

-- The index of a row is one of the array.
abbrev pub IsStored : Buffer → ℤ → Type 0
IsStored buffer row =
    (pos 0 ≤ℤ row_index buffer row) × (row_index buffer row +ℤ pos 1 ≤ℤ pos buffer.available)

-- A row that is near is stored within the array.
row_index_range :
    (buffer : Buffer) (row : ℤ)
    → IsTurned buffer
    → IsNear buffer row
    → (pos 0 ≤ℤ row_index buffer row) × (row_index buffer row +ℤ pos 1 ≤ℤ pos buffer.available)
unfolding row_index ◌-ℤ◌ ◌+ℤ◌
row_index_range buffer row v near = let low = v.top_low in let high = v.top_high in ground arith

-- Equality of integers as one of native numbers.
abbrev AreEqual : ℤ → ℤ → Type 0
AreEqual a b = pos_part a + neg_part b ≡ pos_part b + neg_part a

-- `i` is `n`, or differs from it by one or two turns of an array of length `length`.
abbrev IsTurnOf : ℕ → ℤ → ℤ → Type 0
IsTurnOf length n i = AreEqual i n ⊎ (AreEqual i (n +ℤ pos length) ⊎ AreEqual i (n -ℤ pos length))

row_index-IsTurnOf :
    (buffer : Buffer) (row : ℤ)
    → IsTurnOf buffer.available (buffer.top +ℤ row) (row_index buffer row)
unfolding row_index
row_index-IsTurnOf buffer row =
    let index = buffer.top +ℤ row in
    on_branches (λ i. IsTurnOf buffer.available index i) (ltb_ℤ index (pos 0)) _ _
      (λ _. inr (inl (omega arith)))
      (λ _.
        on_branches (λ i. IsTurnOf buffer.available index i) (leb_ℤ (pos buffer.available) index) _
          _ (λ _. inr (inr (omega arith))) (λ _. inl (omega arith)))

-- Within the array there is one turn of a number.
turns_agree :
    (length : ℕ) (n m i j : ℤ)
    → AreEqual n m ⊎ AreEqual n (m -ℤ pos length)
    → IsTurnOf length n i
    → IsTurnOf length m j
    → (pos 0 ≤ℤ i) × (i +ℤ pos 1 ≤ℤ pos length)
    → (pos 0 ≤ℤ j) × (j +ℤ pos 1 ≤ℤ pos length)
    → i ≡ j
turns_agree length n m i j same hi hj ri rj = omega int_laws

row_index_unique :
    (buffer : Buffer) (row row' : ℤ)
    → IsTurned buffer
    → IsNear buffer row
    → IsNear buffer row'
    → row +ℤ pos 1 ≤ℤ row' +ℤ pos buffer.available
    → row' +ℤ pos 1 ≤ℤ row +ℤ pos buffer.available
    → row_index buffer row ≡ row_index buffer row'
    → row ≡ row'
row_index_unique buffer row row' v near near' close close' same =
    let i = row_index-IsTurnOf buffer row in
    let j = row_index-IsTurnOf buffer row' in
    let p = ap pos_part same in let n = ap neg_part same in omega (int_laws, i, j, p, n)

advance_top_size :
    (buffer : Buffer) (amount : ℤ)
    → IsLeast (buffer.size +ℤ amount) (pos buffer.available) (advance_top amount buffer).size
unfolding advance_top
advance_top_size buffer amount =
    let size = buffer.size +ℤ amount in
    let all = pos buffer.available in
    on_branches (IsLeast size all) (ltb_ℤ all size) _ _
      (λ more. (omega (int_laws, le_of_ltb all size more), omega int_laws, inr refl))
      (λ fits. (omega int_laws, le_of_not_ltb all size fits, inl refl))

advance_top-IsTurned :
    (buffer : Buffer) (amount : ℤ)
    → IsTurned buffer
    → pos 0 ≤ℤ amount
    → amount ≤ℤ pos buffer.available
    → IsTurned (advance_top amount buffer)
unfolding advance_top ◌-ℤ◌ ◌+ℤ◌
advance_top-IsTurned buffer amount v low high =
    let top_low = v.top_low in
    let top_high = v.top_high in
    record {
      top_low = ground arith;
      top_high = ground arith;
      size_fits = (advance_top_size buffer amount).1;
    }

advance_top_turn :
    (buffer : Buffer) (amount row : ℤ)
    → AreEqual ((advance_top amount buffer).top +ℤ row) (buffer.top +ℤ (row +ℤ amount))
      ⊎ AreEqual
          ((advance_top amount buffer).top +ℤ row)
          (buffer.top +ℤ (row +ℤ amount) -ℤ pos buffer.available)
unfolding advance_top
advance_top_turn buffer amount row =
    on_branches
      (λ top.
        AreEqual (top +ℤ row) (buffer.top +ℤ (row +ℤ amount))
        ⊎ AreEqual (top +ℤ row) (buffer.top +ℤ (row +ℤ amount) -ℤ pos buffer.available))
      (leb_ℤ (pos buffer.available) (buffer.top +ℤ amount)) _ _ (λ _. inr (omega int_laws))
      (λ _. inl (omega int_laws))

-- Turning the buffer by at most its rows keeps its first row and its length within the array. The
-- length is then longer by as many rows, or as long as the array where that is less, and each row is
-- where the row that much further down was.
pub advance_top-row_index :
    (buffer : Buffer) (amount row : ℤ)
    → IsTurned buffer
    → pos 0 ≤ℤ amount
    → amount ≤ℤ pos buffer.available
    → IsNear buffer row
    → IsNear buffer (row +ℤ amount)
    → IsTurned (advance_top amount buffer)
      × IsLeast (buffer.size +ℤ amount) (pos buffer.available) (advance_top amount buffer).size
      × (row_index (advance_top amount buffer) row ≡ row_index buffer (row +ℤ amount))
unfolding advance_top
advance_top-row_index buffer amount row v low high near near' =
    let turned = advance_top amount buffer in
    let v' = advance_top-IsTurned buffer amount v low high in
    (
      v',
      advance_top_size buffer amount,
      turns_agree buffer.available _ _ _ _ (advance_top_turn buffer amount row)
          (row_index-IsTurnOf turned row) (row_index-IsTurnOf buffer (row +ℤ amount))
          (row_index_range turned row v' near) (row_index_range buffer (row +ℤ amount) v near'),
    )
