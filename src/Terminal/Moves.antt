-- ===== src/Terminal/Moves.antt =====
-- The control sequences that move the cursor by one parameter
-- (guacamole/src/protocols/ssh/terminal_handlers.c, guac_terminal_csi).
use occamy.Base.{
  ℕ, zero, suc, ◌+◌, ◌-◌, ◌≤◌, ◌<◌, ◌≡◌, refl, sym, ap, ◌∙◌, arith, List, [], ◌∷◌, ◌++◌, length,
  ◌^◌, if◌then◌else◌,
}
use mathlib.Core.Path.{subst}
use occamy.Base
use occamy.Base.Int.{ℤ, pos, ◌+ℤ◌, ◌-ℤ◌, ◌≤ℤ◌, equal_ℤ}
use occamy.Terminal.State.{Terminal, move_cursor}
use occamy.Terminal.Cases.{arg, amount, from_one}
use occamy.Terminal.Csi.{csi_function, perform_csi}
use occamy.Terminal.Write.{Environment, write}
use occamy.Terminal.Bounds.{IsNearest, move_cursor-IsClipped}
use occamy.Terminal.Parameters.{IsParameter, IsFinal, in_sequence, after_sequence, write-sequence}

-- The moves of the cursor that ECMA-48 names, with one parameter.
pub data Move : Type 0 where
  cursor_up cursor_down cursor_forward cursor_back next_line preceding_line to_column to_row : Move

-- The final byte of a move.
abbrev pub final_of : Move → ℕ
final_of cursor_up = b'A'
final_of cursor_down = b'B'
final_of cursor_forward = b'C'
final_of cursor_back = b'D'
final_of next_line = b'E'
final_of preceding_line = b'F'
final_of to_column = b'G'
final_of to_row = b'd'

-- The row and the column that a move by `n` asks for, from a row and column counted from 0.
abbrev pub row_of : Move → ℕ → ℤ → ℤ
row_of cursor_up n row = row -ℤ pos n
row_of cursor_down n row = row +ℤ pos n
row_of next_line n row = row +ℤ pos n
row_of preceding_line n row = row -ℤ pos n
row_of to_row n row = pos (n - 1)
row_of _ n row = row

abbrev pub col_of : Move → ℕ → ℤ → ℤ
col_of cursor_forward n col = col +ℤ pos n
col_of cursor_back n col = col -ℤ pos n
col_of next_line n col = pos 0
col_of preceding_line n col = pos 0
col_of to_column n col = pos (n - 1)
col_of _ n col = col

-- A parameter of 0 stands for 1.
abbrev pub at_least_one : ℕ → ℕ
at_least_one zero = 1
at_least_one (suc n) = suc n

amount_lem : (n : ℕ) → (if equal_ℤ (pos n) (pos 0) then pos 1 else pos n) ≡ pos (at_least_one n)
amount_lem zero = refl
amount_lem (suc n) = ground arith

from_one_lem : (n : ℕ) → from_one (pos n) ≡ pos (at_least_one n - 1)
unfolding ◌-ℤ◌ ◌+ℤ◌
from_one_lem zero = refl
from_one_lem (suc n) = ground arith

-- The move that the code performs is that of the cursor to the place asked for.
performs :
    (move : Move) (n : ℕ) (term : Terminal)
    → arg 0 term ≡ pos n
    → perform_csi (csi_function (final_of move)) term
      ≡ move_cursor
          (row_of move (at_least_one n) term.cursor_row)
          (col_of move (at_least_one n) term.cursor_col)
          term
unfolding perform_csi csi_function
performs move n term e =
    let by : amount term ≡ pos (at_least_one n) =
      ap (λ x. if equal_ℤ x (pos 0) then pos 1 else x) e ∙ amount_lem n in
    let to : from_one (arg 0 term) ≡ pos (at_least_one n - 1) = ap from_one e ∙ from_one_lem n in
    elim move
      as (λ m.
        perform_csi (csi_function (final_of m)) term
        ≡ move_cursor (row_of m (at_least_one n) term.cursor_row)
            (col_of m (at_least_one n) term.cursor_col) term) [
              | cursor_up ↦ ap (λ k. move_cursor (term.cursor_row -ℤ k) term.cursor_col term) by
              | cursor_down ↦ ap (λ k. move_cursor (term.cursor_row +ℤ k) term.cursor_col term) by
              | cursor_forward ↦
                  ap (λ k. move_cursor term.cursor_row (term.cursor_col +ℤ k) term) by
              | cursor_back ↦ ap (λ k. move_cursor term.cursor_row (term.cursor_col -ℤ k) term) by
              | next_line ↦ ap (λ k. move_cursor (term.cursor_row +ℤ k) (pos 0) term) by
              | preceding_line ↦ ap (λ k. move_cursor (term.cursor_row -ℤ k) (pos 0) term) by
              | to_column ↦ ap (λ k. move_cursor term.cursor_row k term) to
              | to_row ↦ ap (λ k. move_cursor k term.cursor_col term) to
            ]

final_of-IsFinal : (move : Move) → IsFinal (final_of move)
final_of-IsFinal move = elim move as (λ m. IsFinal (final_of m)) [
  | cursor_up ↦ (omega arith, omega arith)
  | cursor_down ↦ (omega arith, omega arith)
  | cursor_forward ↦ (omega arith, omega arith)
  | cursor_back ↦ (omega arith, omega arith)
  | next_line ↦ (omega arith, omega arith)
  | preceding_line ↦ (omega arith, omega arith)
  | to_column ↦ (omega arith, omega arith)
  | to_row ↦ (omega arith, omega arith)
]

-- The cursor of a terminal is at the place of the screen that is nearest to a row and column.
abbrev pub IsNearTo : ℤ → ℤ → Terminal → Type 0
IsNearTo row col term =
    IsNearest term.size.term_height row term.cursor_row
    × IsNearest term.size.term_width col term.cursor_col

-- A place of the cursor is not negative, and more by so much it is still an `int`.
abbrev pub HasIntSums : ℤ → ℕ → Type 0
HasIntSums place n = (pos 0 ≤ℤ place) × (place +ℤ pos n +ℤ pos 1 ≤ℤ pos (2 ^ 31))

-- Once a sequence has begun, the digits of a number of which `atoi` finds the value and the final byte
-- of a move put the cursor at the place of the screen that is nearest to the one that the move asks
-- for, where 0 stands for 1, if the cursor's row and column are not negative and their sums with the
-- number are those of an `int`. The size of the screen is kept.
pub write-move :
    (env : Environment) (move : Move) (digits : Base.Bytes) (n : ℕ) (term : Terminal)
    → IsParameter digits
    → env.atoi digits ≡ pos n
    → HasIntSums term.cursor_row (at_least_one n)
    → HasIntSums term.cursor_col (at_least_one n)
    → let moved = write env (digits ++ (final_of move ∷ [])) (in_sequence [] 16 [] term) in
      IsNearTo
        (row_of move (at_least_one n) term.cursor_row)
        (col_of move (at_least_one n) term.cursor_col)
        moved
      × (moved.size ≡ term.size)
unfolding move_cursor
write-move env move digits n term parameter value fits fits' =
    let given = in_sequence (env.atoi digits ∷ []) 15 [] term in
    let row = row_of move (at_least_one n) term.cursor_row in
    let col = col_of move (at_least_one n) term.cursor_col in
    let ended : write env (digits ++ (final_of move ∷ [])) (in_sequence [] 16 [] term)
        ≡ after_sequence (move_cursor row col given) term =
      write-sequence env digits [] (final_of move) term (parameter, tt) (final_of-IsFinal move)
        (omega arith)
      ∙ ap (λ t. after_sequence t term) (performs move n given value) in
    subst (λ t. IsNearTo row col t × (t.size ≡ term.size)) (sym ended)
      (move_cursor-IsClipped row col given, refl)
