-- ===== src/Terminal/Bounds.antt =====
-- Where the cursor may stand (guacamole/src/protocols/ssh/terminal_handlers.c and terminal.c).
use occamy.Base.{
  ℕ, zero, suc, ◌+◌, ◌-◌, ◌≤◌, ◌<◌, ◌≡◌, ◌⊎◌, inl, inr, refl, arith, ltb, leb, ◌==◌, ◌&&◌, ◌||◌,
  not, if◌then◌else◌, Bool, true, false, on_branches, on_cases, Option, none, some, List, [], ◌∷◌,
  length,
}
use occamy.Base
use occamy.Base.Int.{ℤ, pos, ◌+ℤ◌, ◌-ℤ◌, ◌≤ℤ◌, leb_ℤ, ltb_ℤ, equal_ℤ, int_laws}
use occamy.Terminal.Screen.{Dimensions}
use occamy.Terminal.State.{Terminal, bound, move_cursor, linefeed, reverse_linefeed, reset}
use occamy.Terminal.Pipe.{pipe_stream_write, pipe_stream_flush, pipe_stream_close, pipe_stream_open}

-- The cursor is on a row of the screen, and in a column of it or behind the last one, where the next
-- character wraps around; a wide character leaves it one column further.
pub record IsAt (size : Dimensions) (row col : ℤ) : Type 0 where
  pub some_rows : 1 ≤ size.term_height
  pub some_columns : 1 ≤ size.term_width
  pub row_low : pos 0 ≤ℤ row
  pub row_high : row +ℤ pos 1 ≤ℤ pos size.term_height
  pub col_low : pos 0 ≤ℤ col
  pub col_high : col ≤ℤ pos (size.term_width + 1)

abbrev pub IsOnScreen : Terminal → Type 0
IsOnScreen term = IsAt term.size term.cursor_row term.cursor_col

-- The number is the one from 0 up to below `most` that is nearest to `n`.
abbrev pub IsNearest : ℕ → ℤ → ℤ → Type 0
IsNearest most n m =
    ((n +ℤ pos 1 ≤ℤ pos 0) × (m ≡ pos 0))
    ⊎ (((pos 0 ≤ℤ n) × (n +ℤ pos 1 ≤ℤ pos most) × (m ≡ n))
        ⊎ ((pos most ≤ℤ n) × (m ≡ pos most -ℤ pos 1)))

-- Moving the cursor to a row and column puts it at the nearest ones of the screen, and nowhere behind
-- the last column.
abbrev pub IsClipped : ℤ → ℤ → Terminal → Type 0
IsClipped row col term =
    IsNearest term.size.term_height row (move_cursor row col term).cursor_row
    × IsNearest term.size.term_width col (move_cursor row col term).cursor_col

bound_lem :
    (most : ℕ) (n : ℤ) → 1 ≤ most → (pos 0 ≤ℤ bound most n) × (bound most n +ℤ pos 1 ≤ℤ pos most)
unfolding bound ◌-ℤ◌ ◌+ℤ◌
bound_lem most n h = ground arith

lt_of_ltb : (a b : ℤ) → ltb_ℤ a b ≡ true → a +ℤ pos 1 ≤ℤ b
unfolding ◌+ℤ◌
lt_of_ltb a b h = ground arith

lt_of_not_leb : (a b : ℤ) → leb_ℤ a b ≡ false → b +ℤ pos 1 ≤ℤ a
unfolding ◌+ℤ◌
lt_of_not_leb a b h = ground arith

le_of_leb : (a b : ℤ) → leb_ℤ a b ≡ true → a ≤ℤ b
unfolding ◌+ℤ◌
le_of_leb a b h = ground arith

le_of_not_ltb : (a b : ℤ) → ltb_ℤ a b ≡ false → b ≤ℤ a
unfolding ◌+ℤ◌
le_of_not_ltb a b h = ground arith

bound-IsNearest : (most : ℕ) (n : ℤ) → IsNearest most n (bound most n)
unfolding bound
bound-IsNearest most n =
    on_branches (IsNearest most n) (leb_ℤ (pos most) n) _ _
      (λ high. inr (inr (le_of_leb (pos most) n high, refl)))
      (λ low.
        on_branches (IsNearest most n) (ltb_ℤ n (pos 0)) _ _
          (λ negative. inl (lt_of_ltb n (pos 0) negative, refl))
          (λ inside.
            inr (inl (le_of_not_ltb n (pos 0) inside, lt_of_not_leb (pos most) n low, refl))))

pub move_cursor-IsClipped : (row col : ℤ) (term : Terminal) → IsClipped row col term
unfolding move_cursor
move_cursor-IsClipped row col term =
    (bound-IsNearest term.size.term_height row, bound-IsNearest term.size.term_width col)

pub move_cursor-IsOnScreen :
    (row col : ℤ) (term : Terminal) → IsOnScreen term → IsOnScreen (move_cursor row col term)
unfolding move_cursor
move_cursor-IsOnScreen row col term h =
    let r = bound_lem term.size.term_height row h.some_rows in
    let c = bound_lem term.size.term_width col h.some_columns in
    record {
      some_rows = h.some_rows;
      some_columns = h.some_columns;
      row_low = r.0;
      row_high = r.1;
      col_low = c.0;
      col_high = omega (int_laws, c.1);
    }

pub linefeed-IsOnScreen : (term : Terminal) → IsOnScreen term → IsOnScreen (linefeed term)
unfolding linefeed
linefeed-IsOnScreen term h =
    on_branches IsOnScreen (equal_ℤ term.cursor_row term.scroll_end) _ _ (λ _. h)
      (λ _.
        on_branches IsOnScreen (ltb_ℤ term.cursor_row (pos term.size.term_height -ℤ pos 1)) _ _
          (λ above.
            let lt = lt_of_ltb term.cursor_row (pos term.size.term_height -ℤ pos 1) above in
            record {
              some_rows = h.some_rows;
              some_columns = h.some_columns;
              row_low = omega (int_laws, h.row_low);
              row_high = omega (int_laws, lt);
              col_low = h.col_low;
              col_high = h.col_high;
            })
          (λ _. h))

pub reverse_linefeed-IsOnScreen :
    (term : Terminal) → IsOnScreen term → IsOnScreen (reverse_linefeed term)
unfolding reverse_linefeed
reverse_linefeed-IsOnScreen term h =
    on_branches IsOnScreen (equal_ℤ term.cursor_row term.scroll_start) _ _ (λ _. h)
      (λ _.
        on_branches IsOnScreen (ltb_ℤ (pos 0) term.cursor_row) _ _
          (λ below.
            let gt = lt_of_ltb (pos 0) term.cursor_row below in
            record {
              some_rows = h.some_rows;
              some_columns = h.some_columns;
              row_low = omega (int_laws, gt);
              row_high = omega (int_laws, h.row_high);
              col_low = h.col_low;
              col_high = h.col_high;
            })
          (λ _. h))

pub reset-IsOnScreen : (term : Terminal) → IsOnScreen term → IsOnScreen (reset term)
unfolding reset
reset-IsOnScreen term h = record {
  some_rows = h.some_rows;
  some_columns = h.some_columns;
  row_low = omega arith;
  row_high = omega (int_laws, h.some_rows);
  col_low = omega arith;
  col_high = omega arith;
}

pipe_stream_flush-IsOnScreen :
    (term : Terminal) → IsOnScreen term → IsOnScreen (pipe_stream_flush term)
unfolding pipe_stream_flush
pipe_stream_flush-IsOnScreen term h =
    on_branches IsOnScreen (term.pipe_stream && ltb 0 (length term.pipe_buffer)) _ _ (λ _. h)
      (λ _. h)

pub pipe_stream_close-IsOnScreen :
    (term : Terminal) → IsOnScreen term → IsOnScreen (pipe_stream_close term)
unfolding pipe_stream_close
pipe_stream_close-IsOnScreen term h =
    on_branches IsOnScreen term.pipe_stream _ _ (λ _. pipe_stream_flush-IsOnScreen term h) (λ _. h)

pub pipe_stream_open-IsOnScreen :
    (name : Base.Bytes) (term : Terminal)
    → IsOnScreen term
    → IsOnScreen (pipe_stream_open name term)
unfolding pipe_stream_open
pipe_stream_open-IsOnScreen name term h = pipe_stream_close-IsOnScreen term h

pub pipe_stream_write-IsOnScreen :
    (c : ℕ) (term : Terminal) → IsOnScreen term → IsOnScreen (pipe_stream_write c term)
unfolding pipe_stream_write
pipe_stream_write-IsOnScreen c term h =
    on_branches IsOnScreen term.pipe_stream _ _
      (λ _.
        on_branches IsOnScreen (length term.pipe_buffer == 6048) _ _
          (λ _. pipe_stream_flush-IsOnScreen term h) (λ _. h))
      (λ _. h)
