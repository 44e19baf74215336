-- ===== src/Terminal/Cursor.antt =====
-- Every handler keeps the cursor on the screen (guacamole/src/protocols/ssh/terminal_handlers.c).
use occamy.Base.{
  ℕ, zero, suc, ◌+◌, ◌-◌, ◌≤◌, ◌^◌, ◌≡◌, refl, arith, ltb, leb, ◌==◌, ◌&&◌, ◌||◌, not,
  if◌then◌else◌, true, false, on_branches, List, [], ◌∷◌, length, Option-cases, inl, inr, none,
  some,
}
use occamy.Base
use occamy.Base.Int.{ℤ, pos, ◌+ℤ◌, ◌-ℤ◌, ◌≤ℤ◌, leb_ℤ, ltb_ℤ, equal_ℤ, int_laws}
use occamy.Terminal.Screen.{Dimensions}
use occamy.Terminal.State.{Terminal, move_cursor, move_cursor, linefeed}
use occamy.Terminal.Tabs.{set_tab}
use occamy.Terminal.Echo.{
  decode_mapped, control_of, translate, active_mapping, column_width, set_codepoint, wrap,
  shift_row, display_codepoint, Control, perform_control, enquiry, bell, backspace, tab, line_feed,
  carriage_return, shift_out, shift_in, start_escape, start_csi, delete, displayable, echo_byte,
}
use occamy.Terminal.Escape.{
  EscapeCode, perform_escape, g0, g1, operating_system, control_sequence, line_attributes,
  save_cursor, restore_cursor, index, next_line, set_tab_stop, reverse_index, identify, full_reset,
  application, unknown,
}
use occamy.Terminal.Bounds.{
  IsAt, IsOnScreen, move_cursor-IsOnScreen, linefeed-IsOnScreen, reverse_linefeed-IsOnScreen,
  reset-IsOnScreen, pipe_stream_write-IsOnScreen,
}

-- The cursor is on the screen behind a test where it is on both branches.
pub either :
    (b : Base.Bool) (x y : Terminal)
    → (b ≡ true → IsOnScreen x)
    → (b ≡ false → IsOnScreen y)
    → IsOnScreen (if b then x else y)
either b x y h k = on_branches IsOnScreen b x y h k

-- The column of the cursor is one of the screen.
abbrev HasRoom : Terminal → Type 0
HasRoom term = term.cursor_col +ℤ pos 1 ≤ℤ pos term.size.term_width

linefeed-HasRoom : (term : Terminal) → HasRoom term → HasRoom (linefeed term)
unfolding linefeed
linefeed-HasRoom term h =
    on_branches HasRoom (equal_ℤ term.cursor_row term.scroll_end) _ _ (λ _. h)
      (λ _.
        on_branches HasRoom (ltb_ℤ term.cursor_row (pos term.size.term_height -ℤ pos 1)) _ _
          (λ _. h) (λ _. h))

first_column :
    (term : Terminal)
    → IsOnScreen term
    → IsOnScreen (record term { cursor_col = pos 0 }) × HasRoom (record term { cursor_col = pos 0 })
first_column term h = (
  record {
    some_rows = h.some_rows;
    some_columns = h.some_columns;
    row_low = h.row_low;
    row_high = h.row_high;
    col_low = omega arith;
    col_high = omega arith;
  },
  omega (int_laws, h.some_columns),
)

room_of_leb : (width : ℕ) (col : ℤ) → leb_ℤ (pos width) col ≡ false → col +ℤ pos 1 ≤ℤ pos width
unfolding ◌+ℤ◌
room_of_leb width col h = ground arith

wrap-IsOnScreen : (term : Terminal) → IsOnScreen term → IsOnScreen (wrap term) × HasRoom (wrap term)
unfolding wrap
wrap-IsOnScreen term h =
    on_branches (λ t. IsOnScreen t × HasRoom t) (leb_ℤ (pos term.size.term_width) term.cursor_col) _
      _
      (λ _.
        let first = first_column term h in
        (linefeed-IsOnScreen _ first.0, linefeed-HasRoom _ first.1))
      (λ inside. (h, room_of_leb term.size.term_width term.cursor_col inside))

shift_row-IsOnScreen :
    (term : Terminal)
    → IsOnScreen term × HasRoom term
    → IsOnScreen (shift_row term) × HasRoom (shift_row term)
unfolding shift_row
shift_row-IsOnScreen term h =
    on_branches (λ t. IsOnScreen t × HasRoom t) term.insert_mode _ _ (λ _. h) (λ _. h)

-- `P` holds of the result of a width where it holds for width 0 and for the others.
on_width :
    (P : Terminal → Type 0) (w : ℕ) (x : Terminal) (f : ℕ → Terminal)
    → P x
    → ((w' : ℕ) → P (f w'))
    → P (elim w as (λ _. Terminal) [ zero ↦ x | suc w' ↦ f w' ])
on_width P zero x f h k = h
on_width P (suc w) x f h k = k w

-- A character of at most two columns leaves the cursor on the screen.
after_character :
    (size : Dimensions) (row col : ℤ) (w : ℕ)
    → IsAt size row col
    → col +ℤ pos 1 ≤ℤ pos size.term_width
    → w ≤ 2
    → IsAt size row (col +ℤ pos w)
after_character size row col w h room narrow = record {
  some_rows = h.some_rows;
  some_columns = h.some_columns;
  row_low = h.row_low;
  row_high = h.row_high;
  col_low = omega (int_laws, h.col_low);
  col_high = omega (int_laws, room, narrow);
}

module _ (wcwidth : ℕ → ℤ) (narrow : (c : ℕ) → column_width wcwidth c ≤ 2) where
  set_codepoint-IsOnScreen :
      (row col : ℤ) (c : ℕ) (term : Terminal)
      → IsOnScreen term × HasRoom term
      → IsOnScreen (set_codepoint wcwidth row col c term)
        × HasRoom (set_codepoint wcwidth row col c term)
  unfolding set_codepoint
  set_codepoint-IsOnScreen row col c term h =
      on_width (λ t. IsOnScreen t × HasRoom t) (column_width wcwidth c) _ _ h (λ _. h)

  display_codepoint-IsOnScreen :
      (codepoint : ℕ) (term : Terminal)
      → IsOnScreen term
      → IsOnScreen (display_codepoint wcwidth codepoint term)
  unfolding display_codepoint
  display_codepoint-IsOnScreen codepoint term h =
      let mapped = translate (active_mapping term) codepoint in
      let start : Terminal = record term { statics = record term.statics { codepoint = mapped } } in
      let shifted = shift_row-IsOnScreen (wrap start) (wrap-IsOnScreen start h) in
      let shown =
        set_codepoint-IsOnScreen (shift_row (wrap start)).cursor_row
          (shift_row (wrap start)).cursor_col mapped (shift_row (wrap start)) shifted in
      either (ltb codepoint 0x20 || leb (2 ^ 31) codepoint) _ _ (λ _. h)
        (λ _. after_character _ _ _ (column_width wcwidth mapped) shown.0 shown.1 (narrow mapped))

  perform_control-IsOnScreen :
      (control : Control) (codepoint : ℕ) (term : Terminal)
      → IsOnScreen term
      → IsOnScreen (perform_control wcwidth control codepoint term)
  unfolding perform_control
  perform_control-IsOnScreen enquiry codepoint term h = h
  perform_control-IsOnScreen bell codepoint term h = h
  perform_control-IsOnScreen backspace codepoint term h = move_cursor-IsOnScreen _ _ term h
  perform_control-IsOnScreen tab codepoint term h = move_cursor-IsOnScreen _ _ term h
  perform_control-IsOnScreen line_feed codepoint term h =
      let fed = linefeed term in
      either fed.automatic_carriage_return (move_cursor fed.cursor_row (pos 0) fed) fed
        (λ _. move_cursor-IsOnScreen fed.cursor_row (pos 0) fed (linefeed-IsOnScreen term h))
        (λ _. linefeed-IsOnScreen term h)
  perform_control-IsOnScreen carriage_return codepoint term h = move_cursor-IsOnScreen _ _ term h
  perform_control-IsOnScreen shift_out codepoint term h = h
  perform_control-IsOnScreen shift_in codepoint term h = h
  perform_control-IsOnScreen start_escape codepoint term h = h
  perform_control-IsOnScreen start_csi codepoint term h = h
  perform_control-IsOnScreen delete codepoint term h = h
  perform_control-IsOnScreen displayable codepoint term h =
      display_codepoint-IsOnScreen codepoint term h

  pub echo_byte-IsOnScreen :
      (c : ℕ) (term : Terminal) → IsOnScreen term → IsOnScreen (echo_byte wcwidth c term)
  unfolding echo_byte
  echo_byte-IsOnScreen c term h =
      let s = term.statics in
      let next = decode_mapped (active_mapping term) c (s.bytes_remaining, s.codepoint) in
      either (term.pipe_stream && not (c == 0x1b)) _ _ (λ _. pipe_stream_write-IsOnScreen c term h)
        (λ _.
          either (not (equal_ℤ next.0 (pos 0))) _ _ (λ _. h)
            (λ _. perform_control-IsOnScreen (control_of next.1) next.1 _ h))

pub perform_escape-IsOnScreen :
    (code : EscapeCode) (term : Terminal) → IsOnScreen term → IsOnScreen (perform_escape code term)
unfolding perform_escape set_tab
perform_escape-IsOnScreen g0 term h = h
perform_escape-IsOnScreen g1 term h = h
perform_escape-IsOnScreen operating_system term h = h
perform_escape-IsOnScreen control_sequence term h = h
perform_escape-IsOnScreen line_attributes term h = h
perform_escape-IsOnScreen save_cursor term h = h
perform_escape-IsOnScreen restore_cursor term h = move_cursor-IsOnScreen _ _ term h
perform_escape-IsOnScreen index term h = linefeed-IsOnScreen term h
perform_escape-IsOnScreen next_line term h =
    linefeed-IsOnScreen _ (move_cursor-IsOnScreen _ _ term h)
perform_escape-IsOnScreen set_tab_stop term h = h
perform_escape-IsOnScreen reverse_index term h = reverse_linefeed-IsOnScreen term h
perform_escape-IsOnScreen identify term h = h
perform_escape-IsOnScreen full_reset term h = reset-IsOnScreen term h
perform_escape-IsOnScreen application term h = h
perform_escape-IsOnScreen unknown term h = h
