-- ===== src/Terminal/Scroll.antt =====
-- guacamole/src/protocols/ssh/terminal.c: the clearing of ranges, and scrolling.
use occamy.Base.{ℕ, zero, suc, ◌&&◌, if◌then◌else◌, none, some}
use occamy.Base.Int.{ℤ, pos, ◌+ℤ◌, ◌-ℤ◌, ltb_ℤ, leb_ℤ, equal_ℤ}
use occamy.Terminal.Char.{Attributes}
use occamy.Terminal.Buffer.{Buffer, count_between}
use occamy.Terminal.Screen.{
  Dimensions, Screen, display_copy_rows, call_display, clear_columns, copy_rows, move_visible_row,
}

-- The turning of the buffer by which `guac_terminal_scroll_up` scrolls the whole screen.
unfoldable pub advance_top : ℤ → Buffer → Buffer
advance_top amount buffer =
    let top = buffer.top +ℤ amount in
    let size = buffer.size +ℤ amount in
    record buffer {
      top = if leb_ℤ (pos buffer.available) top then top -ℤ pos buffer.available else top;
      size = if ltb_ℤ (pos buffer.available) size then pos buffer.available else size;
    }

module _ (size : Dimensions) where
  abbrev last_column : ℤ
  last_column = pos size.term_width -ℤ pos 1

  -- The loop that clears so many whole rows.
  unfoldable pub clear_rows : Attributes → ℕ → ℤ → Screen → Screen
  clear_rows attributes zero row screen = screen
  clear_rows attributes (suc n) row screen =
      clear_rows attributes n (row +ℤ pos 1)
        (clear_columns attributes row (pos 0) last_column screen)

  -- The part of `guac_terminal_clear_range` at its first row, with the first whole row.
  unfoldable pub clear_first : Attributes → ℤ → ℤ → Screen → ℤ × Screen
  clear_first attributes start_row start_col screen =
      if ltb_ℤ (pos 0) start_col
      then (start_row +ℤ pos 1, clear_columns attributes start_row start_col last_column screen)
      else (start_row, screen)

  -- The part at its last row, with the last whole row.
  unfoldable pub clear_last : Attributes → ℤ → ℤ → Screen → ℤ × Screen
  clear_last attributes end_row end_col screen =
      if ltb_ℤ end_col last_column
      then (end_row -ℤ pos 1, clear_columns attributes end_row (pos 0) end_col screen)
      else (end_row, screen)

  -- `guac_terminal_clear_range`
  unfoldable pub clear_range : Attributes → ℤ → ℤ → ℤ → ℤ → Screen → Screen
  clear_range attributes start_row start_col end_row end_col screen =
      let (first, screen') = clear_first attributes start_row start_col screen in
      let (last, screen'') = clear_last attributes end_row end_col screen' in
      clear_rows attributes (count_between first last) first screen''

  -- `guac_terminal_scroll_up`; the bounds of the scrollbar are left out.
  unfoldable pub scroll_up : Attributes → ℤ → ℤ → ℤ → Screen → Screen
  scroll_up attributes start_row end_row amount screen =
      let called =
        call_display (display_copy_rows (start_row +ℤ amount) end_row (pos 0 -ℤ amount)) screen in
      let turned = record called {
        buffer = elim screen.buffer [
          | none ↦ none
          | some buffer ↦ some (advance_top amount buffer)
        ];
      } in
      let scrolled =
        if equal_ℤ start_row (pos 0) && equal_ℤ end_row (pos size.term_height -ℤ pos 1)
        then move_visible_row start_row end_row (pos 0 -ℤ amount) turned
        else copy_rows (start_row +ℤ amount) end_row (pos 0 -ℤ amount) screen in
      clear_range attributes (end_row -ℤ amount +ℤ pos 1) (pos 0) end_row last_column scrolled

  -- `guac_terminal_scroll_down`
  unfoldable pub scroll_down : Attributes → ℤ → ℤ → ℤ → Screen → Screen
  scroll_down attributes start_row end_row amount screen =
      clear_range attributes start_row (pos 0) (start_row +ℤ amount -ℤ pos 1) last_column
        (copy_rows start_row (end_row -ℤ amount) amount screen)
