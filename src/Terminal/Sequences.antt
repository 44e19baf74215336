-- ===== src/Terminal/Sequences.antt =====
-- Where the cursor may stand in control sequences, operating system commands and whole inputs
-- (guacamole/src/protocols/ssh/terminal_handlers.c, terminal.c).
use occamy.Base.{
  ℕ, zero, suc, ◌+◌, ◌-◌, ◌≤◌, ◌≡◌, refl, arith, ltb, leb, ◌==◌, ◌&&◌, ◌||◌, not, if◌then◌else◌,
  Bool, true, false, on_branches, List, [], ◌∷◌, length, none, some,
}
use occamy.Base
use occamy.Base.Int.{ℤ, pos, ◌+ℤ◌, equal_ℤ, ltb_ℤ}
use occamy.Terminal.State.{
  Terminal, Handler, echo, escape, csi, g0_charset, g1_charset, osc, ctrl_func, apc, download,
  set_directory, open_pipe_stream, close_pipe_stream, window_title, xterm_palette,
}
use occamy.Terminal.Tabs.{unset_tab, clear_tabs}
use occamy.Terminal.Echo.{column_width}
use occamy.Terminal.Escape.{escape_byte, escape_code, g0_charset_byte, g1_charset_byte}
use occamy.Terminal.Csi
use occamy.Terminal.Cases.{arg, amount, set_flag}
use occamy.Terminal.Csi.{
  CsiFunction, csi_function, perform_csi, csi_byte, end_sequence, end_parameter,
}
use occamy.Terminal.Osc.{
  is_terminator, set_directory_byte, download_byte, open_pipe_stream_byte, close_pipe_stream_byte,
  window_title_byte, palette_index_byte, palette_color_byte, xterm_palette_byte, osc_byte,
  ctrl_func_byte, apc_byte,
}
use occamy.Terminal.Write.{Environment, handle, write}
use occamy.Terminal.Bounds.{
  IsOnScreen, IsClipped, move_cursor-IsOnScreen, move_cursor-IsClipped,
  pipe_stream_close-IsOnScreen, pipe_stream_open-IsOnScreen,
}
use occamy.Terminal.Cursor.{either, echo_byte-IsOnScreen, perform_escape-IsOnScreen}

set_flag-IsOnScreen :
    (num : ℤ) (private_mode : ℕ) (value : Bool) (term : Terminal)
    → IsOnScreen term
    → IsOnScreen (set_flag num private_mode value term)
unfolding set_flag
set_flag-IsOnScreen num private_mode value term h =
    either (private_mode == b'?') _ _ (λ _. either (equal_ℤ num (pos 1)) _ _ (λ _. h) (λ _. h))
      (λ _.
        either (private_mode == 0) _ _
          (λ _.
            either (equal_ℤ num (pos 4)) _ _ (λ _. h)
              (λ _. either (equal_ℤ num (pos 20)) _ _ (λ _. h) (λ _. h)))
          (λ _. h))

perform_csi-IsOnScreen :
    (function : CsiFunction) (term : Terminal)
    → IsOnScreen term
    → IsOnScreen (perform_csi function term)
unfolding perform_csi unset_tab clear_tabs
perform_csi-IsOnScreen Csi.insert_characters term h =
    either (ltb_ℤ (term.cursor_col +ℤ amount term) (pos term.size.term_width)) _ _ (λ _. h) (λ _. h)
perform_csi-IsOnScreen Csi.move_up term h = move_cursor-IsOnScreen _ _ term h
perform_csi-IsOnScreen Csi.move_down term h = move_cursor-IsOnScreen _ _ term h
perform_csi-IsOnScreen Csi.move_right term h = move_cursor-IsOnScreen _ _ term h
perform_csi-IsOnScreen Csi.move_left term h = move_cursor-IsOnScreen _ _ term h
perform_csi-IsOnScreen Csi.lines_down term h = move_cursor-IsOnScreen _ _ term h
perform_csi-IsOnScreen Csi.lines_up term h = move_cursor-IsOnScreen _ _ term h
perform_csi-IsOnScreen Csi.column_absolute term h = move_cursor-IsOnScreen _ _ term h
perform_csi-IsOnScreen Csi.position term h = move_cursor-IsOnScreen _ _ term h
perform_csi-IsOnScreen Csi.erase_display term h =
    either (equal_ℤ (arg 0 term) (pos 0)) _ _ (λ _. h)
      (λ _.
        either (equal_ℤ (arg 0 term) (pos 1)) _ _ (λ _. h)
          (λ _.
            either (equal_ℤ (arg 0 term) (pos 2) || equal_ℤ (arg 0 term) (pos 3)) _ _ (λ _. h)
              (λ _. h)))
perform_csi-IsOnScreen Csi.erase_line term h =
    either (equal_ℤ (arg 0 term) (pos 0)) _ _ (λ _. h)
      (λ _.
        either (equal_ℤ (arg 0 term) (pos 1)) _ _ (λ _. h)
          (λ _. either (equal_ℤ (arg 0 term) (pos 2)) _ _ (λ _. h) (λ _. h)))
perform_csi-IsOnScreen Csi.insert_lines term h = h
perform_csi-IsOnScreen Csi.delete_lines term h = h
perform_csi-IsOnScreen Csi.delete_characters term h =
    either (ltb_ℤ (term.cursor_col +ℤ amount term) (pos term.size.term_width)) _ _ (λ _. h) (λ _. h)
perform_csi-IsOnScreen Csi.erase_characters term h = h
perform_csi-IsOnScreen Csi.identify term h =
    either (equal_ℤ (arg 0 term) (pos 0) && term.statics.private_mode == 0) _ _ (λ _. h) (λ _. h)
perform_csi-IsOnScreen Csi.row_absolute term h = move_cursor-IsOnScreen _ _ term h
perform_csi-IsOnScreen Csi.clear_tab term h =
    either (equal_ℤ (arg 0 term) (pos 0)) _ _ (λ _. h)
      (λ _. either (equal_ℤ (arg 0 term) (pos 3)) _ _ (λ _. h) (λ _. h))
perform_csi-IsOnScreen Csi.set_mode term h = set_flag-IsOnScreen _ _ true term h
perform_csi-IsOnScreen Csi.reset_mode term h = set_flag-IsOnScreen _ _ false term h
perform_csi-IsOnScreen Csi.graphics_rendition term h = h
perform_csi-IsOnScreen Csi.status_report term h =
    either (equal_ℤ (arg 0 term) (pos 5) && term.statics.private_mode == 0) _ _ (λ _. h)
      (λ _.
        either (equal_ℤ (arg 0 term) (pos 6) && term.statics.private_mode == 0) _ _ (λ _. h)
          (λ _. h))
perform_csi-IsOnScreen Csi.scrolling_region term h =
    either (term.statics.argc == 2) _ _ (λ _. h) (λ _. h)
perform_csi-IsOnScreen Csi.save_cursor term h = h
perform_csi-IsOnScreen Csi.restore_cursor term h = move_cursor-IsOnScreen _ _ term h
perform_csi-IsOnScreen Csi.ignored term h = h

csi_byte-IsOnScreen :
    (atoi : Base.Bytes → ℤ) (c : ℕ) (term : Terminal)
    → IsOnScreen term
    → IsOnScreen (csi_byte atoi c term)
unfolding csi_byte end_sequence
csi_byte-IsOnScreen atoi c term h =
    either (leb b'0' c && leb c b'9') _ _
      (λ _. either (ltb (length term.statics.argv_buffer) 255) _ _ (λ _. h) (λ _. h))
      (λ _.
        either ((leb 0x40 c && leb c 0x7e) || c == b';') _ _
          (λ _. either (c == b';') _ _ (λ _. h) (λ _. perform_csi-IsOnScreen (csi_function c) _ h))
          (λ _.
            either (leb 0x3a c && leb c 0x3f && term.statics.private_mode == 0) _ _ (λ _. h)
              (λ _. h)))

xterm_palette_byte-IsOnScreen :
    (xparsecolor : _) (c : ℕ) (term : Terminal)
    → IsOnScreen term
    → IsOnScreen (xterm_palette_byte xparsecolor c term)
unfolding xterm_palette_byte palette_color_byte palette_index_byte
xterm_palette_byte-IsOnScreen xparsecolor c term h =
    let read =
      either term.statics.read_color_spec (palette_color_byte xparsecolor c term)
        (palette_index_byte xparsecolor c term)
        (λ _. either (c == b';' || is_terminator c) _ _ (λ _. h) (λ _. h))
        (λ _.
          either (leb b'0' c && leb c b'9') _ _ (λ _. h)
            (λ _. either (c == b';') _ _ (λ _. h) (λ _. h))) in
    either (is_terminator c) _ _ (λ _. read) (λ _. read)

osc_byte-IsOnScreen : (c : ℕ) (term : Terminal) → IsOnScreen term → IsOnScreen (osc_byte c term)
unfolding osc_byte
osc_byte-IsOnScreen c term h =
    either (leb b'0' c && leb c b'9') _ _ (λ _. h) (λ _. either (c == b';') _ _ (λ _. h) (λ _. h))

module _ (env : Environment) (narrow : (c : ℕ) → column_width env.wcwidth c ≤ 2) where
  handle-IsOnScreen :
      (handler : Handler) (c : ℕ) (term : Terminal)
      → IsOnScreen term
      → IsOnScreen (handle env handler c term)
  unfolding handle escape_byte g0_charset_byte g1_charset_byte ctrl_func_byte apc_byte
      set_directory_byte download_byte open_pipe_stream_byte close_pipe_stream_byte
      window_title_byte
  handle-IsOnScreen echo c term h = echo_byte-IsOnScreen env.wcwidth narrow c term h
  handle-IsOnScreen escape c term h = perform_escape-IsOnScreen (escape_code c) term h
  handle-IsOnScreen csi c term h = csi_byte-IsOnScreen env.atoi c term h
  handle-IsOnScreen g0_charset c term h = h
  handle-IsOnScreen g1_charset c term h = h
  handle-IsOnScreen osc c term h = osc_byte-IsOnScreen c term h
  handle-IsOnScreen ctrl_func c term h = either (c == b'8') _ _ (λ _. h) (λ _. h)
  handle-IsOnScreen apc c term h =
      either (term.statics.escaping && c == b'\\') _ _ (λ _. h) (λ _. h)
  handle-IsOnScreen download c term h = either (is_terminator c) _ _ (λ _. h) (λ _. h)
  handle-IsOnScreen set_directory c term h = either (is_terminator c) _ _ (λ _. h) (λ _. h)
  handle-IsOnScreen open_pipe_stream c term h =
      either (is_terminator c) _ _ (λ _. pipe_stream_open-IsOnScreen _ _ h) (λ _. h)
  handle-IsOnScreen close_pipe_stream c term h =
      either (is_terminator c) _ _ (λ _. pipe_stream_close-IsOnScreen term h) (λ _. h)
  handle-IsOnScreen window_title c term h = either (is_terminator c) _ _ (λ _. h) (λ _. h)
  handle-IsOnScreen xterm_palette c term h = xterm_palette_byte-IsOnScreen env.xparsecolor c term h

  write_bytes-IsOnScreen :
      (bytes : Base.Bytes) (term : Terminal) → IsOnScreen term → IsOnScreen (write env bytes term)
  unfolding write
  write_bytes-IsOnScreen [] term h = h
  write_bytes-IsOnScreen (c ∷ bytes) term h =
      write_bytes-IsOnScreen bytes _ (handle-IsOnScreen term.char_handler c term h)

  -- Where no character is wider than two columns, whatever bytes are written to a terminal, escape and
  -- control sequences, cut short ones and unknown ones included, the cursor stays on a row of the
  -- screen, and in a column of it or at most two behind the last one. Moving the cursor from there to
  -- any row and column puts it at the nearest ones of the screen, none behind the last.
  pub write-IsOnScreen :
      (row col : ℤ) (bytes : Base.Bytes) (term : Terminal)
      → IsOnScreen term
      → IsOnScreen (write env bytes term) × IsClipped row col (write env bytes term)
  write-IsOnScreen row col bytes term h =
      (write_bytes-IsOnScreen bytes term h, move_cursor-IsClipped row col (write env bytes term))
