-- ===== src/Terminal/Csi.antt =====
-- guacamole/src/protocols/ssh/terminal_handlers.c: control sequences. The C library's `atoi` is a
-- parameter.
use occamy.Base.{
  ℕ, zero, suc, ◌+◌, ◌-◌, ◌==◌, ltb, leb, ◌&&◌, ◌||◌, not, if◌then◌else◌, Bool, true, false, List,
  [], ◌∷◌, ◌++◌, length, get_or, set, take, replicate, codes,
}
use occamy.Base
use occamy.Base.Int.{ℤ, pos, ◌+ℤ◌, ◌-ℤ◌}
use occamy.Terminal.State.{Terminal, Statics, echo, move_cursor}
use occamy.Terminal.Cases.{
  arg, amount, from_one, set_flag, insert_blanks, clear_display_part, clear_line_part, insert_rows,
  delete_rows, remove_characters, clear_characters, send_identity, clear_tab_stops, set_attributes,
  send_status, set_region,
}

-- The functions of control sequences: the cases of the switch over the final byte.
pub data CsiFunction : Type 0 where
  insert_characters move_up move_down move_right move_left lines_down lines_up : CsiFunction
  column_absolute position erase_display erase_line insert_lines delete_lines : CsiFunction
  delete_characters erase_characters identify row_absolute clear_tab set_mode reset_mode :
      CsiFunction
  graphics_rendition status_report scrolling_region save_cursor restore_cursor ignored : CsiFunction

unfoldable pub csi_function : ℕ → CsiFunction
csi_function c =
    if c == b'@'
    then insert_characters
    else if c == b'A'
    then move_up
    else if c == b'e' || c == b'B'
    then move_down
    else if c == b'a' || c == b'C'
    then move_right
    else if c == b'D'
    then move_left
    else if c == b'E'
    then lines_down
    else if c == b'F'
    then lines_up
    else if c == b'`' || c == b'G'
    then column_absolute
    else if c == b'f' || c == b'H'
    then position
    else if c == b'J'
    then erase_display
    else if c == b'K'
    then erase_line
    else if c == b'L'
    then insert_lines
    else if c == b'M'
    then delete_lines
    else if c == b'P'
    then delete_characters
    else if c == b'X'
    then erase_characters
    else if c == b'c'
    then identify
    else if c == b'd'
    then row_absolute
    else if c == b'g'
    then clear_tab
    else if c == b'h'
    then set_mode
    else if c == b'l'
    then reset_mode
    else if c == b'm'
    then graphics_rendition
    else if c == b'n'
    then status_report
    else if c == b'r'
    then scrolling_region
    else if c == b's'
    then save_cursor
    else if c == b'u'
    then restore_cursor
    else ignored

-- The sums of the cursor's place and an amount are unbounded here; in C a sum beyond the range of an
-- `int` is undefined, which an amount close to 2 ^ 31 reaches. The functions that take an amount are
-- those of the code for smaller ones only.
unfoldable pub perform_csi : CsiFunction → Terminal → Terminal
perform_csi insert_characters term = insert_blanks term
perform_csi move_up term = move_cursor (term.cursor_row -ℤ amount term) term.cursor_col term
perform_csi move_down term = move_cursor (term.cursor_row +ℤ amount term) term.cursor_col term
perform_csi move_right term = move_cursor term.cursor_row (term.cursor_col +ℤ amount term) term
perform_csi move_left term = move_cursor term.cursor_row (term.cursor_col -ℤ amount term) term
perform_csi lines_down term = move_cursor (term.cursor_row +ℤ amount term) (pos 0) term
perform_csi lines_up term = move_cursor (term.cursor_row -ℤ amount term) (pos 0) term
perform_csi column_absolute term = move_cursor term.cursor_row (from_one (arg 0 term)) term
perform_csi position term = move_cursor (from_one (arg 0 term)) (from_one (arg 1 term)) term
perform_csi erase_display term = clear_display_part term
perform_csi erase_line term = clear_line_part term
perform_csi insert_lines term = insert_rows term
perform_csi delete_lines term = delete_rows term
perform_csi delete_characters term = remove_characters term
perform_csi erase_characters term = clear_characters term
perform_csi identify term = send_identity term
perform_csi row_absolute term = move_cursor (from_one (arg 0 term)) term.cursor_col term
perform_csi clear_tab term = clear_tab_stops term
perform_csi set_mode term = set_flag (arg 0 term) term.statics.private_mode true term
perform_csi reset_mode term = set_flag (arg 0 term) term.statics.private_mode false term
perform_csi graphics_rendition term = set_attributes term
perform_csi status_report term = send_status term
perform_csi scrolling_region term = set_region term
perform_csi save_cursor term = record term {
  saved_cursor_row = term.cursor_row;
  saved_cursor_col = term.cursor_col;
}
perform_csi restore_cursor term = move_cursor term.saved_cursor_row term.saved_cursor_col term
perform_csi ignored term = term

-- The end of a sequence: its parameters are reset.
unfoldable pub end_sequence : Terminal → Terminal
end_sequence term =
    let s = term.statics in
    record term {
      char_handler = echo;
      statics = record s {
        argv = replicate s.argc (pos 0) ++ Base.drop s.argc s.argv;
        private_mode = 0;
        argc = 0;
        argv_buffer = [];
      };
    }

module _ (atoi : Base.Bytes → ℤ) where
  -- The end of a parameter, of which there are 16 at most.
  unfoldable pub end_parameter : Statics → Statics
  end_parameter s =
      if ltb s.argc 16
      then record s {
        argv = set s.argv s.argc (atoi s.argv_buffer);
        argc = s.argc + 1;
        argv_buffer = [];
      }
      else s

  -- `guac_terminal_csi`
  unfoldable pub csi_byte : ℕ → Terminal → Terminal
  csi_byte c term =
      let s = term.statics in
      let ended = record term { statics = end_parameter s } in
      if leb b'0' c && leb c b'9'
      then (if ltb (length s.argv_buffer) 255
          then record term { statics = record s { argv_buffer = s.argv_buffer ++ (c ∷ []) } }
          else term)
      else if (leb 0x40 c && leb c 0x7e) || c == b';'
      then (if c == b';' then ended else end_sequence (perform_csi (csi_function c) ended))
      else if leb 0x3a c && leb c 0x3f && s.private_mode == 0
      then record term { statics = record s { private_mode = c } }
      else term
