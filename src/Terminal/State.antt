-- ===== src/Terminal/State.antt =====
-- guacamole/src/protocols/ssh/terminal.c: the state of a terminal, and the operations on it that the
-- handlers of characters call. Variables that the handlers declare `static` are fields here; in C all
-- terminals of the process share them.
use occamy.Base.{
  ℕ, zero, suc, ◌+◌, ◌-◌, ◌*◌, ◌/◌, ◌==◌, ltb, leb, ◌&&◌, ◌||◌, not, if◌then◌else◌, Bool, true,
  false, Option, none, some, List, [], ◌∷◌, ◌++◌, length, replicate, codes,
}
use occamy.Base
use occamy.Base.Int.{ℤ, pos, ◌+ℤ◌, ◌-ℤ◌, ltb_ℤ, leb_ℤ, equal_ℤ}
use occamy.Terminal.Char.{Attributes, Char, Color}
use occamy.Terminal.Buffer.{Buffer}
use occamy.Terminal.Screen.{Screen, Dimensions, set_columns}
use occamy.Terminal.Scroll.{scroll_up, scroll_down}

-- The handlers that `char_handler` points to.
pub data Handler : Type 0 where
  echo escape csi g0_charset g1_charset osc ctrl_func apc : Handler
  download set_directory open_pipe_stream close_pipe_stream window_title xterm_palette : Handler

pub data Mapping : Type 0 where
  vt100_mapping null_mapping user_mapping : Mapping

-- What the terminal asks of the client, its users and the shell: calls in their order.
pub data Call : Type 0 where
  send_input : Base.Bytes → Call
  send_title : Base.Bytes → Call
  upload_to : Base.Bytes → Call
  download_from : Base.Bytes → Call
  pipe_begins : Base.Bytes → Call
  pipe_data : Base.Bytes → Call
  pipe_ends : Call

-- The static variables of `guac_terminal_echo`, `…_csi`, `…_osc`, `…_xterm_palette` and `…_apc`, and the
-- strings that the other handlers collect; each string is the filled part of its array.
pub record Statics : Type 0 where
  pub bytes_remaining : ℤ
  pub codepoint : ℕ
  pub argc : ℕ
  pub argv : List ℤ
  pub private_mode : ℕ
  pub argv_buffer : Base.Bytes
  pub operation : ℕ
  pub directory : Base.Bytes
  pub filename : Base.Bytes
  pub stream_name : Base.Bytes
  pub title : Base.Bytes
  pub read_color_spec : Bool
  pub palette_index : ℕ
  pub color_spec : Base.Bytes
  pub escaping : Bool

-- The part of `guac_terminal` that the handlers use. A tab of 0 in `custom_tabs` is none.
pub record Terminal : Type 0 where
  pub size : Dimensions
  pub screen : Screen
  pub scroll_start : ℤ
  pub scroll_end : ℤ
  pub cursor_row : ℤ
  pub cursor_col : ℤ
  pub saved_cursor_row : ℤ
  pub saved_cursor_col : ℤ
  pub current_attributes : Attributes
  pub default_char : Char
  pub char_handler : Handler
  pub tab_interval : ℕ
  pub custom_tabs : List ℤ
  pub char_mapping_0 : Option Mapping
  pub char_mapping_1 : Option Mapping
  pub active_char_set : ℕ
  pub application_cursor_keys : Bool
  pub automatic_carriage_return : Bool
  pub insert_mode : Bool
  pub text_selected : Bool
  pub palette : List Color
  pub default_palette : List Color
  pub pipe_stream : Bool
  pub pipe_buffer : Base.Bytes
  pub statics : Statics
  pub calls : List Call

abbrev pub on_screen : (Screen → Screen) → Terminal → Terminal
on_screen f term = record term { screen = f term.screen }

abbrev pub call : Call → Terminal → Terminal
call c term = record term { calls = term.calls ++ (c ∷ []) }

abbrev pub handle_by : Handler → Terminal → Terminal
handle_by handler term = record term { char_handler = handler }

-- `guac_terminal_send_string`: the string is written to the standard input of the shell.
abbrev pub send_string : Base.Bytes → Terminal → Terminal
send_string data' = call (send_input data')

-- A row or column within the bounds of the terminal.
unfoldable pub bound : ℕ → ℤ → ℤ
bound most n =
    if leb_ℤ (pos most) n then pos most -ℤ pos 1 else if ltb_ℤ n (pos 0) then pos 0 else n

-- `guac_terminal_move_cursor`
unfoldable pub move_cursor : ℤ → ℤ → Terminal → Terminal
move_cursor row col term = record term {
  cursor_row = bound term.size.term_height row;
  cursor_col = bound term.size.term_width col;
}

-- `guac_terminal_linefeed`
unfoldable pub linefeed : Terminal → Terminal
linefeed term =
    if equal_ℤ term.cursor_row term.scroll_end
    then on_screen
        (scroll_up term.size term.current_attributes term.scroll_start term.scroll_end (pos 1)) term
    else if ltb_ℤ term.cursor_row (pos term.size.term_height -ℤ pos 1)
    then record term { cursor_row = term.cursor_row +ℤ pos 1 }
    else term

-- `guac_terminal_reverse_linefeed`
unfoldable pub reverse_linefeed : Terminal → Terminal
reverse_linefeed term =
    if equal_ℤ term.cursor_row term.scroll_start
    then on_screen
        (scroll_down term.size term.current_attributes term.scroll_start term.scroll_end (pos 1))
        term
    else if ltb_ℤ (pos 0) term.cursor_row
    then record term { cursor_row = term.cursor_row -ℤ pos 1 }
    else term

-- The loop of `guac_terminal_reset` over so many rows.
unfoldable pub blank_rows : Dimensions → Char → ℕ → ℤ → Screen → Screen
blank_rows size blank zero row screen = screen
blank_rows size blank (suc n) row screen =
    blank_rows size blank n (row +ℤ pos 1)
      (set_columns row (pos 0) (pos size.term_width) blank screen)

abbrev reset_buffer : Option Buffer → Option Buffer
reset_buffer none = none
reset_buffer (some buffer) = some (record buffer { top = pos 0; size = pos 0 })

-- `guac_terminal_reset`; the scrollbar is left out.
unfoldable pub reset : Terminal → Terminal
reset term = record term {
  char_handler = echo;
  active_char_set = 0;
  char_mapping_0 = none;
  char_mapping_1 = none;
  cursor_row = pos 0;
  cursor_col = pos 0;
  saved_cursor_row = pos 0;
  saved_cursor_col = pos 0;
  scroll_start = pos 0;
  scroll_end = pos term.size.term_height -ℤ pos 1;
  text_selected = false;
  application_cursor_keys = false;
  automatic_carriage_return = false;
  insert_mode = false;
  tab_interval = 8;
  custom_tabs = replicate 16 (pos 0);
  current_attributes = term.default_char.attributes;
  palette = term.default_palette;
  screen =
      blank_rows term.size term.default_char term.size.term_height (pos 0) (record term.screen {
        buffer = reset_buffer term.screen.buffer;
        visible_cursor_row = pos 0;
        visible_cursor_col = pos 0;
        scroll_offset = pos 0;
      });
}
