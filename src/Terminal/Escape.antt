-- ===== src/Terminal/Escape.antt =====
-- guacamole/src/protocols/ssh/terminal_handlers.c: the handlers behind an escape.
use occamy.Base.{
  ℕ, zero, suc, ◌+◌, ◌-◌, ◌*◌, ◌%◌, ◌^◌, bit_and, bit_or, ◌==◌, ltb, leb, ◌&&◌, ◌||◌, not,
  if◌then◌else◌, Bool, true, false, Option, none, some, List, [], ◌∷◌, codes, get_or,
}
use occamy.Base
use occamy.Base.Int.{pos}
use occamy.Terminal.State.{
  Terminal, echo, csi, g0_charset, g1_charset, osc, ctrl_func, apc, Mapping, vt100_mapping,
  null_mapping, user_mapping, handle_by, send_string, move_cursor, linefeed, reverse_linefeed,
  reset,
}
use occamy.Terminal.Tabs.{set_tab}

-- `GUAC_TERMINAL_VT102_ID`
abbrev pub vt102_id : Base.Bytes
vt102_id = 0x1b ∷ codes "[?6c"

-- The cases of the switch of `guac_terminal_escape`.
pub data EscapeCode : Type 0 where
  g0 g1 operating_system control_sequence line_attributes save_cursor restore_cursor index :
      EscapeCode
  next_line set_tab_stop reverse_index identify full_reset application unknown : EscapeCode

unfoldable pub escape_code : ℕ → EscapeCode
escape_code c =
    if c == b'('
    then g0
    else if c == b')'
    then g1
    else if c == b']'
    then operating_system
    else if c == b'['
    then control_sequence
    else if c == b'#'
    then line_attributes
    else if c == b'7'
    then save_cursor
    else if c == b'8'
    then restore_cursor
    else if c == b'D'
    then index
    else if c == b'E'
    then next_line
    else if c == b'H'
    then set_tab_stop
    else if c == b'M'
    then reverse_index
    else if c == b'Z'
    then identify
    else if c == b'c'
    then full_reset
    else if c == b'_'
    then application
    else unknown

unfoldable pub perform_escape : EscapeCode → Terminal → Terminal
perform_escape g0 term = handle_by g0_charset term
perform_escape g1 term = handle_by g1_charset term
perform_escape operating_system term = handle_by osc term
perform_escape control_sequence term = handle_by csi term
perform_escape line_attributes term = handle_by ctrl_func term
perform_escape save_cursor term = record term {
  saved_cursor_row = term.cursor_row;
  saved_cursor_col = term.cursor_col;
  char_handler = echo;
}
perform_escape restore_cursor term =
    handle_by echo (move_cursor term.saved_cursor_row term.saved_cursor_col term)
perform_escape index term = handle_by echo (linefeed term)
perform_escape next_line term = handle_by echo (linefeed (move_cursor term.cursor_row (pos 0) term))
perform_escape set_tab_stop term = handle_by echo (set_tab term.cursor_col term)
perform_escape reverse_index term = handle_by echo (reverse_linefeed term)
perform_escape identify term = handle_by echo (send_string vt102_id term)
perform_escape full_reset term = reset term
perform_escape application term = handle_by apc term
perform_escape unknown term = handle_by echo term

-- `guac_terminal_escape`
unfoldable pub escape_byte : ℕ → Terminal → Terminal
escape_byte c term = perform_escape (escape_code c) term

-- `__guac_terminal_get_char_mapping`
unfoldable pub get_char_mapping : ℕ → Option Mapping
get_char_mapping c =
    if c == b'0'
    then some vt100_mapping
    else if c == b'U'
    then some null_mapping
    else if c == b'K'
    then some user_mapping
    else none

-- `guac_terminal_g0_charset`
unfoldable pub g0_charset_byte : ℕ → Terminal → Terminal
g0_charset_byte c term = record term { char_mapping_0 = get_char_mapping c; char_handler = echo }

-- `guac_terminal_g1_charset`
unfoldable pub g1_charset_byte : ℕ → Terminal → Terminal
g1_charset_byte c term = record term { char_mapping_1 = get_char_mapping c; char_handler = echo }
