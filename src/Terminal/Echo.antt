-- ===== src/Terminal/Echo.antt =====
-- guacamole/src/protocols/ssh/terminal_handlers.c: the handler of characters outside of sequences. The
-- C library's `wcwidth` is a parameter.
use occamy.Base.{
  ℕ, zero, suc, ◌-◌, ◌*◌, ◌%◌, ◌^◌, bit_and, bit_or, ◌==◌, ltb, leb, ◌&&◌, ◌||◌, not, if◌then◌else◌,
  Option, none, some, List, codes, get_or,
}
use occamy.Base.Int.{ℤ, pos, negsuc, ◌+ℤ◌, ◌-ℤ◌, leb_ℤ, equal_ℤ}
use occamy.Terminal.Screen.{set_columns, copy_columns}
use occamy.Terminal.CharMappings.{vt100_map, null_map, user_map}
use occamy.Terminal.State.{
  Terminal, escape, csi, Mapping, vt100_mapping, null_mapping, user_mapping, on_screen, handle_by,
  send_string, move_cursor, linefeed,
}
use occamy.Terminal.Pipe.{pipe_stream_write}
use occamy.Terminal.Tabs.{next_tab}

abbrev pub map_of : Mapping → List ℕ
map_of vt100_mapping = vt100_map
map_of null_mapping = null_map
map_of user_mapping = user_map

-- The mapping of the active character set.
abbrev pub active_mapping : Terminal → Option Mapping
active_mapping term = if term.active_char_set == 0 then term.char_mapping_0 else term.char_mapping_1

-- The static `bytes_remaining` and `codepoint` behind a byte, with no mapping.
unfoldable pub decode_byte : ℕ → ℤ × ℕ → ℤ × ℕ
decode_byte c (bytes_remaining, codepoint) =
    if bit_and c 0x80 == 0x00
    then (pos 0, bit_and c 0x7f)
    else if bit_and c 0xe0 == 0xc0
    then (pos 1, bit_and c 0x1f)
    else if bit_and c 0xf0 == 0xe0
    then (pos 2, bit_and c 0x0f)
    else if bit_and c 0xf8 == 0xf0
    then (pos 3, bit_and c 0x07)
    else if bit_and c 0xc0 == 0x80
    then (bytes_remaining -ℤ pos 1, bit_or (codepoint * 64 % 2 ^ 32) (bit_and c 0x3f))
    else (pos 0, b'?')

abbrev pub decode_mapped : Option Mapping → ℕ → ℤ × ℕ → ℤ × ℕ
decode_mapped none c state = decode_byte c state
decode_mapped (some mapping) c state = (pos 0, c)

-- The cases of the switch over the codepoint.
pub data Control : Type 0 where
  enquiry bell backspace tab line_feed carriage_return shift_out shift_in : Control
  start_escape start_csi delete displayable : Control

unfoldable pub control_of : ℕ → Control
control_of codepoint =
    if codepoint == 0x05
    then enquiry
    else if codepoint == 0x07
    then bell
    else if codepoint == 0x08
    then backspace
    else if codepoint == 0x09
    then tab
    else if codepoint == 0x0a || codepoint == 0x0b || codepoint == 0x0c
    then line_feed
    else if codepoint == 0x0d
    then carriage_return
    else if codepoint == 0x0e
    then shift_out
    else if codepoint == 0x0f
    then shift_in
    else if codepoint == 0x1b
    then start_escape
    else if codepoint == 0x9b
    then start_csi
    else if codepoint == 0x7f
    then delete
    else displayable

-- The character that a mapping stands for.
abbrev pub translate : Option Mapping → ℕ → ℕ
translate none codepoint = codepoint
translate (some mapping) codepoint =
    if leb 0x20 codepoint && leb codepoint 0xff
    then get_or (map_of mapping) (codepoint - 0x20) codepoint
    else codepoint

-- The wrapping of the cursor at the end of a row.
unfoldable pub wrap : Terminal → Terminal
wrap term =
    if leb_ℤ (pos term.size.term_width) term.cursor_col
    then linefeed (record term { cursor_col = pos 0 })
    else term

-- The shift of the row in insert mode.
unfoldable pub shift_row : Terminal → Terminal
shift_row term =
    if term.insert_mode
    then on_screen
        (copy_columns term.cursor_row term.cursor_col (pos term.size.term_width -ℤ pos 2) (pos 1))
        term
    else term

module _ (wcwidth : ℕ → ℤ) where
  -- `wcwidth`, with 1 where it is negative.
  abbrev pub column_width : ℕ → ℕ
  column_width codepoint = elim (wcwidth codepoint) [ pos width ↦ width | negsuc n ↦ 1 ]

  -- `guac_terminal_set`
  unfoldable pub set_codepoint : ℤ → ℤ → ℕ → Terminal → Terminal
  set_codepoint row col codepoint term = elim (column_width codepoint) [
    | zero ↦ term
    | suc w ↦
        on_screen
          (set_columns row col (col +ℤ pos (suc w) -ℤ pos 1)
            (record { value = pos codepoint; attributes = term.current_attributes; width = suc w }))
          term
  ]

  -- The default case of the switch; a codepoint from 2^31 on is a negative `int`.
  unfoldable pub display_codepoint : ℕ → Terminal → Terminal
  display_codepoint codepoint term =
      let mapped = translate (active_mapping term) codepoint in
      let shifted =
        shift_row (wrap (record term { statics = record term.statics { codepoint = mapped } })) in
      let shown = set_codepoint shifted.cursor_row shifted.cursor_col mapped shifted in
      if ltb codepoint 0x20 || leb (2 ^ 31) codepoint
      then term
      else record shown { cursor_col = shown.cursor_col +ℤ pos (column_width mapped) }

  unfoldable pub perform_control : Control → ℕ → Terminal → Terminal
  perform_control enquiry codepoint term = send_string (codes "GUACAMOLE") term
  perform_control bell codepoint term = term
  perform_control backspace codepoint term =
      move_cursor term.cursor_row (term.cursor_col -ℤ pos 1) term
  perform_control tab codepoint term =
      move_cursor term.cursor_row (next_tab term.cursor_col term) term
  perform_control line_feed codepoint term =
      let fed = linefeed term in
      if fed.automatic_carriage_return then move_cursor fed.cursor_row (pos 0) fed else fed
  perform_control carriage_return codepoint term = move_cursor term.cursor_row (pos 0) term
  perform_control shift_out codepoint term = record term { active_char_set = 1 }
  perform_control shift_in codepoint term = record term { active_char_set = 0 }
  perform_control start_escape codepoint term = handle_by escape term
  perform_control start_csi codepoint term = handle_by csi term
  perform_control delete codepoint term = term
  perform_control displayable codepoint term = display_codepoint codepoint term

  -- `guac_terminal_echo`
  unfoldable pub echo_byte : ℕ → Terminal → Terminal
  echo_byte c term =
      let s = term.statics in
      let (bytes_remaining, codepoint) =
        decode_mapped (active_mapping term) c (s.bytes_remaining, s.codepoint) in
      let decoded = record term {
        statics = record s { bytes_remaining = bytes_remaining; codepoint = codepoint };
      } in
      if term.pipe_stream && not (c == 0x1b)
      then pipe_stream_write c term
      else if not (equal_ℤ bytes_remaining (pos 0))
      then decoded
      else perform_control (control_of codepoint) codepoint decoded
