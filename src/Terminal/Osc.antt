-- ===== src/Terminal/Osc.antt =====
-- guacamole/src/protocols/ssh/terminal_handlers.c: operating system commands, the alignment test, and
-- application commands. How a color is parsed (guac_terminal_xparsecolor) is a parameter, which may be
-- any function; so is the width that the alignment test leaves unset in its character.
use occamy.Base.{
  ℕ, zero, suc, ◌+◌, ◌-◌, ◌*◌, ◌%◌, ◌^◌, ◌==◌, ltb, leb, ◌&&◌, ◌||◌, not, if◌then◌else◌, Bool, true,
  false, Option, none, some, List, [], ◌∷◌, ◌++◌, length, get_elem?, set,
}
use occamy.Base
use occamy.Base.Int.{ℤ, pos, ◌+ℤ◌, ◌-ℤ◌}
use occamy.Terminal.Char.{Char, Color}
use occamy.Terminal.Screen.{Screen, Dimensions, set_columns}
use occamy.Terminal.State.{
  Terminal, Handler, echo, download, set_directory, open_pipe_stream, close_pipe_stream,
  window_title, xterm_palette, on_screen, handle_by, call, send_title, upload_to, download_from,
}
use occamy.Terminal.Pipe.{pipe_stream_open, pipe_stream_close}

-- A string terminator, or a bell.
abbrev pub is_terminator : ℕ → Bool
is_terminator c = c == 0x9c || c == 0x5c || c == 0x07

-- A byte that is stored in an array with room for so many in front of its null byte.
abbrev store_byte : ℕ → ℕ → Base.Bytes → Base.Bytes
store_byte room c stored = if ltb (length stored) room then stored ++ (c ∷ []) else stored

-- `guac_terminal_set_directory`, where there is an upload handler.
unfoldable pub set_directory_byte : ℕ → Terminal → Terminal
set_directory_byte c term =
    let s = term.statics in
    if is_terminator c
    then call (upload_to s.directory)
        (record term { char_handler = echo; statics = record s { directory = [] } })
    else record term { statics = record s { directory = store_byte 2047 c s.directory } }

-- `guac_terminal_download`, where there is a download handler.
unfoldable pub download_byte : ℕ → Terminal → Terminal
download_byte c term =
    let s = term.statics in
    if is_terminator c
    then call (download_from s.filename)
        (record term { char_handler = echo; statics = record s { filename = [] } })
    else record term { statics = record s { filename = store_byte 2047 c s.filename } }

-- `guac_terminal_open_pipe_stream`
unfoldable pub open_pipe_stream_byte : ℕ → Terminal → Terminal
open_pipe_stream_byte c term =
    let s = term.statics in
    if is_terminator c
    then handle_by echo
        (pipe_stream_open s.stream_name (record term { statics = record s { stream_name = [] } }))
    else record term { statics = record s { stream_name = store_byte 2047 c s.stream_name } }

-- `guac_terminal_close_pipe_stream`
unfoldable pub close_pipe_stream_byte : ℕ → Terminal → Terminal
close_pipe_stream_byte c term =
    if is_terminator c then handle_by echo (pipe_stream_close term) else term

-- `guac_terminal_window_title`
unfoldable pub window_title_byte : ℕ → Terminal → Terminal
window_title_byte c term =
    let s = term.statics in
    if is_terminator c
    then call (send_title s.title)
        (record term { char_handler = echo; statics = record s { title = [] } })
    else record term { statics = record s { title = store_byte 4095 c s.title } }

-- The digits of a number that wraps around as an `int` does.
abbrev append_digit : ℕ → ℕ → ℕ
append_digit n c = (n * 10 + (c - b'0')) % 2 ^ 32

-- `guac_terminal_display_assign_color`
unfoldable pub assign_color : ℕ → Option Color → List Color → List Color
assign_color index none palette = palette
assign_color index (some color) palette =
    if ltb 255 index then palette else elim (get_elem? palette index) [
      | none ↦ palette
      | some entry ↦
          set palette index
            (record entry { red = color.red; green = color.green; blue = color.blue })
    ]

module _ (xparsecolor : Base.Bytes → Option Color) where
  -- The part of `guac_terminal_xterm_palette` that reads the index.
  unfoldable pub palette_index_byte : ℕ → Terminal → Terminal
  palette_index_byte c term =
      let s = term.statics in
      if leb b'0' c && leb c b'9'
      then record term { statics = record s { palette_index = append_digit s.palette_index c } }
      else if c == b';'
      then record term { statics = record s { read_color_spec = true; color_spec = [] } }
      else term

  -- The part that reads the color.
  unfoldable pub palette_color_byte : ℕ → Terminal → Terminal
  palette_color_byte c term =
      let s = term.statics in
      if c == b';' || is_terminator c
      then record term {
        palette = assign_color s.palette_index (xparsecolor s.color_spec) term.palette;
        statics = record s { read_color_spec = false; palette_index = 0 };
      }
      else record term { statics = record s { color_spec = store_byte 255 c s.color_spec } }

  -- `guac_terminal_xterm_palette`
  unfoldable pub xterm_palette_byte : ℕ → Terminal → Terminal
  xterm_palette_byte c term =
      let read =
        if term.statics.read_color_spec
        then palette_color_byte c term
        else palette_index_byte c term in
      if is_terminator c then handle_by echo read else read

-- The handler of an operation, where there is one.
abbrev operation_handler : ℕ → Handler → Handler
operation_handler operation otherwise =
    if operation == 482200
    then download
    else if operation == 482201
    then set_directory
    else if operation == 482202
    then open_pipe_stream
    else if operation == 482203
    then close_pipe_stream
    else if operation == 0 || operation == 2
    then window_title
    else if operation == 4
    then xterm_palette
    else otherwise

-- `guac_terminal_osc`
unfoldable pub osc_byte : ℕ → Terminal → Terminal
osc_byte c term =
    let s = term.statics in
    if leb b'0' c && leb c b'9'
    then record term { statics = record s { operation = append_digit s.operation c } }
    else if c == b';'
    then record term {
      char_handler = operation_handler s.operation term.char_handler;
      statics = record s { operation = 0 };
    }
    else handle_by echo term

-- The loop of the alignment test, over so many rows.
unfoldable pub fill_rows : Dimensions → Char → ℕ → ℤ → Screen → Screen
fill_rows size c zero row screen = screen
fill_rows size c (suc n) row screen =
    fill_rows size c n (row +ℤ pos 1)
      (set_columns row (pos 0) (pos size.term_width -ℤ pos 1) c screen)

-- `guac_terminal_ctrl_func`
unfoldable pub ctrl_func_byte : ℕ → ℕ → Terminal → Terminal
ctrl_func_byte unset_width c term =
    let letter : Char = record {
      value = pos b'E';
      attributes = term.current_attributes;
      width = unset_width;
    } in
    handle_by echo (
      if c == b'8'
      then on_screen (fill_rows term.size letter term.size.term_height (pos 0)) term
      else term)

-- `guac_terminal_apc`
unfoldable pub apc_byte : ℕ → Terminal → Terminal
apc_byte c term =
    let s = term.statics in
    let ended = if s.escaping && c == b'\\' then handle_by echo term else term in
    record ended { statics = record s { escaping = c == 0x1b } }
