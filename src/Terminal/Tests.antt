-- ===== src/Terminal/Tests.antt =====
-- The encoder at the euro sign, a terminal of 24 rows and 80 columns, and the theorems there.
use occamy.Base.{
  ℕ, ◌≤◌, ◌≡◌, refl, arith, false, none, some, [], ◌∷◌, ◌++◌, codes, length, map, replicate, leb,
  if◌then◌else◌, on_branches,
}
use occamy.Base
use occamy.Base.Int.{pos, negsuc, ◌+ℤ◌}
use occamy.Terminal.{encode_utf8, store_bytes}
use occamy.Unicode.{utf8_write}
use occamy.Terminal.Encode.{encode_utf8-eq-utf8_write}
use occamy.Terminal.Char.{Color, Attributes, Char}
use occamy.Terminal.Buffer.{Buffer, buffer_alloc, row_index}
use occamy.Terminal.Screen.{Screen}
use occamy.Terminal.Scroll.{advance_top}
use occamy.Terminal.State.{Terminal, Statics, echo}
use occamy.Terminal.Echo.{column_width}
use occamy.Terminal.Csi.{perform_csi, csi_function}
use occamy.Terminal.Write.{Environment, write}
use occamy.Terminal.Bounds.{IsOnScreen, IsClipped}
use occamy.Terminal.Sequences.{write-IsOnScreen}
use occamy.Terminal.Rows.{IsTurned, IsLeast, advance_top-row_index}
use occamy.Terminal.Moves.{cursor_down, IsNearTo, write-move}
use occamy.Terminal.Parameters.{sequence, in_sequence, after_sequence, write-sequence}

encode_euro : encode_utf8 0x20ac ≡ 0xe2 ∷ 0x82 ∷ 0xac ∷ []
unfolding encode_utf8 store_bytes
encode_euro = refl

encode_utf8-eq-utf8_write_example : encode_utf8 0x20ac ≡ utf8_write 0x20ac 4
encode_utf8-eq-utf8_write_example = encode_utf8-eq-utf8_write 0x20ac 4 (omega arith)

abbrev gray : Color
gray = record { palette_index = pos 7; red = 0x99; green = 0x99; blue = 0x99 }

abbrev black : Color
black = record { palette_index = pos 0; red = 0; green = 0; blue = 0 }

abbrev plain : Attributes
plain = record {
  bold = false;
  half_bright = false;
  reverse = false;
  has_cursor = false;
  underscore = false;
  foreground = gray;
  background = black;
}

abbrev blank : Char
blank = record { value = pos 0; attributes = plain; width = 1 }

abbrev no_statics : Statics
no_statics = record {
  bytes_remaining = pos 0;
  codepoint = 0;
  argc = 0;
  argv = replicate 16 (pos 0);
  private_mode = 0;
  argv_buffer = [];
  operation = 0;
  directory = [];
  filename = [];
  stream_name = [];
  title = [];
  read_color_spec = false;
  palette_index = 0;
  color_spec = [];
  escaping = false;
}

abbrev screen : Screen
screen = record {
  buffer = some (buffer_alloc 1000 blank);
  scroll_offset = pos 0;
  visible_cursor_row = pos 0;
  visible_cursor_col = pos 0;
  display = [];
}

abbrev terminal : Terminal
terminal = record {
  size = record { term_width = 80; term_height = 24 };
  screen = screen;
  scroll_start = pos 0;
  scroll_end = pos 23;
  cursor_row = pos 3;
  cursor_col = pos 79;
  saved_cursor_row = pos 0;
  saved_cursor_col = pos 0;
  current_attributes = plain;
  default_char = blank;
  char_handler = echo;
  tab_interval = 8;
  custom_tabs = replicate 16 (pos 0);
  char_mapping_0 = none;
  char_mapping_1 = none;
  active_char_set = 0;
  application_cursor_keys = false;
  automatic_carriage_return = false;
  insert_mode = false;
  text_selected = false;
  palette = gray ∷ black ∷ [];
  default_palette = gray ∷ black ∷ [];
  pipe_stream = false;
  pipe_buffer = [];
  statics = no_statics;
  calls = [];
}

-- Characters from U+1100 on are two columns wide, in this environment.
abbrev environment : Environment
environment = record {
  wcwidth = λ c. if leb 0x1100 c then pos 2 else pos 1;
  atoi = λ digits. pos (length digits);
  xparsecolor = λ spec. none;
  unset_width = 1;
}

narrow : (c : ℕ) → column_width environment.wcwidth c ≤ 2
narrow c =
    on_branches (λ w. (elim w as (λ _. ℕ) [ pos width ↦ width | negsuc n ↦ 1 ]) ≤ 2) (leb 0x1100 c)
      (pos 2) (pos 1) (λ _. omega arith) (λ _. omega arith)

terminal-IsOnScreen : IsOnScreen terminal
unfolding ◌+ℤ◌
terminal-IsOnScreen = record {
  some_rows = omega arith;
  some_columns = omega arith;
  row_low = omega arith;
  row_high = omega arith;
  col_low = omega arith;
  col_high = omega arith;
}

abbrev euro_and_move : Base.Bytes
euro_and_move = 0xe2 ∷ 0x82 ∷ 0xac ∷ 0x1b ∷ codes "[99;99HX"

write-IsOnScreen_example :
    IsOnScreen (write environment euro_and_move terminal)
    × IsClipped (pos 3) (pos 99) (write environment euro_and_move terminal)
write-IsOnScreen_example =
    write-IsOnScreen environment narrow (pos 3) (pos 99) euro_and_move terminal terminal-IsOnScreen

write-sequence_example :
    write environment (sequence (codes "12") (codes "7" ∷ []) b'H') (in_sequence [] 16 [] terminal)
    ≡ after_sequence
        (perform_csi
          (csi_function b'H')
          (in_sequence (map environment.atoi (codes "12" ∷ codes "7" ∷ [])) 14 [] terminal))
        terminal
write-sequence_example =
    write-sequence environment (codes "12") (codes "7" ∷ []) b'H' terminal
      (
        (((omega arith, omega arith), ((omega arith, omega arith), tt)), omega arith),
        ((((omega arith, omega arith), tt), omega arith), tt),
      )
      (omega arith, omega arith) (omega arith)

write-move_example :
    let moved = write environment (codes "12" ++ (b'B' ∷ [])) (in_sequence [] 16 [] terminal) in
    IsNearTo (terminal.cursor_row +ℤ pos 2) terminal.cursor_col moved × (moved.size ≡ terminal.size)
unfolding ◌+ℤ◌
write-move_example =
    write-move environment cursor_down (codes "12") 2 terminal
      (((omega arith, omega arith), ((omega arith, omega arith), tt)), omega arith) refl
      (omega arith, omega arith) (omega arith, omega arith)

abbrev turned : Buffer
turned = record (buffer_alloc 1000 blank) { top = pos 990 }

turned-IsTurned : IsTurned turned
unfolding ◌+ℤ◌ buffer_alloc
turned-IsTurned = record { top_low = omega arith; top_high = omega arith; size_fits = omega arith }

advance_top-row_index_example :
    IsTurned (advance_top (pos 20) turned)
    × IsLeast (pos 0 +ℤ pos 20) (pos 1000) (advance_top (pos 20) turned).size
    × (row_index (advance_top (pos 20) turned) (negsuc 4) ≡ row_index turned (negsuc 4 +ℤ pos 20))
unfolding buffer_alloc ◌+ℤ◌
advance_top-row_index_example =
    advance_top-row_index turned (pos 20) (negsuc 4) turned-IsTurned (omega arith) (omega arith)
      (omega arith, omega arith) (omega arith, omega arith)
