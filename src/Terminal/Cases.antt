-- ===== src/Terminal/Cases.antt =====
-- guacamole/src/protocols/ssh/terminal_handlers.c: the cases of control sequences, on their
-- arguments.
use occamy.Base.{ℕ, ◌==◌, ◌&&◌, ◌||◌, if◌then◌else◌, Bool, ◌∷◌, ◌++◌, get_or, take, codes}
use occamy.Base.Int.{ℤ, pos, ◌+ℤ◌, ◌-ℤ◌, ltb_ℤ, equal_ℤ}
use occamy.Base.Decimal.{decimal_int}
use occamy.Terminal.Screen.{copy_columns, clear_columns}
use occamy.Terminal.Scroll.{clear_range, scroll_up, scroll_down}
use occamy.Terminal.Graphics.{set_rendition}
use occamy.Terminal.Escape.{vt102_id}
use occamy.Terminal.State.{Terminal, on_screen, send_string}
use occamy.Terminal.Tabs.{unset_tab, clear_tabs}

abbrev pub arg : ℕ → Terminal → ℤ
arg i term = get_or term.statics.argv i (pos 0)

-- An amount, where 0 stands for 1.
abbrev pub amount : Terminal → ℤ
amount term = if equal_ℤ (arg 0 term) (pos 0) then pos 1 else arg 0 term

-- A row or column counted from 1, where 0 stands for 1.
abbrev pub from_one : ℤ → ℤ
from_one n = if equal_ℤ n (pos 0) then n else n -ℤ pos 1

abbrev pub last_row : Terminal → ℤ
last_row term = pos term.size.term_height -ℤ pos 1

abbrev pub last_column : Terminal → ℤ
last_column term = pos term.size.term_width -ℤ pos 1

abbrev pub clear_row_part : ℤ → ℤ → Terminal → Terminal
clear_row_part start_col end_col term =
    on_screen (clear_columns term.current_attributes term.cursor_row start_col end_col) term

abbrev pub clear_part : ℤ → ℤ → ℤ → ℤ → Terminal → Terminal
clear_part start_row start_col end_row end_col term =
    on_screen (clear_range term.size term.current_attributes start_row start_col end_row end_col)
      term

-- The shift of the characters behind an inserted or deleted part.
abbrev pub shift_part : ℤ → ℤ → ℤ → Terminal → Terminal
shift_part start_col end_col offset term =
    if ltb_ℤ (term.cursor_col +ℤ amount term) (pos term.size.term_width)
    then on_screen (copy_columns term.cursor_row start_col end_col offset) term
    else term

-- The flag of `__guac_terminal_get_flag`, set to a value, where there is one.
unfoldable pub set_flag : ℤ → ℕ → Bool → Terminal → Terminal
set_flag num private_mode value term =
    if private_mode == b'?'
    then (if equal_ℤ num (pos 1) then record term { application_cursor_keys = value } else term)
    else if private_mode == 0
    then (if equal_ℤ num (pos 4)
        then record term { insert_mode = value }
        else if equal_ℤ num (pos 20)
        then record term { automatic_carriage_return = value }
        else term)
    else term

-- The case '@'.
abbrev pub insert_blanks : Terminal → Terminal
insert_blanks term =
    let n = amount term in
    clear_row_part term.cursor_col (term.cursor_col +ℤ n -ℤ pos 1)
      (shift_part term.cursor_col (pos term.size.term_width -ℤ n -ℤ pos 1) n term)

-- The case 'J'.
abbrev pub clear_display_part : Terminal → Terminal
clear_display_part term =
    if equal_ℤ (arg 0 term) (pos 0)
    then clear_part term.cursor_row term.cursor_col (last_row term) (last_column term) term
    else if equal_ℤ (arg 0 term) (pos 1)
    then clear_part (pos 0) (pos 0) term.cursor_row term.cursor_col term
    else if equal_ℤ (arg 0 term) (pos 2) || equal_ℤ (arg 0 term) (pos 3)
    then clear_part (pos 0) (pos 0) (last_row term) (last_column term) term
    else term

-- The case 'K'.
abbrev pub clear_line_part : Terminal → Terminal
clear_line_part term =
    if equal_ℤ (arg 0 term) (pos 0)
    then clear_row_part term.cursor_col (last_column term) term
    else if equal_ℤ (arg 0 term) (pos 1)
    then clear_row_part (pos 0) term.cursor_col term
    else if equal_ℤ (arg 0 term) (pos 2)
    then clear_row_part (pos 0) (last_column term) term
    else term

-- The case 'L'.
abbrev pub insert_rows : Terminal → Terminal
insert_rows term =
    on_screen
      (scroll_down term.size term.current_attributes term.cursor_row term.scroll_end (amount term))
      term

-- The case 'M'.
abbrev pub delete_rows : Terminal → Terminal
delete_rows term =
    on_screen
      (scroll_up term.size term.current_attributes term.cursor_row term.scroll_end (amount term))
      term

-- The case 'P'.
abbrev pub remove_characters : Terminal → Terminal
remove_characters term =
    let n = amount term in
    clear_row_part (pos term.size.term_width -ℤ n) (last_column term)
      (shift_part (term.cursor_col +ℤ n) (last_column term) (pos 0 -ℤ n) term)

-- The case 'X'.
abbrev pub clear_characters : Terminal → Terminal
clear_characters term =
    clear_row_part term.cursor_col (term.cursor_col +ℤ amount term -ℤ pos 1) term

-- The case 'c'.
abbrev pub send_identity : Terminal → Terminal
send_identity term =
    if equal_ℤ (arg 0 term) (pos 0) && term.statics.private_mode == 0
    then send_string vt102_id term
    else term

-- The case 'g'.
abbrev pub clear_tab_stops : Terminal → Terminal
clear_tab_stops term =
    if equal_ℤ (arg 0 term) (pos 0)
    then unset_tab term.cursor_col term
    else if equal_ℤ (arg 0 term) (pos 3)
    then clear_tabs term
    else term

-- The case 'm'.
abbrev pub set_attributes : Terminal → Terminal
set_attributes term = record term {
  current_attributes =
      set_rendition term.default_char.attributes term.palette 0
        (take term.statics.argc term.statics.argv) term.current_attributes;
}

-- The case 'n'.
abbrev pub send_status : Terminal → Terminal
send_status term =
    if equal_ℤ (arg 0 term) (pos 5) && term.statics.private_mode == 0
    then send_string (0x1b ∷ codes "[0n") term
    else if equal_ℤ (arg 0 term) (pos 6) && term.statics.private_mode == 0
    then send_string
        ((0x1b ∷ codes "[")
          ++ (decimal_int (term.cursor_row +ℤ pos 1)
              ++ (codes ";" ++ (decimal_int (term.cursor_col +ℤ pos 1) ++ codes "R"))))
        term
    else term

-- The case 'r'.
abbrev pub set_region : Terminal → Terminal
set_region term =
    if term.statics.argc == 2
    then record term { scroll_start = arg 0 term -ℤ pos 1; scroll_end = arg 1 term -ℤ pos 1 }
    else record term { scroll_start = pos 0; scroll_end = last_row term }
