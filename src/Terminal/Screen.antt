-- ===== src/Terminal/Screen.antt =====
-- guacamole/src/protocols/ssh/terminal.c: the operations on what the terminal shows. A call of the
-- display is recorded, and the buffer is `none` once the code has reached outside its arrays.
use occamy.Base.{
  ℕ, zero, suc, ◌+◌, ◌-◌, ◌==◌, ltb, ◌&&◌, ◌||◌, not, if◌then◌else◌, Bool, true, Option, none, some,
  List, ◌∷◌, length, get_elem?,
}
use occamy.Base.Int.{ℤ, pos, negsuc, ◌+ℤ◌, leb_ℤ, equal_ℤ}
use occamy.Terminal.Char.{Attributes, Char, is_continuation}
use occamy.Terminal.Buffer.{
  Buffer, Row, get_row, buffer_copy_columns, buffer_copy_rows, buffer_set_columns,
}

-- The calls of `guac_terminal_display_set_columns`, `…_copy_columns` and `…_copy_rows`.
pub data DisplayCall : Type 0 where
  display_set_columns : (row start_column end_column : ℤ) → Char → DisplayCall
  display_copy_columns : (row start_column end_column offset : ℤ) → DisplayCall
  display_copy_rows : (start_row end_row offset : ℤ) → DisplayCall

-- The dimensions of a terminal in characters.
pub record Dimensions : Type 0 where
  pub term_width : ℕ
  pub term_height : ℕ

-- The part of `guac_terminal` that says what is shown: the buffer, and where the cursor is drawn;
-- `display` holds the calls of the display, the last one first.
pub record Screen : Type 0 where
  pub buffer : Option Buffer
  pub scroll_offset : ℤ
  pub visible_cursor_row : ℤ
  pub visible_cursor_col : ℤ
  pub display : List DisplayCall

abbrev pub call_display : DisplayCall → Screen → Screen
call_display call screen = record screen { display = call ∷ screen.display }

-- `__guac_terminal_set_columns`
unfoldable pub put_columns : ℤ → ℤ → ℤ → Char → Screen → Screen
put_columns row start_column end_column character screen =
    let called =
      call_display
        (display_set_columns (row +ℤ screen.scroll_offset) start_column end_column character)
        screen in
    record called {
      buffer = elim screen.buffer [
        | none ↦ none
        | some buffer ↦ buffer_set_columns buffer row start_column end_column character
      ];
    }

-- The search for the start of a character, from a column to the left.
unfoldable pub find_start : List Char → ℕ → ℕ
find_start characters zero = zero
find_start characters (suc column) =
    let rest = find_start characters column in
    elim (get_elem? characters (suc column)) [
      | none ↦ suc column
      | some c ↦ if is_continuation c then rest else suc column
    ]

-- The search for the end of a character, from a column to the right, over so many columns.
unfoldable pub find_end : ℕ → List Char → ℕ → ℕ
find_end zero characters column = column
find_end (suc n) characters column =
    let rest = find_end n characters (column + 1) in
    elim (get_elem? characters (column + 1)) [
      | none ↦ column
      | some c ↦ if is_continuation c then rest else column
    ]

-- What is to be cleared of a broken character between two columns: the first column and the
-- attributes. The outer `none` is a read behind the row.
unfoldable pub find_broken : List Char → ℕ → ℕ → Option (Option (ℕ × Attributes))
find_broken characters start_column end_column = elim (get_elem? characters start_column) [
  | none ↦ none
  | some c ↦
      let span = end_column + 1 - start_column in
      let at =
        if not (is_continuation c) && ltb c.width span
        then start_column + c.width
        else start_column in
      elim (get_elem? characters at) [
        | none ↦ none
        | some start_char ↦ some (
            if is_continuation start_char || not (start_char.width == end_column + 1 - at)
            then some (at, start_char.attributes)
            else none)
      ]
]

abbrev fault : Screen → Screen
fault screen = record screen { buffer = none }

-- The clearing of a broken character.
unfoldable pub clear_broken : ℤ → ℕ → Option (Option (ℕ × Attributes)) → Screen → Screen
clear_broken row end_column none screen = fault screen
clear_broken row end_column (some none) screen = screen
clear_broken row end_column (some (some (start_column, attributes))) screen =
    put_columns row (pos start_column) (pos end_column)
      (record { value = pos b' '; attributes = attributes; width = 1 }) screen

-- The row that `__guac_terminal_force_break` looks at, which stays as it is.
abbrev row_of : Screen → ℤ → Option Row
row_of screen row = elim screen.buffer [
  | none ↦ none
  | some buffer ↦ elim (get_row buffer row (pos 0)) [
    | none ↦ none
    | some (i, buffer_row) ↦ some buffer_row
  ]
]

-- The character to the left of the edge is ended.
unfoldable pub break_left : ℤ → ℤ → Screen → Screen
break_left row (pos (suc end_column)) screen = elim (row_of screen row) [
  | none ↦ fault screen
  | some buffer_row ↦
      let characters = buffer_row.characters in
      clear_broken row end_column
        (find_broken characters (find_start characters end_column) end_column) screen
]
break_left row _ screen = screen

-- The character to the right of the edge is begun.
unfoldable pub break_right : ℤ → ℤ → Screen → Screen
break_right row (pos edge) screen = elim (row_of screen row) [
  | none ↦ fault screen
  | some buffer_row ↦
      let characters = buffer_row.characters in
      let end_column = find_end (length characters) characters edge in
      if ltb edge (length characters)
      then clear_broken row end_column (find_broken characters edge end_column) screen
      else screen
]
break_right row (negsuc n) screen = screen

-- `__guac_terminal_force_break`
unfoldable pub force_break : ℤ → ℤ → Screen → Screen
force_break row edge screen = break_right row edge (break_left row edge screen)

abbrev is_between : ℤ → ℤ → ℤ → Bool
is_between least most n = leb_ℤ least n && leb_ℤ n most

-- `guac_terminal_set_columns`
unfoldable pub set_columns : ℤ → ℤ → ℤ → Char → Screen → Screen
set_columns row start_column end_column character screen =
    let put = put_columns row start_column end_column character screen in
    let at = put.visible_cursor_col in
    let with_cursor = record character {
      attributes = record character.attributes { has_cursor = true };
    } in
    let kept =
      if equal_ℤ row put.visible_cursor_row && is_between start_column end_column at
      then put_columns row at at with_cursor put
      else put in
    force_break row (end_column +ℤ pos 1) (force_break row start_column kept)

-- `guac_terminal_copy_columns`
unfoldable pub copy_columns : ℤ → ℤ → ℤ → ℤ → Screen → Screen
copy_columns row start_column end_column offset screen =
    let called =
      call_display
        (display_copy_columns (row +ℤ screen.scroll_offset) start_column end_column offset)
        screen in
    let copied = record called {
      buffer = elim screen.buffer [
        | none ↦ none
        | some buffer ↦ buffer_copy_columns buffer row start_column end_column offset
      ];
    } in
    let at = screen.visible_cursor_col in
    let moved =
      if equal_ℤ row screen.visible_cursor_row && is_between start_column end_column at
      then record copied { visible_cursor_col = at +ℤ offset }
      else copied in
    force_break row (end_column +ℤ offset +ℤ pos 1) (force_break row (start_column +ℤ offset) moved)

abbrev pub move_visible_row : ℤ → ℤ → ℤ → Screen → Screen
move_visible_row start_row end_row offset screen =
    if is_between start_row end_row screen.visible_cursor_row
    then record screen { visible_cursor_row = screen.visible_cursor_row +ℤ offset }
    else screen

-- `guac_terminal_copy_rows`
unfoldable pub copy_rows : ℤ → ℤ → ℤ → Screen → Screen
copy_rows start_row end_row offset screen =
    let called =
      call_display
        (display_copy_rows (start_row +ℤ screen.scroll_offset) (end_row +ℤ screen.scroll_offset)
          offset)
        screen in
    move_visible_row start_row end_row offset (record called {
      buffer = elim screen.buffer [
        | none ↦ none
        | some buffer ↦ buffer_copy_rows buffer start_row end_row offset
      ];
    })

-- `guac_terminal_clear_columns`, with the current attributes.
unfoldable pub clear_columns : Attributes → ℤ → ℤ → ℤ → Screen → Screen
clear_columns attributes row start_col end_col screen =
    set_columns row start_col end_col (record { value = pos 0; attributes = attributes; width = 1 })
      screen
