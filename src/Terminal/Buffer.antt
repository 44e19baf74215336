-- ===== src/Terminal/Buffer.antt =====
-- guacamole/src/protocols/ssh/terminal_buffer.c: the rows of the terminal and of its scrollback. A row
-- is the list of its characters up to its length. Where the code reads or writes outside its arrays,
-- the result is `none`.
use occamy.Base.{
  ℕ, zero, suc, ◌+◌, ◌-◌, ◌*◌, ◌/◌, ltb, leb, ◌&&◌, not, if◌then◌else◌, Option, none, some, List,
  [], ◌∷◌, ◌++◌, length, get_elem?, set, take, drop, replicate,
}
use occamy.Base.Int.{ℤ, pos, negsuc, ◌+ℤ◌, ◌-ℤ◌, ltb_ℤ, leb_ℤ, equal_ℤ}
use occamy.Terminal.Char.{Char, continuation, fit_to_range}

-- `guac_terminal_buffer_row`, where `available` is how many characters there is memory for.
pub record Row : Type 0 where
  pub available : ℕ
  pub characters : List Char

-- `guac_terminal_buffer`, where `size` is its field `length`, and `available` is the number of rows.
pub record Buffer : Type 0 where
  pub default_character : Char
  pub rows : List Row
  pub top : ℤ
  pub size : ℤ
  pub available : ℕ

-- `guac_terminal_buffer_alloc`
unfoldable pub buffer_alloc : ℕ → Char → Buffer
buffer_alloc rows default_character = record {
  default_character = default_character;
  rows = replicate rows (record { available = 256; characters = [] });
  top = pos 0;
  size = pos 0;
  available = rows;
}

-- The index of a row in the array.
unfoldable pub row_index : Buffer → ℤ → ℤ
row_index buffer row =
    let index = buffer.top +ℤ row in
    if ltb_ℤ index (pos 0)
    then index +ℤ pos buffer.available
    else if leb_ℤ (pos buffer.available) index
    then index -ℤ pos buffer.available
    else index

-- The expansion of a row to a width.
unfoldable pub expand : Char → ℤ → Row → Row
expand default_character (negsuc n) row = row
expand default_character (pos width) row =
    if leb (length row.characters) width
    then record {
      available = if ltb row.available width then width * 2 else row.available;
      characters = row.characters ++ replicate (width - length row.characters) default_character;
    }
    else row

-- The row at an index of the array, with the index, once it is expanded.
unfoldable pub row_at : Buffer → ℤ → ℤ → Option (ℕ × Row)
row_at buffer (negsuc n) width = none
row_at buffer (pos i) width = elim (get_elem? buffer.rows i) [
  | none ↦ none
  | some row ↦ some (i, expand buffer.default_character width row)
]

-- `guac_terminal_buffer_get_row`: the index of the row, and the row, which is stored back by its user.
unfoldable pub get_row : Buffer → ℤ → ℤ → Option (ℕ × Row)
get_row buffer row width = row_at buffer (row_index buffer row) width

abbrev pub set_row : Buffer → ℕ → Row → Buffer
set_row buffer i row = record buffer { rows = set buffer.rows i row }

abbrev pub set_characters : Buffer → ℕ → Row → List Char → Buffer
set_characters buffer i row characters = set_row buffer i (record row { characters = characters })

-- The `memmove` of so many characters within a row.
unfoldable pub move_characters : ℤ → ℤ → ℤ → List Char → Option (List Char)
move_characters (pos src) (pos dst) (pos n) characters =
    if leb (src + n) (length characters) && leb (dst + n) (length characters)
    then some (take dst characters ++ (take n (drop src characters) ++ drop (dst + n) characters))
    else none
move_characters _ _ _ characters = none

-- `guac_terminal_buffer_copy_columns`
unfoldable pub buffer_copy_columns : Buffer → ℤ → ℤ → ℤ → ℤ → Option Buffer
buffer_copy_columns buffer row start_column end_column offset =
    elim (get_row buffer row (end_column +ℤ offset +ℤ pos 1)) [
      | none ↦ none
      | some (i, buffer_row) ↦
          let last = pos (length buffer_row.characters) -ℤ pos 1 in
          let fit : ℤ → ℤ = λ column. fit_to_range column (pos 0) last in
          let start = fit (fit start_column +ℤ offset) -ℤ offset in
          let stop = fit (fit end_column +ℤ offset) -ℤ offset in
          elim (move_characters start (start +ℤ offset) (stop -ℤ start +ℤ pos 1)
            buffer_row.characters) [
              | none ↦ none
              | some characters ↦ some (set_characters buffer i buffer_row characters)
            ]
    ]

-- The copy of one row of `guac_terminal_buffer_copy_rows`.
unfoldable pub copy_row : Buffer → ℤ → ℤ → Option Buffer
copy_row buffer current_row offset = elim (get_row buffer current_row (pos 0)) [
  | none ↦ none
  | some (i, src_row) ↦
      let expanded = set_row buffer i src_row in
      elim (get_row expanded (current_row +ℤ offset) (pos (length src_row.characters))) [
        | none ↦ none
        | some (j, dst_row) ↦ some (set_characters expanded j dst_row src_row.characters)
      ]
]

-- The loop over so many rows.
unfoldable pub copy_rows_loop : ℕ → ℤ → ℤ → ℤ → Buffer → Option Buffer
copy_rows_loop zero current_row step offset buffer = some buffer
copy_rows_loop (suc n) current_row step offset buffer = elim (copy_row buffer current_row offset) [
  | none ↦ none
  | some buffer' ↦ copy_rows_loop n (current_row +ℤ step) step offset buffer'
]

-- The number of rounds of a loop from one number to another, both included.

abbrev pub count_between : ℤ → ℤ → ℕ
count_between start stop = elim (stop -ℤ start +ℤ pos 1) [ pos n ↦ n | negsuc _ ↦ 0 ]

-- `guac_terminal_buffer_copy_rows`
unfoldable pub buffer_copy_rows : Buffer → ℤ → ℤ → ℤ → Option Buffer
buffer_copy_rows buffer start_row end_row offset =
    let n = count_between start_row end_row in
    if ltb_ℤ (pos 0) offset
    then copy_rows_loop n end_row (negsuc 0) offset buffer
    else copy_rows_loop n start_row (pos 1) offset buffer

-- A character with the continuation characters behind it, so many times.
unfoldable pub repeat_character : ℕ → Char → List Char
repeat_character zero c = []
repeat_character (suc n) c =
    c
    ∷ (replicate (c.width - 1) (record c { value = continuation; width = 0 })
        ++ repeat_character n c)

-- The stores of `guac_terminal_buffer_set_columns` from a column on, in a row of so many characters.
unfoldable pub store_characters : ℤ → List Char → Row → Option (List Char)
store_characters start [] row = some row.characters
store_characters (negsuc n) (c ∷ stored) row = none
store_characters (pos start) (c ∷ stored) row =
    if leb (start + length (c ∷ stored)) row.available
    then some (
        take (length row.characters) (
          take start row.characters
          ++ ((c ∷ stored) ++ drop (start + length (c ∷ stored)) row.characters)))
    else none

-- `guac_terminal_buffer_set_columns`
unfoldable pub buffer_set_columns : Buffer → ℤ → ℤ → ℤ → Char → Option Buffer
buffer_set_columns buffer row start_column end_column character = elim (character.width) [
  | zero ↦ some buffer
  | suc w ↦ elim (get_row buffer row (end_column +ℤ pos 1)) [
    | none ↦ none
    | some (i, buffer_row) ↦
        let n = (count_between start_column end_column + w) / suc w in
        elim (store_characters start_column (repeat_character n character) buffer_row) [
          | none ↦ none
          | some characters ↦
              let stored = set_characters buffer i buffer_row characters in
              some (
                if not (equal_ℤ character.value (pos 0)) && leb_ℤ buffer.size row
                then record stored { size = row +ℤ pos 1 }
                else stored)
        ]
  ]
]
