-- ===== src/Parser/Defs.antt =====
-- The parser's state, and `guac_parser_append`.
use occamy.Base.{
  ℕ, zero, suc, ◌+◌, ◌-◌, ◌*◌, ◌%◌, ◌^◌, ◌==◌, leb, ltb, ◌&&◌, not, Bool, true, false,
  if◌then◌else◌, Option, none, some, List, [], ◌∷◌, length, set, take, drop, replicate, get_or,
}
use occamy.Base
use occamy.Unicode.{charsize}

abbrev pub max_length : ℕ
max_length = 8192

abbrev pub max_elements : ℕ
max_elements = 128

abbrev pub buffer_size : ℕ
buffer_size = 32768

-- `guac_parse_state`
pub data ParseState : Type 0 where
  length_state content_state complete_state error_state : ParseState

-- `struct guac_parser`. `opcode` and the pointers in `elementv` point into the buffer; `argv` points
-- to an entry of `elementv`.
pub record Parser : Type 0 where
  pub opcode : Option ℕ
  pub argc : ℕ
  pub argv : Option ℕ
  pub state : ParseState
  pub element_length : ℕ
  pub elementc : ℕ
  pub elementv : List ℕ
  pub unparsed_start : ℕ
  pub unparsed_end : ℕ
  pub buf : Base.Bytes

-- `guac_parser_reset`
unfoldable pub reset : Parser → Parser
reset p = record p {
  opcode = none;
  argc = 0;
  state = length_state;
  elementc = 0;
  element_length = 0;
}

-- `guac_parser_alloc`, where there is memory for the parser; the arrays are as `malloc` left them.
unfoldable pub alloc : Base.Bytes → List ℕ → Parser
alloc buf elementv = reset (record {
  opcode = none;
  argc = 0;
  argv = none;
  state = length_state;
  element_length = 0;
  elementc = 0;
  elementv = elementv;
  unparsed_start = 0;
  unparsed_end = 0;
  buf = buf;
})

-- How the loop over a length prefix ends: the data is used up, a period was read, or a character
-- was that is neither a digit nor a period. The numbers are the length and the bytes parsed.
pub data LengthEnd : Type 0 where
  exhausted : ℕ → ℕ → LengthEnd
  period : ℕ → ℕ → LengthEnd
  bad : LengthEnd

abbrev pub is_digit : ℕ → Bool
is_digit c = leb b'0' c && leb c b'9'

unfoldable pub length_loop : Base.Bytes → ℕ → ℕ → LengthEnd
length_loop [] parsed_length bytes_parsed = exhausted parsed_length bytes_parsed
length_loop (c ∷ window) parsed_length bytes_parsed =
    let rest = length_loop window ((parsed_length * 10 + c - b'0') % 2 ^ 32) (bytes_parsed + 1) in
    if is_digit c then rest else if c == b'.' then period parsed_length (bytes_parsed + 1) else bad

-- `x >= 0`, and `x > GUAC_INSTRUCTION_MAX_LENGTH`, of the pattern of an `int`.
abbrev pub is_nonnegative : ℕ → Bool
is_nonnegative x = ltb x (2 ^ 31)

abbrev pub is_too_long : ℕ → Bool
is_too_long x = is_nonnegative x && ltb max_length x

-- How the loop over an element's content ends: it waits for more data or for nothing, or it is at
-- the character behind the element, which `c` is. The numbers are the length that is left, and the
-- bytes parsed up to that character.
pub data ContentEnd : Type 0 where
  stopped : ℕ → ℕ → ContentEnd
  terminator : (c : ℕ) → ℕ → ContentEnd

-- A round of the loop parses one byte at least, so as much fuel as bytes is enough.
unfoldable pub content_loop : ℕ → Base.Bytes → ℕ → ℕ → ContentEnd
content_loop fuel [] element_length bytes_parsed = stopped element_length bytes_parsed
content_loop zero (c ∷ window) element_length bytes_parsed = stopped element_length bytes_parsed
content_loop (suc fuel) (c ∷ window) element_length bytes_parsed =
    let size = charsize c in
    let rest =
      content_loop fuel (drop size (c ∷ window)) (element_length - 1) (bytes_parsed + size) in
    if not (is_nonnegative element_length)
    then stopped element_length bytes_parsed
    else if ltb (length (c ∷ window)) size
    then stopped element_length bytes_parsed
    else if element_length == 0
    then terminator c bytes_parsed
    else rest

-- The handling of the terminator at index `at` of the buffer, behind `bytes_parsed` bytes.
unfoldable pub end_element : Parser → ℕ → ℕ → ℕ → Parser × ℕ
end_element p at c bytes_parsed =
    let cut = record p { element_length = 0; buf = set p.buf at 0 } in
    if c == b';'
    then (
      record cut {
        state = complete_state;
        opcode = some (get_or p.elementv 0 0);
        argv = some 1;
        argc = p.elementc - 1;
      },
      bytes_parsed + charsize c,
    )
    else if c == b','
    then (record cut { state = length_state }, bytes_parsed + charsize c)
    else (record cut { state = error_state }, 0)

-- The content part of `guac_parser_append`, at the unread rest `window` of the data at `start`.
unfoldable pub append_content : Parser → ℕ → Base.Bytes → ℕ → Parser × ℕ
append_content p start window bytes_parsed =
    elim (content_loop (length window) window p.element_length bytes_parsed) [
      | stopped left parsed ↦ (record p { element_length = left }, parsed)
      | terminator c parsed ↦ end_element p (start + parsed) c parsed
    ]

-- What follows the loop over the length prefix.
unfoldable pub after_length : Parser → ℕ → Base.Bytes → LengthEnd → Parser × ℕ
after_length p start window (exhausted parsed_length parsed) =
    if is_too_long parsed_length
    then (record p { state = error_state }, 0)
    else (record p { element_length = parsed_length }, parsed)
after_length p start window (period parsed_length parsed) =
    let opened = record p {
      elementv = set p.elementv p.elementc (start + parsed);
      elementc = p.elementc + 1;
      state = content_state;
    } in
    if is_too_long parsed_length
    then (record opened { state = error_state }, 0)
    else append_content (record opened { element_length = parsed_length }) start
        (drop parsed window) parsed
after_length p start window bad = (record p { state = error_state }, 0)

-- By the state, once the number of elements is in bounds.
unfoldable pub append_in : ParseState → Parser → ℕ → Base.Bytes → Parser × ℕ
append_in length_state p start window =
    after_length p start window (length_loop window p.element_length 0)
append_in content_state p start window = append_content p start window 0
append_in complete_state p start window = (p, 0)
append_in error_state p start window = (p, 0)

abbrev pub is_complete : ParseState → Bool
is_complete complete_state = true
is_complete _ = false

-- `guac_parser_append` of the `count` bytes of the parser's own buffer that stand at `start`, with
-- the parser that it leaves and the number of bytes that it parsed.
unfoldable pub append : Parser → ℕ → ℕ → Parser × ℕ
append p start count =
    if p.elementc == max_elements && not (is_complete p.state)
    then (record p { state = error_state }, 0)
    else append_in p.state p start (take count (drop start p.buf))
