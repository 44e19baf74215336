-- ===== src/Parser/Tests.antt =====
-- The parser at concrete data, and the theorems at inputs that meet their hypotheses.
use occamy.Base.{
  ℕ, suc, ◌+◌, ◌*◌, ◌-◌, ◌%◌, ◌^◌, ◌≤◌, ◌≡◌, refl, arith, none, some, List, [], ◌∷◌, ◌++◌, map,
  length, drop, replicate, codes, All, take,
}
use occamy.Base
use occamy.Base.Decimal.{decimal}
use occamy.Unicode.{charsize, strlen_from, utf8_strlen}
use occamy.Parser.{
  Parser, length_state, error_state, length_loop, period, append, append_in, content_loop,
  end_element, append_content, after_length, read, done,
}
use occamy.Parser.Element.{length_loop-value}
use occamy.Parser.Invariant.{IsValid, append-IsValid}
use occamy.Parser.Whole.{unused, read-instruction}
use occamy.Parser.Instruction.{Parsed}

-- The buffer of a parser, shortened to its data.
abbrev parser_of : Base.Bytes → Parser
parser_of buf = record {
  opcode = none;
  argc = 0;
  argv = none;
  state = length_state;
  element_length = 0;
  elementc = 0;
  elementv = replicate 128 0;
  unparsed_start = 0;
  unparsed_end = length buf;
  buf = buf;
}

abbrev chars : Base.Bytes → List Base.Bytes
chars = map (λ c. c ∷ [])

abbrev size_text : Base.Bytes
size_text = codes "4.size,1.0,2.10;3.end"

-- One call of `append` parses one element and its comma.
append_first : (append (parser_of size_text) 0 21).1 ≡ 7
unfolding append append_in after_length append_content length_loop content_loop end_element charsize
append_first = refl

-- Where the sum of an `int` wraps around, a prefix of ten digits stands for 1.
append_wraps : (append (parser_of (codes "4294967297.x,")) 0 13).0.state ≡ length_state
unfolding append append_in after_length append_content length_loop content_loop end_element charsize
append_wraps = refl

append_too_long : (append (parser_of (codes "8193.x,")) 0 7).0.state ≡ error_state
unfolding append append_in after_length append_content length_loop content_loop end_element charsize
append_too_long = refl

length_loop-value_example : length_loop (codes "0000000000012.x,") 0 0 ≡ period 12 14
length_loop-value_example =
    length_loop-value (codes "0000000000012") (codes "x,") 0 0 (omega arith) (omega arith)

read-instruction_example :
    (q : Parser) × (read 5 (parser_of size_text) [] ≡ done q [])
    × Parsed q (codes "size" ∷ codes "0" ∷ codes "10" ∷ [])
    × (q.unparsed_start ≡ 0 + length (codes "4.size,1.0,2.10;"))
    × (q.unparsed_end ≡ 21)
unfolding decimal utf8_strlen strlen_from charsize
read-instruction_example =
    read-instruction 5 (parser_of size_text) [] (chars (codes "size"))
      (chars (codes "0") ∷ chars (codes "10") ∷ []) (codes "3.end") (unused refl refl refl) refl
      (omega arith) (omega arith) refl (omega arith) (omega arith)

append-IsValid_example :
    let (q, parsed) = append (parser_of size_text) 0 21 in
    IsValid q × (parsed ≤ 21) × (length q.buf ≡ 21)
append-IsValid_example =
    append-IsValid (parser_of size_text) 0 21
      (record { array = refl; count = omega arith; some_element = λ e. cc })
