-- ===== src/Parser/Whole.antt =====
-- From the start of a read to the whole instruction: `guac_parser_read`
-- (guacamole/src/libguac/parser.c).
use occamy.Base.{
  ℕ, zero, suc, ◌+◌, ◌-◌, ◌≤◌, ◌<◌, ◌≡◌, refl, sym, ap, ◌∙◌, arith, Bool, true, false,
  if◌then◌else◌, none, some, List, [], ◌∷◌, ◌++◌, map, length, set, take, drop, get_or, All,
  append_assoc, length-append, length-set,
}
use mathlib.Core.Path.{subst}
use occamy.Base
use occamy.Unicode.Count.{join}
use occamy.Protocol.Wire.{element, instruction}
use occamy.Parser.Defs.{Parser, length_state, complete_state, reset, is_complete, max_elements}
use occamy.Parser.Read.{Response, done, Cursor, read}
use occamy.Parser.Strings.{HoldAll}
use occamy.Parser.Instruction.{AtElement, Parsed, rest_of}
use occamy.Parser.Rounds.{IsText, rounds_lem}

-- The start of a read: the parser's last instruction is complete, or it has none yet.
pub data IsIdle (p : Parser) : Type 0 where
  complete : p.state ≡ complete_state → IsIdle p
  unused : p.state ≡ length_state → p.element_length ≡ 0 → p.elementc ≡ 0 → IsIdle p

begin : Parser → Parser
begin p = if is_complete p.state then reset p else p

record Begun (p q : Parser) : Type 0 where
  in_length : q.state ≡ length_state
  fresh : q.element_length ≡ 0
  none_yet : q.elementc ≡ 0
  same_buf : q.buf ≡ p.buf
  same_array : q.elementv ≡ p.elementv

begin-Begun : (p : Parser) → IsIdle p → Begun p (begin p)
unfolding begin reset
begin-Begun p (complete s) =
    rw (s, is_complete)
      (record {
        in_length = refl;
        fresh = refl;
        none_yet = refl;
        same_buf = refl;
        same_array = refl;
      })
begin-Begun p (unused s f z) =
    let going : is_complete p.state ≡ false = rw s in
    rw (going, begin)
      (record { in_length = s; fresh = f; none_yet = z; same_buf = refl; same_array = refl })

-- Where the whole of an instruction stands unread in the buffer, of at most 128 elements, each of
-- whole characters and no more than 8192 of them, the read returns 0, as many rounds of the loop as
-- there are elements and one more being enough. It asks the socket for nothing. The opcode and the
-- arguments are those of the instruction, as C strings, and the bytes behind it stay unread.
pub read-instruction :
    (fuel : ℕ) (p : Parser) (inputs : List Response) (text : List Base.Bytes)
    (texts : List (List Base.Bytes)) (more : Base.Bytes)
    → IsIdle p
    → length p.elementv ≡ max_elements
    → All IsText (text ∷ texts)
    → length (text ∷ texts) ≤ max_elements
    → drop p.unparsed_start p.buf ≡ instruction (map join (text ∷ texts)) ++ more
    → p.unparsed_start + length (instruction (map join (text ∷ texts))) ≤ p.unparsed_end
    → length texts + 1 < fuel
    → (q : Parser) × (read fuel p inputs ≡ done q inputs)
      × Parsed q (map join (text ∷ texts))
      × (q.unparsed_start ≡ p.unparsed_start + length (instruction (map join (text ∷ texts))))
      × (q.unparsed_end ≡ p.unparsed_end)
unfolding read begin
read-instruction fuel p inputs text texts more idle array are_texts room here enough h =
    let b = begin-Begun p idle in
    let c : Cursor = record {
      parser = begin p;
      start = p.unparsed_start;
      stop = p.unparsed_end;
      instr = p.unparsed_start;
    } in
    let at : AtElement c [] text texts more = record {
      in_length = b.in_length;
      fresh = b.fresh;
      entries = b.none_yet;
      array = ap length b.same_array ∙ array;
      room = omega (arith, room);
      here =
          ap (drop p.unparsed_start) b.same_buf
          ∙ here
          ∙ append_assoc (element (join text)) (rest_of texts) more;
      enough = omega (arith, length-append (element (join text)) (rest_of texts));
      before =
          subst (λ n. HoldAll (begin p).buf p.unparsed_start (take n (begin p).elementv) [])
            (sym b.none_yet) tt;
    } in
    let r = rounds_lem texts fuel c inputs [] text more are_texts.0 are_texts.1 at h in
    (
      r.parser,
      r.outcome,
      r.parsed,
      omega (arith, r.start, length-append (element (join text)) (rest_of texts)),
      r.stop,
    )
