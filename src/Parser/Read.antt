-- ===== src/Parser/Read.antt =====
-- `guac_parser_read`, over what the socket answers: the responses to its calls of
-- `guac_socket_select` and `guac_socket_read`, in order.
use occamy.Base.{
  ℕ, zero, suc, ◌+◌, ◌-◌, ◌==◌, ltb, ◌&&◌, ◌||◌, not, Bool, true, false, if◌then◌else◌, List, [],
  ◌∷◌, ◌++◌, length, take, drop,
}
use occamy.Base
use occamy.Parser.Defs.{ParseState, error_state, Parser, reset, append, is_complete, buffer_size}

-- What one round of select and read finds: nothing to read in time or an error of select, an error
-- of read, or bytes, of which read takes as many as there is room for; none are the end of stream.
pub data Response : Type 0 where
  select_fails : Response
  read_fails : Response
  bytes : Base.Bytes → Response

-- The errors that `guac_parser_read` reports by -1 and `guac_error`.
pub data ReadError : Type 0 where
  no_memory select_error see_errno closed protocol_error : ReadError

-- Besides the return values 0 and -1: the responses have run out while it waits for more, or the
-- fuel has.
pub data Outcome : Type 0 where
  done : Parser → List Response → Outcome
  failed : ReadError → Outcome
  waiting : Outcome
  out_of_fuel : Outcome

-- The local variables of the loop beside the parser.
pub record Cursor : Type 0 where
  pub parser : Parser
  pub start : ℕ
  pub stop : ℕ
  pub instr : ℕ

-- `elementv[i] -= offset` for the first `elementc` entries.
unfoldable pub move_elements : ℕ → ℕ → List ℕ → List ℕ
move_elements zero offset elementv = elementv
move_elements (suc n) offset [] = []
move_elements (suc n) offset (at ∷ elementv) = (at - offset) ∷ move_elements n offset elementv

-- The shift of the data from `instr` on to the front of the buffer.
unfoldable pub shift : Cursor → Cursor
unfolding move_elements
shift c =
    let p = c.parser in
    let kept = c.stop - c.instr in
    record {
      parser = record p {
        buf = take kept (drop c.instr p.buf) ++ drop kept p.buf;
        elementv = move_elements p.elementc c.instr p.elementv;
      };
      start = c.start - c.instr;
      stop = c.stop - c.instr;
      instr = 0;
    }

-- A read of `data_read` into the buffer at `stop`.
unfoldable pub store : Cursor → Base.Bytes → Cursor
store c data_read =
    let p = c.parser in
    record c {
      parser = record p {
        buf = take c.stop p.buf ++ (data_read ++ drop (c.stop + length data_read) p.buf);
      };
      stop = c.stop + length data_read;
    }

pub data Refill : Type 0 where
  filled : Cursor → List Response → Refill
  refused : ReadError → Refill
  blocked : Refill

-- One round of select and read, once there is room. What does not fit stays for the next read.
unfoldable pub receive : Cursor → List Response → Refill
unfolding store
receive c [] = blocked
receive c (select_fails ∷ inputs) = refused select_error
receive c (read_fails ∷ inputs) = refused see_errno
receive c (bytes [] ∷ inputs) = refused closed
receive c (bytes (x ∷ block) ∷ inputs) =
    let room = buffer_size - c.stop in
    if ltb room (length (x ∷ block))
    then filled (store c (take room (x ∷ block))) (bytes (drop room (x ∷ block)) ∷ inputs)
    else filled (store c (x ∷ block)) inputs

-- The branch that reads more data.
unfoldable pub refill : Cursor → List Response → Refill
unfolding shift receive
refill c inputs =
    if c.stop == buffer_size
    then (if c.instr == 0 then refused no_memory else receive (shift c) inputs)
    else receive c inputs

abbrev pub is_error : ParseState → Bool
is_error error_state = true
is_error _ = false

-- What follows the loop.
unfoldable pub finish : Cursor → List Response → Outcome
finish c inputs =
    let p = c.parser in
    if is_error p.state
    then failed protocol_error
    else done (record p { unparsed_start = c.start; unparsed_end = c.stop }) inputs

-- The loop. Each round parses a byte or reads one, or is the last.
unfoldable pub read_loop : ℕ → Cursor → List Response → Outcome
unfolding refill finish
read_loop zero c inputs = out_of_fuel
read_loop (suc fuel) c inputs =
    let (p, parsed) = append c.parser c.start (c.stop - c.start) in
    elim (is_complete c.parser.state || is_error c.parser.state) [
      | true ↦ finish c inputs
      | false ↦ elim (parsed == 0 && not (is_error p.state)) [
        | true ↦ elim (refill (record c { parser = p }) inputs) [
          | filled c' inputs' ↦ read_loop fuel c' inputs'
          | refused e ↦ failed e
          | blocked ↦ waiting
        ]
        | false ↦ read_loop fuel (record c { parser = p; start = c.start + parsed }) inputs
      ]
    ]

-- `guac_parser_read`, on fuel.
unfoldable pub read : ℕ → Parser → List Response → Outcome
unfolding read_loop
read fuel p inputs =
    let fresh = if is_complete p.state then reset p else p in
    read_loop fuel
      (record {
        parser = fresh;
        start = p.unparsed_start;
        stop = p.unparsed_end;
        instr = p.unparsed_start;
      })
      inputs
