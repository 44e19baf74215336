-- ===== src/Socket.antt =====
-- guacamole/src/libguac/socket.c: writing through a `guac_socket`, and its base64 encoder. What
-- stands behind the socket is its write handler, a parameter: a state of its own, what it returns
-- (`none` for -1), and the bytes that it has accepted. The other handlers only pass calls on.
pub mod Base64
pub mod Writes
pub mod Encoder
pub mod Tests
use occamy.Base.{
  ℕ, zero, suc, ◌+◌, ◌*◌, ◌/◌, ◌-◌, ◌^◌, ◌≤◌, ◌≡◌, ◌≢◌, bit_and, bit_or, ◌==◌, if◌then◌else◌, Bool,
  true, false, Option, none, some, List, [], ◌∷◌, ◌++◌, length, get_or, set, take, drop, replicate,
  codes,
}
use occamy.Base
use occamy.Base.Int.{ℤ}
use occamy.Base.Decimal.{decimal_int}

-- A `guac_socket_write_handler`, and what socket.c relies on: the handler is given a block that is
-- not empty, and unless it fails it takes one byte of it at least, in order.
pub record Transport : Type 1 where
  pub State : Type 0
  pub write : State → Base.Bytes → Option ℕ × State
  pub sent : State → Base.Bytes
  pub write_takes :
      (s : State) (block : Base.Bytes) (n : ℕ)
      → (write s block).0 ≡ some n
      → block ≢ []
      → (1 ≤ n) × (n ≤ length block) × (sent (write s block).1 ≡ sent s ++ take n block)

-- `guac_socket`: the handler's `data`, and the base64 "ready" buffer of three ints. The padding
-- value -1 of that buffer is `none`.
pub record Socket (S : Type 0) : Type 0 where
  pub handler : S
  pub ready : ℕ
  pub ready_buf : List (Option ℕ)

abbrev pub base64_characters : Base.Bytes
base64_characters = codes "ABCDEFGHIJKLMNOPQRSTUVWXYZabcdefghijklmnopqrstuvwxyz0123456789+/"

unfoldable pub base64_char : ℕ → ℕ
base64_char i = get_or base64_characters i 0

-- The bits of an `int` that is a byte or -1.
abbrev pub int_bits : Option ℕ → ℕ
int_bits (some b) = b
int_bits none = 2 ^ 32 - 1

-- The bytes 2 and 3 of a triplet's output, by the sign of `c`.
unfoldable pub triplet_end : ℕ → Option ℕ → Base.Bytes
triplet_end b (some c) =
    base64_char (bit_or (bit_and b 0x0f * 4) (bit_and c 0xc0 / 64))
    ∷ base64_char (bit_and c 0x3f)
    ∷ []
triplet_end b none = base64_char (bit_and b 0x0f * 4) ∷ b'=' ∷ []

-- The four output bytes of `__guac_socket_write_base64_triplet`.
unfoldable pub triplet_output : ℕ → Option ℕ → Option ℕ → Base.Bytes
unfolding triplet_end
triplet_output a (some b) c =
    base64_char (bit_and a 0xfc / 4)
    ∷ base64_char (bit_or (bit_and a 0x03 * 16) (bit_and b 0xf0 / 16))
    ∷ triplet_end b c
triplet_output a none c =
    base64_char (bit_and a 0xfc / 4) ∷ base64_char (bit_and a 0x03 * 16) ∷ b'=' ∷ b'=' ∷ []

-- How many bytes a triplet stands for.
unfoldable pub triplet_count : Option ℕ → Option ℕ → ℕ
triplet_count none c = 1
triplet_count (some b) none = 2
triplet_count (some b) (some c) = 3

module _ (T : Transport) where
  open T use {State, write, sent}

  -- The loop of `guac_socket_write`, which runs until `count` is 0; true is the return value 1,
  -- an error. Every round writes a byte at least, so as much fuel as bytes is enough.
  unfoldable pub write_loop : ℕ → Socket State → Base.Bytes → Bool × Socket State
  write_loop fuel socket [] = (false, socket)
  write_loop zero socket (x ∷ buffer) = (true, socket)
  write_loop (suc fuel) socket (x ∷ buffer) =
      let (written, s) = write socket.handler (x ∷ buffer) in
      elim written [
        | none ↦ (true, record socket { handler = s })
        | some n ↦ write_loop fuel (record socket { handler = s }) (drop n (x ∷ buffer))
      ]

  -- `guac_socket_write`
  unfoldable pub socket_write : Base.Bytes → Socket State → Bool × Socket State
  socket_write buffer socket = write_loop (length buffer) socket buffer

  -- `guac_socket_write_string`
  unfoldable pub write_string : Base.Bytes → Socket State → Bool × Socket State
  unfolding socket_write
  write_string str socket = socket_write str socket

  -- `guac_socket_write_int`
  unfoldable pub write_int : ℤ → Socket State → Bool × Socket State
  unfolding socket_write
  write_int i socket = socket_write (decimal_int i) socket

  -- `__guac_socket_write_base64_triplet`: `none` is -1, otherwise how many bytes it stands for.
  unfoldable pub write_base64_triplet :
      Option ℕ → Option ℕ → Option ℕ → Socket State → Option ℕ × Socket State
  write_base64_triplet a b c socket =
      let (failed, socket') = socket_write (triplet_output (int_bits a) b c) socket in
      (if failed then none else some (triplet_count b c), socket')

  -- The flush of a full ready buffer.
  unfoldable pub write_ready : Socket State → Option ℕ × Socket State
  write_ready socket =
      let a = get_or socket.ready_buf 0 none in
      let b = get_or socket.ready_buf 1 none in
      let c = get_or socket.ready_buf 2 none in
      let (retval, socket') = write_base64_triplet a b c socket in
      elim retval [ none ↦ (none, socket') | some _ ↦ (some 1, record socket' { ready = 0 }) ]

  -- `__guac_socket_write_base64_byte`. A store past the ready buffer changes nothing here; in C it
  -- is undefined.
  unfoldable pub write_base64_byte : Option ℕ → Socket State → Option ℕ × Socket State
  write_base64_byte byte socket =
      let stored = record socket {
        ready = socket.ready + 1;
        ready_buf = set socket.ready_buf socket.ready byte;
      } in
      if stored.ready == 3 then write_ready stored else (some 1, stored)

  -- `guac_socket_write_base64`: true is an error.
  unfoldable pub write_base64 : Base.Bytes → Socket State → Bool × Socket State
  write_base64 [] socket = (false, socket)
  write_base64 (x ∷ buffer) socket =
      let (retval, socket') = write_base64_byte (some x) socket in
      elim retval [ none ↦ (true, socket') | some _ ↦ write_base64 buffer socket' ]

  -- The loop of `guac_socket_flush_base64`; at most three rounds fill the buffer.
  unfoldable pub flush_loop : ℕ → Socket State → Bool × Socket State
  flush_loop zero socket = (true, socket)
  flush_loop (suc fuel) socket =
      let (retval, socket') = write_base64_byte none socket in
      let rest = flush_loop fuel socket' in
      if socket.ready == 0
      then (false, socket)
      else elim retval [ none ↦ (true, socket') | some _ ↦ rest ]

  -- `guac_socket_flush_base64`
  unfoldable pub flush_base64 : Socket State → Bool × Socket State
  unfolding flush_loop
  flush_base64 socket = flush_loop 4 socket
