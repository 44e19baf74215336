-- ===== src/Protocol/Calls.antt =====
-- The calls that an instruction is made of, and the two writers of elements.
use occamy.Base.{Bool, true, false, List, [], ◌∷◌, codes}
use occamy.Base
use occamy.Base.Int.{ℤ, pos}
use occamy.Base.Decimal.{decimal_int}
use occamy.Socket.{Transport, Socket, write_string, write_int}
use occamy.Unicode.{utf8_strlen}

module _ (T : Transport) where
  open T use {State}

  -- `a || b || …`
  unfoldable pub any_fails :
      List (Socket State → Bool × Socket State) → Socket State → Bool × Socket State
  any_fails [] socket = (false, socket)
  any_fails (call ∷ calls) socket =
      let (failed, socket') = call socket in
      elim failed [ true ↦ (true, socket') | false ↦ any_fails calls socket' ]

  -- `__guac_socket_write_length_string`
  unfoldable pub write_length_string : Base.Bytes → Socket State → Bool × Socket State
  write_length_string str =
      any_fails
        (write_int T (pos (utf8_strlen str)) ∷ write_string T (codes ".") ∷ write_string T str ∷ [])

  -- `__guac_socket_write_length_int`; the buffer of 128 bytes has room for any 64-bit integer.
  unfoldable pub write_length_int : ℤ → Socket State → Bool × Socket State
  write_length_int i = write_length_string (decimal_int i)
