-- ===== src/Protocol/Writers.antt =====
-- The calls that the functions of guacamole/src/libguac/protocol.c are made of, by the bytes that they deliver.
use occamy.Base.{
  ℕ, ◌≡◌, refl, sym, ap, ◌∙◌, arith, Bool, true, false, List, [], ◌∷◌, ◌++◌, append-nil,
  append_assoc, codes, Bool-cases, inl, inr,
}
use mathlib.Core.Path.{subst}
use occamy.Base
use occamy.Base.Int.{ℤ, pos}
use occamy.Base.Decimal.{decimal_int}
use occamy.Unicode.{utf8_strlen}
use occamy.Socket.{Transport, Socket, write_string, write_int}
use occamy.Socket.Writes.{Delivers, Delivers-step, socket_write-Delivers}
use occamy.Protocol.Calls.{any_fails, write_length_string, write_length_int}
use occamy.Protocol.Wire.{element}

module _ (T : Transport) where
  open T use {State, sent}

  -- From any socket the call delivers these bytes.
  abbrev IsWriter : (Socket State → Bool × Socket State) → Base.Bytes → Type 0
  IsWriter call out = (socket : Socket State) → Delivers T socket out (call socket)

  string-IsWriter : (str : Base.Bytes) → IsWriter (write_string T str) str
  unfolding write_string
  string-IsWriter str socket = socket_write-Delivers T socket str

  write_int-IsWriter : (i : ℤ) → IsWriter (write_int T i) (decimal_int i)
  unfolding write_int
  write_int-IsWriter i socket = socket_write-Delivers T socket (decimal_int i)

  pub done : IsWriter (any_fails T []) []
  unfolding any_fails
  done socket = record {
    delivered = λ _. sym (append-nil _);
    ready_kept = refl;
    ready_buf_kept = refl;
    succeeds = λ _. refl;
  }

  any_fails-cons :
      (call : Socket State → Bool × Socket State)
      (calls : List (Socket State → Bool × Socket State)) (out more : Base.Bytes)
      → IsWriter call out
      → IsWriter (any_fails T calls) more
      → IsWriter (any_fails T (call ∷ calls)) (out ++ more)
  unfolding any_fails
  any_fails-cons call calls out more c cs socket = elim (Bool-cases (call socket).0) [
    | inl failed ↦
        rw (failed, any_fails)
          (record {
            delivered = λ e. cc;
            ready_kept = (c socket).ready_kept;
            ready_buf_kept = (c socket).ready_buf_kept;
            succeeds = λ reliable. cc ((c socket).succeeds reliable);
          })
    | inr going_on ↦
        let d = c socket in
        rw (going_on, any_fails)
          (Delivers-step T out more (d.delivered going_on) d.ready_kept d.ready_buf_kept (record {
            delivered = (cs (call socket).1).delivered;
            ready_kept = (cs (call socket).1).ready_kept;
            ready_buf_kept = (cs (call socket).1).ready_buf_kept;
            succeeds = (cs (call socket).1).succeeds;
          }))
  ]

  length_string-IsWriter : (str : Base.Bytes) → IsWriter (write_length_string T str) (element str)
  unfolding write_length_string decimal_int
  length_string-IsWriter str =
      let size = pos (utf8_strlen str) in
      let last = any_fails-cons (write_string T str) [] str [] (string-IsWriter str) done in
      let dot =
        any_fails-cons (write_string T (codes ".")) _ _ (str ++ []) (string-IsWriter _) last in
      subst (IsWriter (write_length_string T str))
        (ap (λ t. decimal_int size ++ (b'.' ∷ t)) (append-nil str))
        (any_fails-cons (write_int T size) _ _ (b'.' ∷ (str ++ [])) (write_int-IsWriter size) dot)

  length_int-IsWriter : (i : ℤ) → IsWriter (write_length_int T i) (element (decimal_int i))
  unfolding write_length_int
  length_int-IsWriter i = length_string-IsWriter (decimal_int i)

  -- The three kinds of calls that instructions are made of, in front of further calls.
  pub lit :
      (s : Base.Bytes) (calls : List (Socket State → Bool × Socket State)) (more : Base.Bytes)
      → IsWriter (any_fails T calls) more
      → IsWriter (any_fails T (write_string T s ∷ calls)) (s ++ more)
  lit s calls more = any_fails-cons _ calls s more (string-IsWriter s)

  pub int :
      (i : ℤ) (calls : List (Socket State → Bool × Socket State)) (more : Base.Bytes)
      → IsWriter (any_fails T calls) more
      → IsWriter (any_fails T (write_length_int T i ∷ calls)) (element (decimal_int i) ++ more)
  int i calls more = any_fails-cons _ calls (element (decimal_int i)) more (length_int-IsWriter i)

  pub str :
      (s : Base.Bytes) (calls : List (Socket State → Bool × Socket State)) (more : Base.Bytes)
      → IsWriter (any_fails T calls) more
      → IsWriter (any_fails T (write_length_string T s ∷ calls)) (element s ++ more)
  str s calls more = any_fails-cons _ calls (element s) more (length_string-IsWriter s)

  pub as_bytes :
      (calls : List (Socket State → Bool × Socket State)) (out out' : Base.Bytes)
      → IsWriter (any_fails T calls) out
      → out ≡ out'
      → IsWriter (any_fails T calls) out'
  as_bytes calls out out' w e = subst (IsWriter (any_fails T calls)) e w
