-- ===== src/User/Inputs.antt =====
-- guacamole/src/libguac/user-handlers.c: the input streams of a user.
use occamy.Base.{
  ℕ, zero, suc, ◌+◌, ◌-◌, ◌*◌, ◌%◌, ◌/◌, ◌==◌, if◌then◌else◌, Bool, true, false, not, ◌&&◌, ◌||◌,
  Option, none, some, List, [], ◌∷◌, ◌++◌, get_or, set, codes, equal,
}
use occamy.Base
use occamy.Base.Int.{ℤ, pos, pos_part, ltb_ℤ, leb_ℤ}
use occamy.User.{Stream, new_stream, max_streams}
use occamy.User.Session.{Call, call_end, Reply, ack, Session, client_bad_request}

-- The entry `i` of the arguments.
abbrev pub argument : List Base.Bytes → ℕ → Base.Bytes
argument argv i = get_or argv i (codes "")

abbrev pub send : Reply → Session → Session
send reply session = record session { sent = session.sent ++ (reply ∷ []) }

abbrev pub input_stream_at : Session → ℕ → Stream
input_stream_at session i = get_or session.user.input_streams i (new_stream none)

abbrev pub set_input_stream : Session → ℕ → Stream → Session
set_input_stream session i stream = record session {
  user = record session.user { input_streams = set session.user.input_streams i stream };
}

-- A pointer that is NULL where it is `none`: the first of two that is not.
abbrev pub first_of : Option ℕ → Option ℕ → Option ℕ
first_of (some h) other = some h
first_of none other = other

abbrev pub is_set : Option ℕ → Bool
is_set none = false
is_set (some i) = true

-- `__get_input_stream`
unfoldable pub get_input_stream : Session → ℤ → Option ℕ × Session
get_input_stream session stream_index =
    if ltb_ℤ stream_index (pos 0) || leb_ℤ (pos max_streams) stream_index
    then (none, send (ack stream_index (codes "Invalid stream index") client_bad_request) session)
    else (some (pos_part stream_index), session)

-- The check of `__get_open_input_stream` behind the call of the other.
abbrev pub check_open : ℤ → Option ℕ × Session → Option ℕ × Session
check_open stream_index (none, session) = (none, session)
check_open stream_index (some i, session) =
    if is_set (input_stream_at session i).index
    then (some i, session)
    else (none, send (ack stream_index (codes "Invalid stream index") client_bad_request) session)

-- `__get_open_input_stream`
unfoldable pub get_open_input_stream : Session → ℤ → Option ℕ × Session
get_open_input_stream session stream_index =
    check_open stream_index (get_input_stream session stream_index)

-- The return of 0 where there is no such stream.
abbrev pub with_stream : Option ℕ × Session → (ℕ → Session → ℤ × Session) → ℤ × Session
with_stream (none, session) f = (pos 0, session)
with_stream (some i, session) f = f i session

module _ (callback : Call → Session → ℤ × Session) where
  -- The call of a handler that is set, and what is done otherwise.
  abbrev pub call_or : Option ℕ → (ℕ → Call) → ℤ × Session → Session → ℤ × Session
  call_or (some h) call otherwise session = callback (call h) session
  call_or none call otherwise session = otherwise

  -- The forced end of an open stream in `__init_input_stream`.
  unfoldable pub force_end : ℕ → Session → Session
  force_end i session =
      let stream = input_stream_at session i in
      let ended =
        call_or (first_of stream.end_handler session.end_handler) (λ h. call_end h i)
          (pos 0, session) session in
      if is_set stream.index then ended.1 else session

  -- The part of `__init_input_stream` for a stream of the array.
  abbrev pub init_stream : Option ℕ × Session → Option ℕ × Session
  init_stream (none, session) = (none, session)
  init_stream (some i, session) =
      (some i, set_input_stream (force_end i session) i (new_stream (some i)))

  -- `__init_input_stream`
  unfoldable pub init_input_stream : Session → ℤ → Option ℕ × Session
  init_input_stream session stream_index = init_stream (get_input_stream session stream_index)
