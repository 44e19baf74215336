-- ===== src/User/Handlers.antt =====
-- guacamole/src/libguac/user-handlers.c: the handlers of instructions.
-- `atoi` of the C library and the handlers that other code has set are parameters: a handler is given
-- the call and answers with what it returns and what it makes of the user. An argument that the
-- instruction does not have, which the source reads past the end of its array, is the empty text.
use occamy.Base.{
  ℕ, zero, suc, ◌+◌, ◌-◌, ◌*◌, ◌%◌, ◌/◌, ◌==◌, if◌then◌else◌, Bool, true, false, not, ◌&&◌, ◌||◌,
  Option, none, some, List, [], ◌∷◌, ◌++◌, get_or, set, codes, equal,
}
use occamy.Base
use occamy.Base.Int.{ℤ, pos, negsuc, pos_part, ltb_ℤ, leb_ℤ, equal_ℤ, ◌*ℤ◌, div_ℤ}
use occamy.Protocol.Decode.{decode_base64}
use occamy.User.{new_stream, new_object, max_streams, max_objects, stop}
use occamy.User.Session.{
  Call, call_sync, call_mouse, call_key, call_clipboard, call_size, call_file, call_pipe, call_ack,
  call_blob, call_end, call_get, call_put, ack, Session, unsupported,
}
use occamy.User.Lag.{parse_int, update_lag}
use occamy.User.Inputs.{
  argument, send, input_stream_at, set_input_stream, first_of, is_set, get_open_input_stream,
  with_stream, call_or, init_input_stream,
}

module _ (atoi : Base.Bytes → ℤ) (callback : Call → Session → ℤ × Session) where
  -- `__guac_handle_sync`, at the time `current`.
  unfoldable pub handle_sync : ℤ → List Base.Bytes → Session → ℤ × Session
  handle_sync current argv session =
      let timestamp = parse_int (argument argv 0) in
      let session' = update_lag current timestamp session in
      if ltb_ℤ session.last_sent_timestamp timestamp
      then (negsuc 0, session)
      else call_or callback session'.sync_handler (λ h. call_sync h timestamp) (pos 0, session')
          session'

  -- `__guac_handle_mouse`
  unfoldable pub handle_mouse : List Base.Bytes → Session → ℤ × Session
  handle_mouse argv session =
      call_or callback session.mouse_handler
        (λ h.
          call_mouse h (atoi (argument argv 0)) (atoi (argument argv 1)) (atoi (argument argv 2)))
        (pos 0, session) session

  -- `__guac_handle_key`
  unfoldable pub handle_key : List Base.Bytes → Session → ℤ × Session
  handle_key argv session =
      call_or callback session.key_handler
        (λ h. call_key h (atoi (argument argv 0)) (atoi (argument argv 1))) (pos 0, session) session

  -- `__guac_handle_clipboard`
  unfoldable pub handle_clipboard : List Base.Bytes → Session → ℤ × Session
  handle_clipboard argv session =
      with_stream (init_input_stream callback session (atoi (argument argv 0))) (λ stream session'.
        call_or callback session'.clipboard_handler (λ h. call_clipboard h stream (argument argv 1))
          (pos 0, send (ack (pos stream) (codes "Clipboard unsupported") unsupported) session')
          session')

  -- `__guac_handle_size`
  unfoldable pub handle_size : List Base.Bytes → Session → ℤ × Session
  handle_size argv session =
      call_or callback session.size_handler
        (λ h. call_size h (atoi (argument argv 0)) (atoi (argument argv 1))) (pos 0, session)
        session

  -- `__guac_handle_file`
  unfoldable pub handle_file : List Base.Bytes → Session → ℤ × Session
  handle_file argv session =
      with_stream (init_input_stream callback session (atoi (argument argv 0))) (λ stream session'.
        call_or callback session'.file_handler
          (λ h. call_file h stream (argument argv 1) (argument argv 2))
          (pos 0, send (ack (pos stream) (codes "File transfer unsupported") unsupported) session')
          session')

  -- `__guac_handle_pipe`
  unfoldable pub handle_pipe : List Base.Bytes → Session → ℤ × Session
  handle_pipe argv session =
      with_stream (init_input_stream callback session (atoi (argument argv 0))) (λ stream session'.
        call_or callback session'.pipe_handler
          (λ h. call_pipe h stream (argument argv 1) (argument argv 2))
          (pos 0, send (ack (pos stream) (codes "Named pipes unsupported") unsupported) session')
          session')

  -- `__guac_handle_ack`; an even index is twice the number of a stream of this user.
  unfoldable pub handle_ack : List Base.Bytes → Session → ℤ × Session
  handle_ack argv session =
      let index = atoi (argument argv 0) in
      let stream_index = div_ℤ index 2 in
      let i = pos_part stream_index in
      let stream = get_or session.user.output_streams i (new_stream none) in
      let answered =
        call_or callback (first_of stream.ack_handler session.ack_handler)
          (λ h. call_ack h i (argument argv 1) (atoi (argument argv 2))) (pos 0, session) session in
      if not (equal_ℤ (div_ℤ index 2 *ℤ pos 2) index)
      then (pos 0, session)
      else if ltb_ℤ stream_index (pos 0) || leb_ℤ (pos max_streams) stream_index
      then (pos 0, session)
      else if not (is_set stream.index)
      then (pos 0, session)
      else answered

  -- `__guac_handle_blob`
  unfoldable pub handle_blob : List Base.Bytes → Session → ℤ × Session
  handle_blob argv session =
      with_stream (get_open_input_stream session (atoi (argument argv 0))) (λ i session'.
        call_or callback (first_of (input_stream_at session' i).blob_handler session'.blob_handler)
          (λ h. call_blob h i (decode_base64 (argument argv 1)))
          (pos 0, send (ack (pos i) (codes "File transfer unsupported") unsupported) session')
          session')

  -- The closing of a stream by `__guac_handle_end`, behind the call of its handler.
  abbrev pub mark_closed : ℕ → ℤ × Session → ℤ × Session
  mark_closed i (result, session) =
      (result, set_input_stream session i (record (input_stream_at session i) { index = none }))

  -- The rest of `__guac_handle_end`, of an open stream.
  unfoldable pub end_at : ℕ → Session → ℤ × Session
  end_at i session = mark_closed i (
      call_or callback (first_of (input_stream_at session i).end_handler session.end_handler)
        (λ h. call_end h i) (pos 0, session) session)

  -- `__guac_handle_end`
  unfoldable pub handle_end : List Base.Bytes → Session → ℤ × Session
  handle_end argv session =
      with_stream (get_open_input_stream session (atoi (argument argv 0))) end_at

  -- The object of an index, where it is defined.
  unfoldable pub defined_object : Session → ℤ → Option ℕ
  defined_object session object_index =
      let i = pos_part object_index in
      if ltb_ℤ object_index (pos 0) || leb_ℤ (pos max_objects) object_index
      then none
      else if is_set (get_or session.user.objects i (new_object none)).index
      then some i
      else none

  -- `__guac_handle_get`
  unfoldable pub handle_get : List Base.Bytes → Session → ℤ × Session
  handle_get argv session =
      with_stream (defined_object session (atoi (argument argv 0)), session)
        (λ i session'.
          call_or callback
            (first_of (get_or session'.user.objects i (new_object none)).get_handler
              session'.get_handler)
            (λ h. call_get h i (argument argv 1)) (pos 0, session') session')

  -- The rest of `__guac_handle_put`, of a defined object.
  unfoldable pub put_to : List Base.Bytes → ℕ → Session → ℤ × Session
  put_to argv i session =
      with_stream (init_input_stream callback session (atoi (argument argv 1))) (λ stream session'.
        call_or callback
          (first_of (get_or session'.user.objects i (new_object none)).put_handler
            session'.put_handler)
          (λ h. call_put h i stream (argument argv 2) (argument argv 3))
          (pos 0, send (ack (pos stream) (codes "Object write unsupported") unsupported) session')
          session')

  -- `__guac_handle_put`
  unfoldable pub handle_put : List Base.Bytes → Session → ℤ × Session
  handle_put argv session =
      with_stream (defined_object session (atoi (argument argv 0)), session) (put_to argv)

  -- `__guac_handle_disconnect`
  unfoldable pub handle_disconnect : List Base.Bytes → Session → ℤ × Session
  handle_disconnect argv session = (pos 0, record session { user = stop session.user })
