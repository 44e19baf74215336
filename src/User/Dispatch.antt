-- ===== src/User/Dispatch.antt =====
-- guacamole/src/libguac/user.c: the dispatch of instructions to their handlers, the end of a user by an error, and
-- the input loop over what the parser reads, one instruction or failure after the other.
use occamy.Base.{ℕ, ◌==◌, if◌then◌else◌, Bool, not, ◌&&◌, List, [], ◌∷◌, codes, equal}
use occamy.Base
use occamy.Base.Int.{ℤ, pos, ltb_ℤ}
use occamy.User.{stop}
use occamy.User.Session.{Call, error, flushed, Session, client_timeout}
use occamy.User.Inputs.{send}
use occamy.User.Handlers.{
  handle_sync, handle_mouse, handle_key, handle_clipboard, handle_disconnect, handle_size,
  handle_file, handle_pipe, handle_ack, handle_blob, handle_end, handle_get, handle_put,
}

abbrev pub Handler : Type 0
Handler = List Base.Bytes → Session → ℤ × Session

-- The search of `guac_user_handle_instruction` through a map of opcodes.
unfoldable pub find_handler : List (Base.Bytes × Handler) → Base.Bytes → Handler
find_handler [] opcode argv session = (pos 0, session)
find_handler (current ∷ handlers) opcode argv session =
    let rest = find_handler handlers opcode argv session in
    if equal opcode current.0 then current.1 argv session else rest

-- `guac_user_stop`, of the user of a session.
abbrev pub stop_user : Session → Session
stop_user session = record session { user = stop session.user }

-- `vguac_user_abort`; its log messages hold no state of this model.
unfoldable pub abort : ℕ → Session → Session
abort status session =
    if session.user.active
    then stop_user (send flushed (send (error (codes "Aborted. See logs.") status) session))
    else session

-- What `guac_parser_read` gives: an instruction, at the time `current`, or a failure with its
-- `guac_error`.
pub data Read : Type 0 where
  instruction : (current : ℤ) → (opcode : Base.Bytes) → (argv : List Base.Bytes) → Read
  failure : (status : ℕ) → Read

-- `GUAC_STATUS_TIMEOUT`
abbrev pub status_timeout : ℕ
status_timeout = 3

module _ (atoi : Base.Bytes → ℤ) (callback : Call → Session → ℤ × Session) where
  -- `__guac_instruction_handler_map`
  unfoldable pub handler_map : ℤ → List (Base.Bytes × Handler)
  handler_map current =
      (codes "sync", handle_sync atoi callback current)
      ∷ (codes "mouse", handle_mouse atoi callback)
      ∷ (codes "key", handle_key atoi callback)
      ∷ (codes "clipboard", handle_clipboard atoi callback)
      ∷ (codes "disconnect", handle_disconnect atoi callback)
      ∷ (codes "size", handle_size atoi callback)
      ∷ (codes "file", handle_file atoi callback)
      ∷ (codes "pipe", handle_pipe atoi callback)
      ∷ (codes "ack", handle_ack atoi callback)
      ∷ (codes "blob", handle_blob atoi callback)
      ∷ (codes "end", handle_end atoi callback)
      ∷ (codes "get", handle_get atoi callback)
      ∷ (codes "put", handle_put atoi callback)
      ∷ []

  -- `guac_user_handle_instruction`, at the time `current`.
  unfoldable pub handle_instruction : ℤ → Base.Bytes → List Base.Bytes → Session → ℤ × Session
  handle_instruction current opcode = find_handler (handler_map current) opcode

  -- `guac_user_input_thread`, over all that is ever read; where nothing is left, it still waits.
  unfoldable pub input_thread : List Read → Session → Session
  input_thread [] session = session
  input_thread (failure status ∷ reads) session =
      if not (session.is_running && session.user.active)
      then session
      else if status == status_timeout
      then abort client_timeout session
      else stop_user session
  input_thread (instruction current opcode argv ∷ reads) session =
      let handled = handle_instruction current opcode argv session in
      let rest = input_thread reads handled.1 in
      if not (session.is_running && session.user.active)
      then session
      else if ltb_ℤ handled.0 (pos 0)
      then stop_user handled.1
      else rest
