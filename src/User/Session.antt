-- ===== src/User/Session.antt =====
-- What the handlers of guacamole/src/libguac/user-handlers.c read and write of a user: its streams and objects,
-- the handlers that are set, the times of its frames, whether its client runs, and what is sent to it.
-- A handler is a pointer into other code, which the model names by a number and never reads.
use occamy.Base.{ℕ, Bool, Option, List}
use occamy.Base.Int.{ℤ}
use occamy.Base
use occamy.User.{User}

-- A call of a handler: its number, and its arguments. A stream and an object are their numbers within
-- the arrays of the user.
pub data Call : Type 0 where
  call_sync : ℕ → ℤ → Call
  call_mouse : ℕ → ℤ → ℤ → ℤ → Call
  call_key : ℕ → ℤ → ℤ → Call
  call_clipboard : ℕ → (stream : ℕ) → (mimetype : Base.Bytes) → Call
  call_size : ℕ → ℤ → ℤ → Call
  call_file : ℕ → (stream : ℕ) → (mimetype filename : Base.Bytes) → Call
  call_pipe : ℕ → (stream : ℕ) → (mimetype name : Base.Bytes) → Call
  call_ack : ℕ → (stream : ℕ) → (error : Base.Bytes) → (status : ℤ) → Call
  call_blob : ℕ → (stream : ℕ) → (content : Base.Bytes) → Call
  call_end : ℕ → (stream : ℕ) → Call
  call_get : ℕ → (object : ℕ) → (name : Base.Bytes) → Call
  call_put : ℕ → (object stream : ℕ) → (mimetype name : Base.Bytes) → Call

-- What is sent to the user: `guac_protocol_send_ack` with the index of its stream,
-- `guac_protocol_send_error`, and a flush of the socket.
pub data Reply : Type 0 where
  ack : (index : ℤ) → (message : Base.Bytes) → (status : ℕ) → Reply
  error : (message : Base.Bytes) → (status : ℕ) → Reply
  flushed : Reply

-- `guac_user` with the two fields of its `guac_client` that are used here.
pub record Session : Type 0 where
  pub user : User
  pub sync_handler : Option ℕ
  pub mouse_handler : Option ℕ
  pub key_handler : Option ℕ
  pub clipboard_handler : Option ℕ
  pub size_handler : Option ℕ
  pub file_handler : Option ℕ
  pub pipe_handler : Option ℕ
  pub ack_handler : Option ℕ
  pub blob_handler : Option ℕ
  pub end_handler : Option ℕ
  pub get_handler : Option ℕ
  pub put_handler : Option ℕ
  pub last_received_timestamp : ℤ
  pub last_frame_duration : ℤ
  pub processing_lag : ℤ
  pub last_sent_timestamp : ℤ
  pub is_running : Bool
  pub sent : List Reply

abbrev pub unsupported : ℕ
unsupported = 0x0100

abbrev pub client_bad_request : ℕ
client_bad_request = 0x0300

abbrev pub client_timeout : ℕ
client_timeout = 0x0308
