-- ===== src/Protocol/Send/Early.antt =====
-- The `guac_protocol_send_…` functions, in the order of protocol.c. A layer, a stream or an object
-- is given by its index, the only field that they read, and an enumeration by its number.
use occamy.Base.{Bool, List, [], ◌∷◌, codes, ◌+◌, ◌*◌, ◌/◌, length}
use occamy.Base
use occamy.Base.Int.{ℤ, pos}
use occamy.Socket.{Transport, Socket, write_string, write_int, write_base64, flush_base64}
use occamy.Protocol.Calls.{any_fails, write_length_string, write_length_int}

module _ (T : Transport) where
  open T use {State}

  abbrev comma : Socket State → Bool × Socket State
  comma = write_string T (codes ",")

  abbrev semicolon : Socket State → Bool × Socket State
  semicolon = write_string T (codes ";")

  -- `guac_protocol_send_blob`; the C parameter `count` is the length of `block`.
  unfoldable pub send_blob : (stream : ℤ) (block : Base.Bytes) → Socket State → Bool × Socket State
  send_blob stream block =
      let base64_length = (length block + 2) / 3 * 4 in
      any_fails T (
        write_string T (codes "4.blob,")
        ∷ write_length_int T stream
        ∷ comma
        ∷ write_int T (pos base64_length)
        ∷ write_string T (codes ".")
        ∷ write_base64 T block
        ∷ flush_base64 T
        ∷ semicolon
        ∷ [])

  -- `guac_protocol_send_ack`
  unfoldable pub send_ack :
      (stream : ℤ) (message : Base.Bytes) (status : ℤ) → Socket State → Bool × Socket State
  send_ack stream message status = any_fails T (
      write_string T (codes "3.ack,")
      ∷ write_length_int T stream
      ∷ comma
      ∷ write_length_string T message
      ∷ comma
      ∷ write_length_int T status
      ∷ semicolon
      ∷ [])

  -- `guac_protocol_send_body`
  unfoldable pub send_body :
      (object stream : ℤ) (mimetype name : Base.Bytes) → Socket State → Bool × Socket State
  send_body object stream mimetype name = any_fails T (
      write_string T (codes "4.body,")
      ∷ write_length_int T object
      ∷ comma
      ∷ write_length_int T stream
      ∷ comma
      ∷ write_length_string T mimetype
      ∷ comma
      ∷ write_length_string T name
      ∷ semicolon
      ∷ [])

  -- `guac_protocol_send_cfill`
  unfoldable pub send_cfill : (mode layer r g b a : ℤ) → Socket State → Bool × Socket State
  send_cfill mode layer r g b a = any_fails T (
      write_string T (codes "5.cfill,")
      ∷ write_length_int T mode
      ∷ comma
      ∷ write_length_int T layer
      ∷ comma
      ∷ write_length_int T r
      ∷ comma
      ∷ write_length_int T g
      ∷ comma
      ∷ write_length_int T b
      ∷ comma
      ∷ write_length_int T a
      ∷ semicolon
      ∷ [])

  -- `guac_protocol_send_clip`
  unfoldable pub send_clip : (layer : ℤ) → Socket State → Bool × Socket State
  send_clip layer =
      any_fails T (write_string T (codes "4.clip,") ∷ write_length_int T layer ∷ semicolon ∷ [])

  -- `guac_protocol_send_clipboard`
  unfoldable pub send_clipboard :
      (stream : ℤ) (mimetype : Base.Bytes) → Socket State → Bool × Socket State
  send_clipboard stream mimetype = any_fails T (
      write_string T (codes "9.clipboard,")
      ∷ write_length_int T stream
      ∷ comma
      ∷ write_length_string T mimetype
      ∷ semicolon
      ∷ [])

  -- `guac_protocol_send_copy`
  unfoldable pub send_copy :
      (srcl srcx srcy w h mode dstl dstx dsty : ℤ) → Socket State → Bool × Socket State
  send_copy srcl srcx srcy w h mode dstl dstx dsty = any_fails T (
      write_string T (codes "4.copy,")
      ∷ write_length_int T srcl
      ∷ comma
      ∷ write_length_int T srcx
      ∷ comma
      ∷ write_length_int T srcy
      ∷ comma
      ∷ write_length_int T w
      ∷ comma
      ∷ write_length_int T h
      ∷ comma
      ∷ write_length_int T mode
      ∷ comma
      ∷ write_length_int T dstl
      ∷ comma
      ∷ write_length_int T dstx
      ∷ comma
      ∷ write_length_int T dsty
      ∷ semicolon
      ∷ [])

  -- `guac_protocol_send_cursor`
  unfoldable pub send_cursor : (x y srcl srcx srcy w h : ℤ) → Socket State → Bool × Socket State
  send_cursor x y srcl srcx srcy w h = any_fails T (
      write_string T (codes "6.cursor,")
      ∷ write_length_int T x
      ∷ comma
      ∷ write_length_int T y
      ∷ comma
      ∷ write_length_int T srcl
      ∷ comma
      ∷ write_length_int T srcx
      ∷ comma
      ∷ write_length_int T srcy
      ∷ comma
      ∷ write_length_int T w
      ∷ comma
      ∷ write_length_int T h
      ∷ semicolon
      ∷ [])

  -- `guac_protocol_send_disconnect`
  unfoldable pub send_disconnect : Socket State → Bool × Socket State
  send_disconnect = any_fails T (write_string T (codes "10.disconnect;") ∷ [])

  -- `guac_protocol_send_dispose`
  unfoldable pub send_dispose : (layer : ℤ) → Socket State → Bool × Socket State
  send_dispose layer =
      any_fails T (write_string T (codes "7.dispose,") ∷ write_length_int T layer ∷ semicolon ∷ [])

  -- `guac_protocol_send_end`
  unfoldable pub send_end : (stream : ℤ) → Socket State → Bool × Socket State
  send_end stream =
      any_fails T (write_string T (codes "3.end,") ∷ write_length_int T stream ∷ semicolon ∷ [])

  -- `guac_protocol_send_error`
  unfoldable pub send_error :
      (message : Base.Bytes) (status : ℤ) → Socket State → Bool × Socket State
  send_error message status = any_fails T (
      write_string T (codes "5.error,")
      ∷ write_length_string T message
      ∷ comma
      ∷ write_length_int T status
      ∷ semicolon
      ∷ [])
