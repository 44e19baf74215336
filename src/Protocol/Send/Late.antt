-- ===== src/Protocol/Send/Late.antt =====
-- The `guac_protocol_send_…` functions, in the order of protocol.c. A layer, a stream or an object
-- is given by its index, the only field that they read, and an enumeration by its number.
use occamy.Base.{Bool, List, [], ◌∷◌, codes}
use occamy.Base
use occamy.Base.Int.{ℤ}
use occamy.Socket.{Transport, Socket, write_string}
use occamy.Protocol.Calls.{any_fails, write_length_string, write_length_int}

module _ (T : Transport) where
  open T use {State}

  abbrev comma : Socket State → Bool × Socket State
  comma = write_string T (codes ",")

  abbrev semicolon : Socket State → Bool × Socket State
  semicolon = write_string T (codes ";")

  -- `guac_protocol_send_file`
  unfoldable pub send_file :
      (stream : ℤ) (mimetype name : Base.Bytes) → Socket State → Bool × Socket State
  send_file stream mimetype name = any_fails T (
      write_string T (codes "4.file,")
      ∷ write_length_int T stream
      ∷ comma
      ∷ write_length_string T mimetype
      ∷ comma
      ∷ write_length_string T name
      ∷ semicolon
      ∷ [])

  -- `guac_protocol_send_filesystem`
  unfoldable pub send_filesystem :
      (object : ℤ) (name : Base.Bytes) → Socket State → Bool × Socket State
  send_filesystem object name = any_fails T (
      write_string T (codes "10.filesystem,")
      ∷ write_length_int T object
      ∷ comma
      ∷ write_length_string T name
      ∷ semicolon
      ∷ [])

  -- `guac_protocol_send_mouse`
  unfoldable pub send_mouse : (x y button_mask timestamp : ℤ) → Socket State → Bool × Socket State
  send_mouse x y button_mask timestamp = any_fails T (
      write_string T (codes "5.mouse,")
      ∷ write_length_int T x
      ∷ comma
      ∷ write_length_int T y
      ∷ comma
      ∷ write_length_int T button_mask
      ∷ comma
      ∷ write_length_int T timestamp
      ∷ semicolon
      ∷ [])

  -- `guac_protocol_send_move`
  unfoldable pub send_move : (layer parent x y z : ℤ) → Socket State → Bool × Socket State
  send_move layer parent x y z = any_fails T (
      write_string T (codes "4.move,")
      ∷ write_length_int T layer
      ∷ comma
      ∷ write_length_int T parent
      ∷ comma
      ∷ write_length_int T x
      ∷ comma
      ∷ write_length_int T y
      ∷ comma
      ∷ write_length_int T z
      ∷ semicolon
      ∷ [])

  -- `guac_protocol_send_name`
  unfoldable pub send_name : (name : Base.Bytes) → Socket State → Bool × Socket State
  send_name name =
      any_fails T (write_string T (codes "4.name,") ∷ write_length_string T name ∷ semicolon ∷ [])

  -- `guac_protocol_send_pipe`
  unfoldable pub send_pipe :
      (stream : ℤ) (mimetype name : Base.Bytes) → Socket State → Bool × Socket State
  send_pipe stream mimetype name = any_fails T (
      write_string T (codes "4.pipe,")
      ∷ write_length_int T stream
      ∷ comma
      ∷ write_length_string T mimetype
      ∷ comma
      ∷ write_length_string T name
      ∷ semicolon
      ∷ [])

  -- `guac_protocol_send_img`
  unfoldable pub send_img :
      (stream mode layer : ℤ) (mimetype : Base.Bytes) (x y : ℤ) → Socket State → Bool × Socket State
  send_img stream mode layer mimetype x y = any_fails T (
      write_string T (codes "3.img,")
      ∷ write_length_int T stream
      ∷ comma
      ∷ write_length_int T mode
      ∷ comma
      ∷ write_length_int T layer
      ∷ comma
      ∷ write_length_string T mimetype
      ∷ comma
      ∷ write_length_int T x
      ∷ comma
      ∷ write_length_int T y
      ∷ semicolon
      ∷ [])

  -- `guac_protocol_send_rect`
  unfoldable pub send_rect : (layer x y width height : ℤ) → Socket State → Bool × Socket State
  send_rect layer x y width height = any_fails T (
      write_string T (codes "4.rect,")
      ∷ write_length_int T layer
      ∷ comma
      ∷ write_length_int T x
      ∷ comma
      ∷ write_length_int T y
      ∷ comma
      ∷ write_length_int T width
      ∷ comma
      ∷ write_length_int T height
      ∷ semicolon
      ∷ [])

  -- `guac_protocol_send_shade`
  unfoldable pub send_shade : (layer a : ℤ) → Socket State → Bool × Socket State
  send_shade layer a = any_fails T (
      write_string T (codes "5.shade,")
      ∷ write_length_int T layer
      ∷ comma
      ∷ write_length_int T a
      ∷ semicolon
      ∷ [])

  -- `guac_protocol_send_size`
  unfoldable pub send_size : (layer w h : ℤ) → Socket State → Bool × Socket State
  send_size layer w h = any_fails T (
      write_string T (codes "4.size,")
      ∷ write_length_int T layer
      ∷ comma
      ∷ write_length_int T w
      ∷ comma
      ∷ write_length_int T h
      ∷ semicolon
      ∷ [])

  -- `guac_protocol_send_sync`
  unfoldable pub send_sync : (timestamp : ℤ) → Socket State → Bool × Socket State
  send_sync timestamp =
      any_fails T (write_string T (codes "4.sync,") ∷ write_length_int T timestamp ∷ semicolon ∷ [])

  -- `guac_protocol_send_transfer`
  unfoldable pub send_transfer :
      (srcl srcx srcy w h fn dstl dstx dsty : ℤ) → Socket State → Bool × Socket State
  send_transfer srcl srcx srcy w h fn dstl dstx dsty = any_fails T (
      write_string T (codes "8.transfer,")
      ∷ write_length_int T srcl
      ∷ comma
      ∷ write_length_int T srcx
      ∷ comma
      ∷ write_length_int T srcy
      ∷ comma
      ∷ write_length_int T w
      ∷ comma
      ∷ write_length_int T h
      ∷ comma
      ∷ write_length_int T fn
      ∷ comma
      ∷ write_length_int T dstl
      ∷ comma
      ∷ write_length_int T dstx
      ∷ comma
      ∷ write_length_int T dsty
      ∷ semicolon
      ∷ [])
