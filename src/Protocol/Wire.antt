-- ===== src/Protocol/Wire.antt =====
-- The wire format that the functions of protocol.c promise: an instruction is its elements, each
-- with its length in characters in front, separated by commas and closed by a semicolon.
use occamy.Base.{Bool, List, [], ◌∷◌, ◌++◌, codes}
use occamy.Base
use occamy.Base.Int.{ℤ}
use occamy.Base.Decimal.{decimal, decimal_int}
use occamy.Unicode.{utf8_strlen}
use occamy.Socket.{Transport, Socket}
use occamy.Protocol.Send.{
  send_ack, send_body, send_cfill, send_clip, send_clipboard, send_copy, send_cursor,
  send_disconnect, send_dispose, send_end, send_error, send_file, send_filesystem, send_mouse,
  send_move, send_name, send_pipe, send_img, send_rect, send_shade, send_size, send_sync,
  send_transfer,
}

-- An element with its length.
abbrev pub element : Base.Bytes → Base.Bytes
element e = decimal (utf8_strlen e) ++ (b'.' ∷ e)

-- What follows an element.
abbrev pub after_element : List Base.Bytes → Base.Bytes
after_element [] = b';' ∷ []
after_element (e ∷ es) = b',' ∷ (element e ++ after_element es)

-- An instruction of at least one element, its opcode.
abbrev pub instruction : List Base.Bytes → Base.Bytes
instruction [] = []
instruction (e ∷ es) = element e ++ after_element es

-- What can be sent, with the arguments of the function that sends it.
pub data Message : Type 0 where
  ack : (stream : ℤ) → (message : Base.Bytes) → (status : ℤ) → Message
  body : (object stream : ℤ) → (mimetype name : Base.Bytes) → Message
  cfill : (mode layer r g b a : ℤ) → Message
  clip : (layer : ℤ) → Message
  clipboard : (stream : ℤ) → (mimetype : Base.Bytes) → Message
  copy_rect : (srcl srcx srcy w h mode dstl dstx dsty : ℤ) → Message
  cursor : (x y srcl srcx srcy w h : ℤ) → Message
  disconnect : Message
  dispose : (layer : ℤ) → Message
  end_stream : (stream : ℤ) → Message
  error_message : (message : Base.Bytes) → (status : ℤ) → Message
  file_stream : (stream : ℤ) → (mimetype name : Base.Bytes) → Message
  filesystem : (object : ℤ) → (name : Base.Bytes) → Message
  mouse_state : (x y button_mask timestamp : ℤ) → Message
  move_layer : (layer parent x y z : ℤ) → Message
  connection_name : (name : Base.Bytes) → Message
  pipe : (stream : ℤ) → (mimetype name : Base.Bytes) → Message
  img : (stream mode layer : ℤ) → (mimetype : Base.Bytes) → (x y : ℤ) → Message
  rect : (layer x y width height : ℤ) → Message
  shade : (layer a : ℤ) → Message
  layer_size : (layer w h : ℤ) → Message
  sync : (timestamp : ℤ) → Message
  transfer : (srcl srcx srcy w h fn dstl dstx dsty : ℤ) → Message

-- The opcode and the arguments of each instruction of the Guacamole protocol.
abbrev pub elements : Message → List Base.Bytes
elements (ack stream message status) =
    codes "ack" ∷ decimal_int stream ∷ message ∷ decimal_int status ∷ []
elements (body object stream mimetype name) =
    codes "body" ∷ decimal_int object ∷ decimal_int stream ∷ mimetype ∷ name ∷ []
elements (cfill mode layer r g b a) =
    codes "cfill"
    ∷ decimal_int mode
    ∷ decimal_int layer
    ∷ decimal_int r
    ∷ decimal_int g
    ∷ decimal_int b
    ∷ decimal_int a
    ∷ []
elements (clip layer) = codes "clip" ∷ decimal_int layer ∷ []
elements (clipboard stream mimetype) = codes "clipboard" ∷ decimal_int stream ∷ mimetype ∷ []
elements (copy_rect srcl srcx srcy w h mode dstl dstx dsty) =
    codes "copy"
    ∷ decimal_int srcl
    ∷ decimal_int srcx
    ∷ decimal_int srcy
    ∷ decimal_int w
    ∷ decimal_int h
    ∷ decimal_int mode
    ∷ decimal_int dstl
    ∷ decimal_int dstx
    ∷ decimal_int dsty
    ∷ []
elements (cursor x y srcl srcx srcy w h) =
    codes "cursor"
    ∷ decimal_int x
    ∷ decimal_int y
    ∷ decimal_int srcl
    ∷ decimal_int srcx
    ∷ decimal_int srcy
    ∷ decimal_int w
    ∷ decimal_int h
    ∷ []
elements disconnect = codes "disconnect" ∷ []
elements (dispose layer) = codes "dispose" ∷ decimal_int layer ∷ []
elements (end_stream stream) = codes "end" ∷ decimal_int stream ∷ []
elements (error_message message status) = codes "error" ∷ message ∷ decimal_int status ∷ []
elements (file_stream stream mimetype name) =
    codes "file" ∷ decimal_int stream ∷ mimetype ∷ name ∷ []
elements (filesystem object name) = codes "filesystem" ∷ decimal_int object ∷ name ∷ []
elements (mouse_state x y button_mask timestamp) =
    codes "mouse"
    ∷ decimal_int x
    ∷ decimal_int y
    ∷ decimal_int button_mask
    ∷ decimal_int timestamp
    ∷ []
elements (move_layer layer parent x y z) =
    codes "move"
    ∷ decimal_int layer
    ∷ decimal_int parent
    ∷ decimal_int x
    ∷ decimal_int y
    ∷ decimal_int z
    ∷ []
elements (connection_name name) = codes "name" ∷ name ∷ []
elements (pipe stream mimetype name) = codes "pipe" ∷ decimal_int stream ∷ mimetype ∷ name ∷ []
elements (img stream mode layer mimetype x y) =
    codes "img"
    ∷ decimal_int stream
    ∷ decimal_int mode
    ∷ decimal_int layer
    ∷ mimetype
    ∷ decimal_int x
    ∷ decimal_int y
    ∷ []
elements (rect layer x y width height) =
    codes "rect"
    ∷ decimal_int layer
    ∷ decimal_int x
    ∷ decimal_int y
    ∷ decimal_int width
    ∷ decimal_int height
    ∷ []
elements (shade layer a) = codes "shade" ∷ decimal_int layer ∷ decimal_int a ∷ []
elements (layer_size layer w h) =
    codes "size" ∷ decimal_int layer ∷ decimal_int w ∷ decimal_int h ∷ []
elements (sync timestamp) = codes "sync" ∷ decimal_int timestamp ∷ []
elements (transfer srcl srcx srcy w h fn dstl dstx dsty) =
    codes "transfer"
    ∷ decimal_int srcl
    ∷ decimal_int srcx
    ∷ decimal_int srcy
    ∷ decimal_int w
    ∷ decimal_int h
    ∷ decimal_int fn
    ∷ decimal_int dstl
    ∷ decimal_int dstx
    ∷ decimal_int dsty
    ∷ []

module _ (T : Transport) where
  open T use {State}

  -- The call of protocol.c for each message.
  abbrev pub send : Message → Socket State → Bool × Socket State
  send (ack stream message status) = send_ack T stream message status
  send (body object stream mimetype name) = send_body T object stream mimetype name
  send (cfill mode layer r g b a) = send_cfill T mode layer r g b a
  send (clip layer) = send_clip T layer
  send (clipboard stream mimetype) = send_clipboard T stream mimetype
  send (copy_rect srcl srcx srcy w h mode dstl dstx dsty) =
      send_copy T srcl srcx srcy w h mode dstl dstx dsty
  send (cursor x y srcl srcx srcy w h) = send_cursor T x y srcl srcx srcy w h
  send disconnect = send_disconnect T
  send (dispose layer) = send_dispose T layer
  send (end_stream stream) = send_end T stream
  send (error_message message status) = send_error T message status
  send (file_stream stream mimetype name) = send_file T stream mimetype name
  send (filesystem object name) = send_filesystem T object name
  send (mouse_state x y button_mask timestamp) = send_mouse T x y button_mask timestamp
  send (move_layer layer parent x y z) = send_move T layer parent x y z
  send (connection_name name) = send_name T name
  send (pipe stream mimetype name) = send_pipe T stream mimetype name
  send (img stream mode layer mimetype x y) = send_img T stream mode layer mimetype x y
  send (rect layer x y width height) = send_rect T layer x y width height
  send (shade layer a) = send_shade T layer a
  send (layer_size layer w h) = send_size T layer w h
  send (sync timestamp) = send_sync T timestamp
  send (transfer srcl srcx srcy w h fn dstl dstx dsty) =
      send_transfer T srcl srcx srcy w h fn dstl dstx dsty
