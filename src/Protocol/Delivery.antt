-- ===== src/Protocol/Delivery.antt =====
-- Every function that sends an instruction delivers exactly its encoding.
use occamy.Base.{refl}
use occamy.Base.Decimal.{decimal}
use occamy.Unicode.{charsize, strlen_from, utf8_strlen}
use occamy.Socket.{Transport, Socket}
use occamy.Socket.Writes.{Delivers}
use occamy.Protocol.Wire.{
  Message, instruction, elements, send, ack, body, cfill, clip, clipboard, copy_rect, cursor,
  disconnect, dispose, end_stream, error_message, file_stream, filesystem, mouse_state, move_layer,
  connection_name, pipe, img, rect, shade, layer_size, sync, transfer,
}
use occamy.Protocol.Send.{
  send_ack, send_body, send_cfill, send_clip, send_clipboard, send_copy, send_cursor,
  send_disconnect, send_dispose, send_end, send_error, send_file, send_filesystem, send_mouse,
  send_move, send_name, send_pipe, send_img, send_rect, send_shade, send_size, send_sync,
  send_transfer,
}
use occamy.Protocol.Writers.{lit, int, str, as_bytes, done}

module _ (T : Transport) where
  open T use {State, sent}

  -- Each function that sends an instruction of strings and integers delivers the encoding of its
  -- opcode and arguments, whole and in order, or reports an error; over a handler that reports none
  -- it does deliver. The length that stands in front of each opcode is thereby the right one.
  pub send-Delivers :
      (m : Message) (socket : Socket State)
      → Delivers T socket (instruction (elements m)) (send T m socket)
  unfolding send_ack send_body send_cfill send_clip send_clipboard send_copy send_cursor
      send_disconnect send_dispose send_end send_error send_file send_filesystem send_mouse
      send_move send_name send_pipe send_img send_rect send_shade send_size send_sync send_transfer
      decimal utf8_strlen strlen_from charsize
  send-Delivers (ack stream message status) =
      as_bytes T _ _ _
        (lit T _ _ _ (
          int T _ _ _
            (lit T _ _ _ (str T _ _ _ (lit T _ _ _ (int T _ _ _ (lit T _ _ _ (done T))))))))
        refl
  send-Delivers (body object stream mimetype name) =
      as_bytes T _ _ _
        (lit T _ _ _ (
          int T _ _ _ (
            lit T _ _ _ (
              int T _ _ _
                (lit T _ _ _ (str T _ _ _ (lit T _ _ _ (str T _ _ _ (lit T _ _ _ (done T))))))))))
        refl
  send-Delivers (cfill mode layer r g b a) =
      as_bytes T _ _ _
        (lit T _ _ _ (
          int T _ _ _ (
            lit T _ _ _ (
              int T _ _ _ (
                lit T _ _ _ (
                  int T _ _ _ (
                    lit T _ _ _ (
                      int T _ _ _ (
                        lit T _ _ _
                          (int T _ _ _ (lit T _ _ _ (int T _ _ _ (lit T _ _ _ (done T))))))))))))))
        refl
  send-Delivers (clip layer) =
      as_bytes T _ _ _ (lit T _ _ _ (int T _ _ _ (lit T _ _ _ (done T)))) refl
  send-Delivers (clipboard stream mimetype) =
      as_bytes T _ _ _
        (lit T _ _ _ (int T _ _ _ (lit T _ _ _ (str T _ _ _ (lit T _ _ _ (done T)))))) refl
  send-Delivers (copy_rect srcl srcx srcy w h mode dstl dstx dsty) =
      as_bytes T _ _ _
        (lit T _ _ _ (
          int T _ _ _ (
            lit T _ _ _ (
              int T _ _ _ (
                lit T _ _ _ (
                  int T _ _ _ (
                    lit T _ _ _ (
                      int T _ _ _ (
                        lit T _ _ _ (
                          int T _ _ _ (
                            lit T _ _ _ (
                              int T _ _ _ (
                                lit T _ _ _ (
                                  int T _ _ _ (
                                    lit T _ _ _ (
                                      int T _ _ _ (
                                        lit T _ _ _
                                          (int T _ _ _ (lit T _ _ _ (done T))))))))))))))))))))
        refl
  send-Delivers (cursor x y srcl srcx srcy w h) =
      as_bytes T _ _ _
        (lit T _ _ _ (
          int T _ _ _ (
            lit T _ _ _ (
              int T _ _ _ (
                lit T _ _ _ (
                  int T _ _ _ (
                    lit T _ _ _ (
                      int T _ _ _ (
                        lit T _ _ _ (
                          int T _ _ _ (
                            lit T _ _ _ (
                              int T _ _ _
                                (lit T _ _ _ (int T _ _ _ (lit T _ _ _ (done T))))))))))))))))
        refl
  send-Delivers disconnect = as_bytes T _ _ _ (lit T _ _ _ (done T)) refl
  send-Delivers (dispose layer) =
      as_bytes T _ _ _ (lit T _ _ _ (int T _ _ _ (lit T _ _ _ (done T)))) refl
  send-Delivers (end_stream stream) =
      as_bytes T _ _ _ (lit T _ _ _ (int T _ _ _ (lit T _ _ _ (done T)))) refl
  send-Delivers (error_message message status) =
      as_bytes T _ _ _
        (lit T _ _ _ (str T _ _ _ (lit T _ _ _ (int T _ _ _ (lit T _ _ _ (done T)))))) refl
  send-Delivers (file_stream stream mimetype name) =
      as_bytes T _ _ _
        (lit T _ _ _ (
          int T _ _ _
            (lit T _ _ _ (str T _ _ _ (lit T _ _ _ (str T _ _ _ (lit T _ _ _ (done T))))))))
        refl
  send-Delivers (filesystem object name) =
      as_bytes T _ _ _
        (lit T _ _ _ (int T _ _ _ (lit T _ _ _ (str T _ _ _ (lit T _ _ _ (done T)))))) refl
  send-Delivers (mouse_state x y button_mask timestamp) =
      as_bytes T _ _ _
        (lit T _ _ _ (
          int T _ _ _ (
            lit T _ _ _ (
              int T _ _ _
                (lit T _ _ _ (int T _ _ _ (lit T _ _ _ (int T _ _ _ (lit T _ _ _ (done T))))))))))
        refl
  send-Delivers (move_layer layer parent x y z) =
      as_bytes T _ _ _
        (lit T _ _ _ (
          int T _ _ _ (
            lit T _ _ _ (
              int T _ _ _ (
                lit T _ _ _ (
                  int T _ _ _ (
                    lit T _ _ _
                      (int T _ _ _ (lit T _ _ _ (int T _ _ _ (lit T _ _ _ (done T))))))))))))
        refl
  send-Delivers (connection_name name) =
      as_bytes T _ _ _ (lit T _ _ _ (str T _ _ _ (lit T _ _ _ (done T)))) refl
  send-Delivers (pipe stream mimetype name) =
      as_bytes T _ _ _
        (lit T _ _ _ (
          int T _ _ _
            (lit T _ _ _ (str T _ _ _ (lit T _ _ _ (str T _ _ _ (lit T _ _ _ (done T))))))))
        refl
  send-Delivers (img stream mode layer mimetype x y) =
      as_bytes T _ _ _
        (lit T _ _ _ (
          int T _ _ _ (
            lit T _ _ _ (
              int T _ _ _ (
                lit T _ _ _ (
                  int T _ _ _ (
                    lit T _ _ _ (
                      str T _ _ _ (
                        lit T _ _ _
                          (int T _ _ _ (lit T _ _ _ (int T _ _ _ (lit T _ _ _ (done T))))))))))))))
        refl
  send-Delivers (rect layer x y width height) =
      as_bytes T _ _ _
        (lit T _ _ _ (
          int T _ _ _ (
            lit T _ _ _ (
              int T _ _ _ (
                lit T _ _ _ (
                  int T _ _ _ (
                    lit T _ _ _
                      (int T _ _ _ (lit T _ _ _ (int T _ _ _ (lit T _ _ _ (done T))))))))))))
        refl
  send-Delivers (shade layer a) =
      as_bytes T _ _ _
        (lit T _ _ _ (int T _ _ _ (lit T _ _ _ (int T _ _ _ (lit T _ _ _ (done T)))))) refl
  send-Delivers (layer_size layer w h) =
      as_bytes T _ _ _
        (lit T _ _ _ (
          int T _ _ _
            (lit T _ _ _ (int T _ _ _ (lit T _ _ _ (int T _ _ _ (lit T _ _ _ (done T))))))))
        refl
  send-Delivers (sync timestamp) =
      as_bytes T _ _ _ (lit T _ _ _ (int T _ _ _ (lit T _ _ _ (done T)))) refl
  send-Delivers (transfer srcl srcx srcy w h fn dstl dstx dsty) =
      as_bytes T _ _ _
        (lit T _ _ _ (
          int T _ _ _ (
            lit T _ _ _ (
              int T _ _ _ (
                lit T _ _ _ (
                  int T _ _ _ (
                    lit T _ _ _ (
                      int T _ _ _ (
                        lit T _ _ _ (
                          int T _ _ _ (
                            lit T _ _ _ (
                              int T _ _ _ (
                                lit T _ _ _ (
                                  int T _ _ _ (
                                    lit T _ _ _ (
                                      int T _ _ _ (
                                        lit T _ _ _
                                          (int T _ _ _ (lit T _ _ _ (done T))))))))))))))))))))
        refl
