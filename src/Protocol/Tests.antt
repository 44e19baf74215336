-- ===== src/Protocol/Tests.antt =====
-- Instructions sent at concrete arguments, and the theorems at such inputs.
use occamy.Base.{◌≡◌, refl, arith, codes}
use occamy.Base.Int.{pos, negsuc}
use occamy.Base.Decimal.{decimal, decimal_int}
use occamy.Unicode.{charsize, strlen_from, utf8_strlen}
use occamy.Socket.{socket_write, write_loop, write_string, write_int}
use occamy.Socket.Base64.{encode64}
use occamy.Socket.Writes.{Delivers}
use occamy.Socket.Tests.{slow, new_socket}
use occamy.Protocol.Calls.{any_fails, write_length_string, write_length_int}
use occamy.Protocol.Send.{send_move}
use occamy.Protocol.Wire.{instruction, elements, move_layer, send}
use occamy.Protocol.Delivery.{send-Delivers}
use occamy.Protocol.Decode.{decode_base64, decode_from, base64_value, decode_base64-encode64}

sent_move :
    (send_move slow (pos 3) (pos 0) (negsuc 4) (pos 120) (pos 1) new_socket).1.handler
    ≡ codes "4.move,1.3,1.0,2.-5,3.120,1.1;"
unfolding send_move any_fails write_length_int write_length_string write_string write_int
    socket_write write_loop decimal_int decimal utf8_strlen strlen_from charsize
sent_move = refl

decode_hi : decode_base64 (codes "aGkhIQ==") ≡ codes "hi!!"
unfolding decode_base64 decode_from base64_value
decode_hi = refl

send-Delivers_example :
    Delivers slow new_socket
      (instruction (elements (move_layer (pos 3) (pos 0) (negsuc 4) (pos 120) (pos 1))))
      (send slow (move_layer (pos 3) (pos 0) (negsuc 4) (pos 120) (pos 1)) new_socket)
send-Delivers_example =
    send-Delivers slow (move_layer (pos 3) (pos 0) (negsuc 4) (pos 120) (pos 1)) new_socket

decode_base64-encode64_example : decode_base64 (encode64 (codes "hi!!")) ≡ codes "hi!!"
decode_base64-encode64_example = decode_base64-encode64 (codes "hi!!") (omega arith)
