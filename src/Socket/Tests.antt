-- ===== src/Socket/Tests.antt =====
-- The socket over a handler that takes three bytes a call, and the theorems over it.
use occamy.Base.{
  ℕ, ◌+◌, ◌≤◌, ◌≡◌, ◌≢◌, refl, ap, arith, Bool, true, false, Option, none, some, List, [], ◌∷◌,
  ◌++◌, length, min, take, codes,
}
use occamy.Base
use occamy.Socket.{
  Transport, Socket, socket_write, write_loop, write_base64, write_base64_byte, write_ready,
  write_base64_triplet, triplet_output, flush_base64, base64_char,
}
use occamy.Socket.Writes.{Delivers, socket_write-Delivers}
use occamy.Socket.Encoder.{encode_all, Encodes, encode_all-Encodes}
use occamy.Socket.Base64.{encode64}

abbrev write_some : Base.Bytes → Base.Bytes → Option ℕ × Base.Bytes
write_some out block = (some (min 3 (length block)), out ++ take (min 3 (length block)) block)

pub write_some_takes :
    (out block : Base.Bytes) (n : ℕ)
    → (write_some out block).0 ≡ some n
    → block ≢ []
    → (1 ≤ n) × (n ≤ length block) × ((write_some out block).1 ≡ out ++ take n block)
write_some_takes out [] n e ne = absurd (ne refl)
write_some_takes out (x ∷ block) n e ne =
    let i : min 3 (length (x ∷ block)) ≡ n = cc in
    (omega arith, omega arith, ap (λ k. out ++ take k (x ∷ block)) i)

abbrev pub slow : Transport
slow = record {
  State = Base.Bytes;
  write = write_some;
  sent = λ out. out;
  write_takes = write_some_takes;
}

abbrev pub new_socket : Socket Base.Bytes
new_socket = record { handler = []; ready = 0; ready_buf = none ∷ none ∷ none ∷ [] }

write_in_parts :
    (socket_write slow (codes "instruction") new_socket).1.handler ≡ codes "instruction"
unfolding socket_write write_loop
write_in_parts = refl

encode_hi : (encode_all slow (codes "hi!!") new_socket).1.handler ≡ codes "aGkhIQ=="
unfolding socket_write write_loop write_base64 write_base64_byte write_ready write_base64_triplet
    triplet_output flush_base64 base64_char
encode_hi = refl

socket_write-Delivers_example :
    Delivers slow new_socket
      (codes "instruction")
      (socket_write slow (codes "instruction") new_socket)
socket_write-Delivers_example = socket_write-Delivers slow new_socket (codes "instruction")

encode_all-Encodes_example :
    Encodes slow new_socket (encode64 (codes "hi!!")) (encode_all slow (codes "hi!!") new_socket)
encode_all-Encodes_example =
    encode_all-Encodes slow (codes "hi!!") new_socket (omega arith) refl refl
