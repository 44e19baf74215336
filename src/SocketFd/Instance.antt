-- ===== src/SocketFd/Instance.antt =====
-- A socket over a file descriptor (guacamole/src/libguac/socket-fd.c) as the transport that the rest
-- of the library writes through.
use occamy.Base.{
  ℕ, ◌+◌, ◌≤◌, ◌≡◌, ◌≢◌, refl, sym, ap, ◌∙◌, arith, Bool, true, false, Option, none, some, List, [],
  ◌∷◌, ◌++◌, length, take, take_all, if◌then◌else◌,
}
use occamy.Base
use occamy.Socket.{Transport, Socket}
use occamy.Socket.Writes.{IsReliable}
use occamy.SocketFd.{FdData, write_buffered, fd_flush}
use occamy.SocketFd.Buffer.{IsValid, contents, Accepts, write_buffered-Accepts, fd_flush-Flushes}
use occamy.Protocol.{Message, send, instruction, elements}
use occamy.Protocol.Delivery.{send-Delivers}

module _ (F : Transport) where
  -- The data of a socket that `guac_socket_open` made.
  abbrev pub FdState : Type 0
  FdState = (data' : FdData F.State) × IsValid F data'

  -- The return value of the write handler: the whole count, or `none` for -1.
  abbrev pub count_or_error : Bool → ℕ → Option ℕ
  count_or_error true count = none
  count_or_error false count = some count

  abbrev pub write_handler : FdState → Base.Bytes → Option ℕ × FdState
  write_handler (data', v) block =
      let (failed, data'') = write_buffered F data' block in
      (
        count_or_error failed (length block),
        (data'', (write_buffered-Accepts F data' block v).valid),
      )

  pub takes :
      (data' : FdData F.State) (block : Base.Bytes) (n : ℕ) (result : Bool × FdData F.State)
      → Accepts F data' block result
      → count_or_error result.0 (length block) ≡ some n
      → block ≢ []
      → (1 ≤ n) × (n ≤ length block) × (contents F result.1 ≡ contents F data' ++ take n block)
  takes data' block n (true, r) a e ne = cc
  takes data' [] n (false, r) a e ne = absurd (ne refl)
  takes data' (x ∷ block) n (false, r) a e ne =
      let same : length (x ∷ block) ≡ n = cc in
      (
        omega arith,
        omega arith,
        a.accepted refl
            ∙ ap (λ p. contents F data' ++ p) (sym (take_all n (x ∷ block) (omega arith))),
      )

  abbrev pub fd_transport : Transport
  fd_transport = record {
    State = FdState;
    write = write_handler;
    sent = λ s. contents F s.0;
    write_takes =
        λ s block n e ne. takes s.0 block n _ (write_buffered-Accepts F s.0 block s.1) e ne;
  }

  some_count : (count : ℕ) (failed : Bool) → failed ≡ false → count_or_error failed count ≢ none
  some_count count true h = λ e. cc
  some_count count false h = λ e. cc

  pub fd_transport-IsReliable : IsReliable F → IsReliable fd_transport
  fd_transport-IsReliable reliable s block =
      some_count (length block) _ ((write_buffered-Accepts F s.0 block s.1).succeeds reliable)

  -- Over a descriptor that never fails, sending an instruction and flushing the socket succeeds, and
  -- the descriptor has then taken all that the socket was handed before and the whole instruction.
  pub send_and_flush :
      (m : Message) (socket : Socket FdState)
      → IsReliable F
      → let (failed, socket') = send fd_transport m socket in
        let (failed', data') = fd_flush F socket'.handler.0 in
        (failed ≡ false)
        × (failed' ≡ false)
        × (F.sent data'.fd ≡ contents F socket.handler.0 ++ instruction (elements m))
  send_and_flush m socket reliable =
      let d = send-Delivers fd_transport m socket in
      let after = (send fd_transport m socket).1.handler in
      let f = fd_flush-Flushes F after.0 after.1 in
      let sent_all = d.succeeds (fd_transport-IsReliable reliable) in
      let flushed_all = f.succeeds reliable in
      (sent_all, flushed_all, f.flushed flushed_all ∙ d.delivered sent_all)
