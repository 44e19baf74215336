-- ===== src/SocketFd/Tests.antt =====
-- A socket over a descriptor that takes three bytes a call, and the theorems over it.
use occamy.Base.{
  ℕ, ◌≡◌, ◌++◌, refl, arith, Bool, false, none, [], ◌∷◌, codes, replicate, length-replicate,
}
use occamy.Base
use occamy.Base.Int.{pos}
use occamy.Socket.{Socket}
use occamy.Socket.Tests.{slow}
use occamy.Socket.Writes.{IsReliable}
use occamy.SocketFd.{FdData, fd_open, fd_flush, write_buffered, out_size}
use occamy.SocketFd.Buffer.{IsValid, contents, Accepts, write_buffered-Accepts}
use occamy.SocketFd.Instance.{FdState, fd_transport, send_and_flush}
use occamy.Protocol.{send, sync, instruction, elements}

abbrev opened : FdData Base.Bytes
opened = fd_open [] (replicate out_size 0)

opened-IsValid : IsValid slow opened
unfolding fd_open
opened-IsValid = record { size = length-replicate {A = ℕ} out_size 0; inside = omega arith }

slow-IsReliable : IsReliable slow
slow-IsReliable s block = λ e. cc

abbrev socket : Socket (FdState slow)
socket = record { handler = (opened, opened-IsValid); ready = 0; ready_buf = [] }

write_buffered-Accepts_example :
    Accepts slow opened (codes "4.sync,") (write_buffered slow opened (codes "4.sync,"))
write_buffered-Accepts_example = write_buffered-Accepts slow opened (codes "4.sync,") opened-IsValid

send_and_flush_example :
    let (failed, socket') = send (fd_transport slow) (sync (pos 7)) socket in
    let (failed', data') = fd_flush slow socket'.handler.0 in
    (failed ≡ false)
    × (failed' ≡ false)
    × (data'.fd ≡ contents slow opened ++ instruction (elements (sync (pos 7))))
send_and_flush_example = send_and_flush slow (sync (pos 7)) socket slow-IsReliable
