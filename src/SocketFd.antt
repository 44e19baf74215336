-- ===== src/SocketFd.antt =====
-- guacamole/src/libguac/socket-fd.c: a socket over a file descriptor, with a buffer of its own. The
-- system call `write` on the descriptor is the parameter `fd`: like a socket's handler it fails or
-- takes a prefix of the block that is not empty. Locks hold no state of this model.
pub mod Buffer
pub mod Instance
mod Tests
use occamy.Base.{
  ℕ, zero, suc, ◌+◌, ◌-◌, ◌*◌, ◌==◌, ltb, if◌then◌else◌, Bool, true, false, Option, none, some,
  List, [], ◌∷◌, ◌++◌, length, take, drop,
}
use occamy.Base
use occamy.Socket.{Transport}

-- `GUAC_SOCKET_OUTPUT_BUFFER_SIZE`
abbrev pub out_size : ℕ
out_size = 8192

-- `guac_socket_fd_data`
pub record FdData (S : Type 0) : Type 0 where
  pub fd : S
  pub written : ℕ
  pub out_buf : Base.Bytes

module _ (F : Transport) where
  open F use {State, write}

  -- The loop of `guac_socket_fd_write`; true is a negative return value, false is 0. Every round
  -- writes a byte at least, so as much fuel as bytes is enough.
  unfoldable pub fd_write_loop : ℕ → State → Base.Bytes → Bool × State
  fd_write_loop fuel fd [] = (false, fd)
  fd_write_loop zero fd (x ∷ buffer) = (true, fd)
  fd_write_loop (suc fuel) fd (x ∷ buffer) =
      let (retval, fd') = write fd (x ∷ buffer) in
      elim retval [ none ↦ (true, fd') | some n ↦ fd_write_loop fuel fd' (drop n (x ∷ buffer)) ]

  -- `guac_socket_fd_write`
  unfoldable pub fd_write : State → Base.Bytes → Bool × State
  fd_write fd buffer = fd_write_loop (length buffer) fd buffer

  -- `guac_socket_fd_flush`, and `guac_socket_fd_flush_handler`; true is non-zero.
  unfoldable pub fd_flush : FdData State → Bool × FdData State
  fd_flush data' =
      let (failed, fd) = fd_write data'.fd (take data'.written data'.out_buf) in
      if ltb 0 data'.written
      then (failed, record data' { fd = fd; written = if failed then data'.written else 0 })
      else (false, data')

  -- The chunk that is appended to the buffer.
  unfoldable pub append_chunk : FdData State → Base.Bytes → ℕ → FdData State
  append_chunk data' current chunk_size = record data' {
    out_buf =
        take data'.written data'.out_buf
        ++ (take chunk_size current ++ drop (data'.written + chunk_size) data'.out_buf);
    written = data'.written + chunk_size;
  }

  -- The loop of `guac_socket_fd_write_buffered`; true is the return value -1. A round that flushes is
  -- followed by one that appends a byte at least.
  unfoldable pub buffered_loop : ℕ → FdData State → Base.Bytes → Bool × FdData State
  buffered_loop fuel data' [] = (false, data')
  buffered_loop zero data' (x ∷ current) = (true, data')
  buffered_loop (suc fuel) data' (x ∷ current) =
      let remaining = out_size - data'.written in
      let count = length (x ∷ current) in
      let chunk_size = if ltb remaining count then remaining else count in
      elim (remaining == 0) [
        | true ↦
            let (failed, flushed) = fd_flush data' in
            elim failed [
              | true ↦ (true, flushed)
              | false ↦ buffered_loop fuel flushed (x ∷ current)
            ]
        | false ↦
            buffered_loop fuel (append_chunk data' (x ∷ current) chunk_size)
              (drop chunk_size (x ∷ current))
      ]

  -- `guac_socket_fd_write_buffered`, and `guac_socket_fd_write_handler`.
  unfoldable pub write_buffered : FdData State → Base.Bytes → Bool × FdData State
  write_buffered data' buf = buffered_loop (length buf + length buf + 1) data' buf

-- `guac_socket_open`; the buffer is as `malloc` left it.
unfoldable pub fd_open : {S : Type 0} → S → Base.Bytes → FdData S
fd_open fd out_buf = record { fd = fd; written = 0; out_buf = out_buf }
