-- ===== src/Terminal/Pipe.antt =====
-- guacamole/src/protocols/ssh/terminal.c: the stream that output can be redirected to.
use occamy.Base.{
  ℕ, zero, suc, ◌+◌, ◌-◌, ◌*◌, ◌/◌, ◌==◌, ltb, leb, ◌&&◌, ◌||◌, not, if◌then◌else◌, Bool, true,
  false, Option, none, some, List, [], ◌∷◌, ◌++◌, length, replicate, codes,
}
use occamy.Base
use occamy.Terminal.State.{Terminal, call, pipe_begins, pipe_data, pipe_ends}

-- `guac_terminal_pipe_stream_flush`
unfoldable pub pipe_stream_flush : Terminal → Terminal
pipe_stream_flush term =
    if term.pipe_stream && ltb 0 (length term.pipe_buffer)
    then record (call (pipe_data term.pipe_buffer) term) { pipe_buffer = [] }
    else term

-- `guac_terminal_pipe_stream_close`
unfoldable pub pipe_stream_close : Terminal → Terminal
pipe_stream_close term =
    if term.pipe_stream
    then record (call pipe_ends (pipe_stream_flush term)) { pipe_stream = false }
    else term

-- `guac_terminal_pipe_stream_open`, where the client has a stream left.
unfoldable pub pipe_stream_open : Base.Bytes → Terminal → Terminal
pipe_stream_open name term =
    call (pipe_begins name)
      (record (pipe_stream_close term) { pipe_stream = true; pipe_buffer = [] })

-- `guac_terminal_pipe_stream_write`, for a buffer of 6048 bytes.
unfoldable pub pipe_stream_write : ℕ → Terminal → Terminal
pipe_stream_write c term =
    let flushed = if length term.pipe_buffer == 6048 then pipe_stream_flush term else term in
    if term.pipe_stream
    then record flushed { pipe_buffer = flushed.pipe_buffer ++ (c ∷ []) }
    else term
