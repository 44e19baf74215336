-- ===== src/Terminal/Write.antt =====
-- guacamole/src/protocols/ssh/terminal.c: the writing of bytes to a terminal, each by the handler that
-- the bytes before it have left.
use occamy.Base.{ℕ, Option, List, [], ◌∷◌}
use occamy.Base
use occamy.Base.Int.{ℤ}
use occamy.Terminal.Char.{Color}
use occamy.Terminal.Echo.{echo_byte}
use occamy.Terminal.Escape.{escape_byte, g0_charset_byte, g1_charset_byte}
use occamy.Terminal.Csi.{csi_byte}
use occamy.Terminal.Osc.{
  set_directory_byte, download_byte, open_pipe_stream_byte, close_pipe_stream_byte,
  window_title_byte, xterm_palette_byte, osc_byte, ctrl_func_byte, apc_byte,
}
use occamy.Terminal.State.{
  Terminal, Handler, echo, escape, csi, g0_charset, g1_charset, osc, ctrl_func, apc, download,
  set_directory, open_pipe_stream, close_pipe_stream, window_title, xterm_palette,
}

-- What the handlers call outside of this model: the C library's `wcwidth` and `atoi`, the parser of
-- colors, and the width that is left unset.
pub record Environment : Type 0 where
  pub wcwidth : ℕ → ℤ
  pub atoi : Base.Bytes → ℤ
  pub xparsecolor : Base.Bytes → Option Color
  pub unset_width : ℕ

module _ (env : Environment) where
  unfoldable pub handle : Handler → ℕ → Terminal → Terminal
  handle echo c term = echo_byte env.wcwidth c term
  handle escape c term = escape_byte c term
  handle csi c term = csi_byte env.atoi c term
  handle g0_charset c term = g0_charset_byte c term
  handle g1_charset c term = g1_charset_byte c term
  handle osc c term = osc_byte c term
  handle ctrl_func c term = ctrl_func_byte env.unset_width c term
  handle apc c term = apc_byte c term
  handle download c term = download_byte c term
  handle set_directory c term = set_directory_byte c term
  handle open_pipe_stream c term = open_pipe_stream_byte c term
  handle close_pipe_stream c term = close_pipe_stream_byte c term
  handle window_title c term = window_title_byte c term
  handle xterm_palette c term = xterm_palette_byte env.xparsecolor c term

  -- The loop of `guac_terminal_write`; the typescript is left out.
  unfoldable pub write : Base.Bytes → Terminal → Terminal
  write [] term = term
  write (c ∷ bytes) term = write bytes (handle term.char_handler c term)
