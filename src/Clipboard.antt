-- ===== src/Clipboard.antt =====
-- guacamole/src/common/clipboard.c: the clipboard that a connection shares with its users. Its buffer
-- is a list of as many bytes as are available, of which `length` are in use.
pub mod Contents
mod Tests
use occamy.Base.{
  ℕ, zero, suc, ◌+◌, ◌-◌, ◌*◌, ltb, if◌then◌else◌, Option, none, some, List, [], ◌∷◌, ◌++◌, length,
  take, drop, min,
}
use occamy.Base
use occamy.Base.Int.{pos}
use occamy.Socket.{Transport, Socket}
use occamy.Protocol.{send_clipboard, send_blob, send_end}
use occamy.User.{User, alloc_stream, free_stream}

-- `guac_common_clipboard`, where `size` is its field `length`.
pub record Clipboard : Type 0 where
  pub mimetype : Base.Bytes
  pub buffer : Base.Bytes
  pub size : ℕ
  pub available : ℕ

-- `GUAC_COMMON_CLIPBOARD_BLOCK_SIZE`
abbrev pub max_block : ℕ
max_block = 4096

-- `guac_common_clipboard_alloc`; the buffer is as `malloc` left it.
unfoldable pub alloc : Base.Bytes → Clipboard
alloc buffer = record { mimetype = []; buffer = buffer; size = 0; available = length buffer }

-- `guac_common_clipboard_reset`; the array of the type has 256 bytes.
unfoldable pub reset : Clipboard → Base.Bytes → Clipboard
reset clipboard mimetype = record clipboard { size = 0; mimetype = take 255 mimetype }

-- `guac_common_clipboard_append`
unfoldable pub append : Clipboard → Base.Bytes → Clipboard
append clipboard text =
    let remaining = clipboard.available - clipboard.size in
    let added = if ltb remaining (length text) then remaining else length text in
    record clipboard {
      buffer =
          take clipboard.size clipboard.buffer
          ++ (take added text ++ drop (clipboard.size + added) clipboard.buffer);
      size = clipboard.size + added;
    }

-- The blocks that the loop of `__send_user_clipboard` sends, of what remains at `current`. A round
-- sends one byte at least, so as much fuel as bytes is enough.
unfoldable pub blocks : ℕ → Base.Bytes → ℕ → List Base.Bytes
blocks fuel current zero = []
blocks zero current (suc remaining) = []
blocks (suc fuel) current (suc remaining) =
    let block_size = if ltb (suc remaining) max_block then suc remaining else max_block in
    take block_size current ∷ blocks fuel (drop block_size current) (suc remaining - block_size)

module _ (T : Transport) where
  open T use {State}

  unfoldable pub send_blocks : ℕ → List Base.Bytes → Socket State → Socket State
  send_blocks stream [] socket = socket
  send_blocks stream (block ∷ rest) socket =
      send_blocks stream rest (send_blob T (pos stream) block socket).1

  -- `__send_user_clipboard`, over the user's socket. Where the user has no stream left, the code
  -- follows a null pointer: `none`. The results of the functions that send are ignored.
  unfoldable pub send_user_clipboard :
      Clipboard → User → Socket State → Option (User × Socket State)
  send_user_clipboard clipboard user socket =
      let (stream, user') = alloc_stream user in
      elim stream [
        | none ↦ none
        | some at ↦
            let begun = (send_clipboard T (pos (at * 2)) clipboard.mimetype socket).1 in
            let sent =
              send_blocks (at * 2) (blocks clipboard.size clipboard.buffer clipboard.size) begun in
            some (free_stream user' at, (send_end T (pos (at * 2)) sent).1)
      ]
