-- ===== src/Lib.antt =====
-- The Guacamole core of Occamy (guacamole/src): the C library that speaks the Guacamole protocol
-- between a browser and a remote desktop.
--
-- A client's instruction comes in through a socket, the parser (guacamole/src/libguac/parser.c)
-- finds its elements in a buffer, and a handler (guacamole/src/libguac/user-handlers.c) acts on it; what the server draws goes out as
-- instructions that guacamole/src/libguac/protocol.c writes element by element through
-- guacamole/src/libguac/socket.c. The length in front of each element counts characters, by
-- guacamole/src/libguac/unicode.c. A user's streams and objects, and a client's layers and buffers, get
-- their indices from pools (guacamole/src/libguac/pool.c). An RDP client's requests for files name
-- paths on a virtual drive, which become paths below a directory of the server
-- (guacamole/src/protocols/rdp/rdp_fs.c).
--
-- Which file models which part:
--   Base      the vocabulary: bytes, arrays as lists, decimal numbers, bit operations
--   Unicode   guacamole/src/libguac/unicode.c: `charsize` is guac_utf8_charsize, `utf8_strlen`
--             guac_utf8_strlen, `utf8_write` and `utf8_read` guac_utf8_write and guac_utf8_read
--   Socket    guacamole/src/libguac/socket.c: `socket_write`, `write_base64`, `flush_base64` and
--             their helpers; a socket's write handler is the record `Transport`, a parameter, which
--             promises that a call which does not fail takes a prefix of the block that is not empty
--   SocketFd  guacamole/src/libguac/socket-fd.c: `write_buffered` and `fd_flush` are the write and
--             flush handlers of a socket over a file descriptor, which implement the interface
--             `Transport`; the descriptor is one itself
--   Protocol  guacamole/src/libguac/protocol.c: a function `send_x` for each guac_protocol_send_x,
--             and the base64 decoder
--   Parser    guacamole/src/libguac/parser.c: `append` is guac_parser_append, `read` is
--             guac_parser_read over the list of what the socket's select and read answer
--   Pool      guacamole/src/libguac/pool.c: `next_int` and `free_int` are guac_pool_next_int and
--             guac_pool_free_int
--   User      guacamole/src/libguac/user.c and user-handlers.c: the streams and objects of a user, over two
--             pools, and the arguments of a connection; Handlers has `handle_x` for each
--             __guac_handle_x, Inputs the input streams, Lag the lag, and Dispatch has
--             guac_user_handle_instruction and the input loop, over what the parser reads
--   Client    guacamole/src/libguac/client.c: the layers, buffers and streams of a client, over three
--             pools; Users has the list of its users, which is linked through them
--   Fs        guacamole/src/protocols/rdp/rdp_fs.c: the paths of the drive that a client shares with an
--             RDP server; `normalize_path`, `convert_path`, `translate_path` and `append_filename` are
--             the functions of these names
--   Clipboard guacamole/src/common/clipboard.c: the shared clipboard, and how it is sent to a user
--   Iconv     guacamole/src/common/iconv.c: readers and writers of encodings, and `iconv`, which is
--             guac_iconv on fuel that the caller gives
--   Keyboard  guacamole/src/protocols/rdp/keyboard.c and decompose.c: the keys of an RDP session, with the
--             events that were sent to the server; `send_event` is guac_rdp_keyboard_send_event on fuel,
--             and `update_keysym` is guac_rdp_keyboard_update_keysym; Keys has the keymap
--   Surface   guacamole/src/common/surface.c: the surfaces that displays draw on; Rect has the
--             rectangles, State the surface and its dirty rectangle, Flush the flushing (`flush_updates`
--             is __guac_common_surface_flush) and Draw the filling of rectangles. The pixels are a
--             function of their coordinates
--   Terminal  guacamole/src/protocols/ssh: the terminal emulator of SSH sessions. Buffer is
--             terminal_buffer.c, Screen, Scroll, State, Tabs and Pipe are terminal.c (what is shown, and the
--             rest of the state); Echo, Escape, Cases, Csi, Graphics and Osc are terminal_handlers.c, a function
--             `x_byte` for each handler guac_terminal_x; Write is guac_terminal_write, which gives
--             each byte to the handler that the bytes before it have left; Encode is the encoder of
--             typed characters in terminal_common.c
--
-- Integers: an `int` that is never negative is a natural number; where the code lets a length wrap
-- around, the wrap to 32 bits is written out, also of an `int`, whose overflow C leaves undefined.
-- The place of the terminal's cursor and the amounts added to it are unbounded integers, so control
-- sequences are those of the code only where no `int` overflows. Pointers into a buffer are indices.
--
-- Fuel: the loop of guac_socket_write runs on as much fuel as there are bytes, each round takes
-- one at least; the base64 flush on four rounds, three fill the ready buffer; the loop over an
-- element's content on as much fuel as there are bytes; the loop over a file descriptor likewise,
-- and the loop that buffers for it on twice as much and one, since a round that only flushes is
-- followed by one that takes a byte; the flush of a surface on one round for each place of its
-- queue; the loop that sends the clipboard on as much fuel as there are bytes; guac_parser_read on
-- fuel that the caller gives, for which a theorem says how much is enough; a key event on as much as its
-- caller gives, of which 3 are enough: the key, a key that types it, and a modifier of that.
--
-- Parameters: the answers of sockets and descriptors; the C library's wcwidth, atoi, strtol and qsort; the handlers
-- of users that other code sets, which change a user as they like; FreeRDP's constants; the parser of
-- color names; and the width that guac_terminal_ctrl_func leaves unset. A terminal whose code has
-- reached outside of its arrays has no buffer any more, and what it shows says nothing then.
--
-- Not modelled: locks, threads and memory allocation failures; everything that calls cairo, libpng,
-- FreeRDP, libssh2 or libvncclient; the Go server, the web client and the vendored packages.
pub mod Base
pub mod Unicode
pub mod Socket
pub mod SocketFd
pub mod Protocol
pub mod Parser
pub mod Pool
pub mod User
pub mod Client
pub mod Fs
pub mod Clipboard
pub mod Iconv
pub mod Keyboard
pub mod Surface
pub mod Terminal
