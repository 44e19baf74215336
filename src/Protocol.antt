-- ===== src/Protocol.antt =====
-- guacamole/src/libguac/protocol.c: how instructions are written to a socket, and the decoder of
-- base64. A chain `a || b || c` of calls is the list of these calls: they are made in order, up to
-- the first one that reports an error (true). The instruction handlers that lock and unlock the
-- socket around each instruction hold no state of this model.
mod Calls
mod Send
pub mod Wire
pub mod Writers
pub mod Delivery
pub mod Decode
mod Tests
pub use Calls.*
unfoldable pub use Send.*
pub use Wire.*
