-- ===== src/Parser.antt =====
-- guacamole/src/libguac/parser.c: the instruction parser. Its buffer is a list of bytes, and a
-- pointer into the buffer is an index. Lengths are C ints as their 32-bit patterns, so that the
-- sum that reads a length prefix wraps around as the machine's does.
mod Defs
mod Read
pub mod Element
pub mod Strings
pub mod Instruction
pub mod Rounds
pub mod Whole
pub mod Invariant
mod Tests
unfoldable pub use Defs.*
unfoldable pub use Read.*
