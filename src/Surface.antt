-- ===== src/Surface.antt =====
-- guacamole/src/common/surface.c: the surfaces that an RDP, a VNC or an SSH display draws on. What has
-- changed is collected in a rectangle and in a queue of rectangles, and sent when the surface is flushed.
pub mod Rect
pub mod State
pub mod Flush
pub mod Pending
pub mod Rounds
pub mod Sent
pub mod Flushed
pub mod Draw
pub mod Filled
pub mod Colored
pub mod Kept
mod Tests
