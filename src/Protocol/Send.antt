-- ===== src/Protocol/Send.antt =====
-- The `guac_protocol_send_…` functions, in two halves in the order of protocol.c.
mod Early
mod Late
unfoldable pub use Early.*
unfoldable pub use Late.*
