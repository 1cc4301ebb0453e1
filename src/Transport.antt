-- ===== src/Transport.antt =====
-- internal/transport and internal/trust: frames, the trust store, and the gate of the RPC server.
pub mod Frame
pub mod Trust
pub mod Server
pub mod Client
mod Tests
