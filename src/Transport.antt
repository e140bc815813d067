-- ===== src/Transport.antt =====
-- go-core/transport: what carries the control connection.
pub mod Xor
pub mod WsFrame
pub mod WebSocket
pub mod Noise
pub mod AutoCert
pub mod Stream
pub mod Factory
