-- ===== src/Server.antt =====
-- go-core/server/server.go: session pools, the handling of clients and of visitors.
pub mod Pool
pub mod Auth
pub mod Run
