-- ===== src/Server.antt =====
-- The server: server/src of the repository.
pub mod Blocklist
pub mod Filter
pub mod Admission
pub mod OriginCc
pub mod Reader
pub mod Fetch
pub mod Handshake
pub mod Service
