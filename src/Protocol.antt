-- ===== src/Protocol.antt =====
-- shared/src/protocol.rs: the requests and responses on the air.
pub mod Types
pub mod Base64
pub mod Request
pub mod Response
