-- ===== src/Agwpe.antt =====
-- client/src/transport/agwpe.rs: the frames of the AGWPE protocol and the transport over them.
pub mod Types
pub mod Frame
pub mod Stream
pub mod Transport
