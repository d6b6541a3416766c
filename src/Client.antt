-- ===== src/Client.antt =====
-- The client: client/src of the repository, but for its transports.
pub mod Session
pub mod Manager
pub mod Cache
pub mod Front
pub mod Consent
pub mod Guard
pub mod State
