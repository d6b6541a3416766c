-- ===== src/Tests.antt =====
-- The theorems at concrete inputs.
mod Wire
mod Modem
mod Gate
mod Sessions
mod Panel
mod Drive
mod Pages
mod Actor
mod Browse
mod Doors
mod Hosts
