-- ===== src/Example03.antt =====
-- src/example03: an echo pair over one RC queue pair, whose numbers are exchanged over TCP.
pub mod Common
pub mod Client
pub mod Server
pub mod Rounds
pub mod Echoing
pub mod Handshake
