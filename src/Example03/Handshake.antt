-- ===== src/Example03/Handshake.antt =====
-- The two programs from their start to the state RTS: each tells the other its queue pair over TCP.
mod Parts
pub mod Connected
