-- ===== src/Rdmacm01.antt =====
-- src/rdmacm01: one connection that is opened and closed.
pub mod Common
pub mod Client
pub mod Server
pub mod Ended
