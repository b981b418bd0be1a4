-- ===== src/Rdmacm02.antt =====
-- src/rdmacm02: connections that are opened and closed, each in a thread of the server.
pub mod Common
pub mod Server
pub mod Client
