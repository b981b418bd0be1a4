-- ===== src/Rdmacm04.antt =====
-- src/rdmacm04: an echo server with one thread for each connection.
pub mod Table
pub mod Threads
pub mod Server
pub mod Client
