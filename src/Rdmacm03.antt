-- ===== src/Rdmacm03.antt =====
-- src/rdmacm03: an echo server for one client, and the client.
pub mod Common
pub mod Server
pub mod Client
pub mod Conversation
