-- ===== src/Rdmacm05.antt =====
-- src/rdmacm05: an echo server that serves every connection from one epoll loop, and its client.
pub mod Common
pub mod Client
pub mod Server
