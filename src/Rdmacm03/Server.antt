-- ===== src/Rdmacm03/Server.antt =====
-- src/rdmacm03/server.c.
mod Defs
pub mod Serving
pub mod Halting
pub mod Progress
unfoldable pub use Defs.*
