-- ===== src/Rdmacm05/Client.antt =====
-- src/rdmacm05/client.c: connects, then sends `count` messages and waits for the echo of each.
mod Defs
pub mod Rounds
pub mod Progress
pub mod Program
unfoldable pub use Defs.*
