-- ===== src/Rdmacm04/Server.antt =====
-- The functions of src/rdmacm04/server.c as programs: a thread's handle_request, and cm_event_loop
-- with main. What other threads do to the table between two calls of the main thread is in Threads.
mod Defs
pub mod Serving
pub mod Halting
pub mod Steps
pub mod Teardown
pub mod Thread
unfoldable pub use Defs.*
