-- ===== src/Machine.antt =====
-- A program is a function on the world: the script of replies that the libraries have still to
-- give, and the trace of the calls made so far. The macros and `die` of the headers are here.
mod Defs
pub mod Ends
pub mod Finishes
pub mod Rest
pub mod Halts
pub mod Follows
pub mod Grows
pub mod Leaves
pub mod Ruins
pub mod Loops
pub mod Uses
pub mod Reaches
pub mod Yields
pub mod Observe
unfoldable pub use Defs.*
