-- ===== src/Rdmacm05/Server.antt =====
-- src/rdmacm05/server.c. The heap objects of the program are in a `Store`; the client's data
-- reaches it through `load_string`, the C string that the device has written.
mod Defs
pub mod Teardown
pub mod Ownership
pub mod Echo
pub mod Halting
pub mod Contexts
pub mod Loop
pub mod Invariant
pub mod Parts
pub mod Still
pub mod Growing
pub mod Contract
pub mod Refines
pub mod History
pub mod Ledger
pub mod Balance
unfoldable pub use Defs.*
