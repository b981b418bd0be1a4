-- ===== src/External.antt =====
-- The vocabulary of the libraries that the programs call: libibverbs, librdmacm, sockets and the
-- parts of libc that touch the world. Their code is not in the repository: a call is a value of
-- `Call`, and what it gives back is a `Reply`, which the model takes from a script.
-- A handle or pointer is a number, and 0 is NULL.
mod Types
mod Calls
pub use Types.*
pub use Calls.*
