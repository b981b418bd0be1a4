-- ===== src/Libc.antt =====
-- What the programs use of libc's text functions, on C strings as lists of bytes without the NUL.
mod Decimal
mod Atoi
pub mod Read
mod Time
unfoldable pub use Decimal.*
unfoldable pub use Time.*
unfoldable pub use Atoi.*
