-- ===== src/Rdmacm.antt =====
-- The two ends of a connection over librdmacm, as the mains of src/rdmacm01 to src/rdmacm05 open
-- and close them; what differs is the setup_connection, which is an argument.
mod Active
mod Passive
pub mod Opened
pub mod Closed
pub mod Echoes
pub mod Halting
unfoldable pub use Active.*
unfoldable pub use Passive.*
