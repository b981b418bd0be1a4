-- ===== src/Resources.antt =====
-- The lifetime of the objects that libibverbs and malloc hand out: `Defs` is the contract, read off
-- a trace, and `Releases` has the lemmas on giving objects back.
mod Defs
pub mod Releases
pub mod Honest
pub mod Apart
pub mod Standing
pub use Defs.*
