-- ===== src/Wire.antt =====
-- Byte order, from src/example03/rdma_common.h and the exchange of QP numbers in its client.c and
-- server.c. The order of the host is an argument: `__BYTE_ORDER` is one of the two that the header
-- accepts. A word of w bits is a number below 2 ^ w; memory is a list of bytes.
mod Defs
pub mod Exchange
unfoldable pub use Defs.*
