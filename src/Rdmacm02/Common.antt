-- ===== src/Rdmacm02/Common.antt =====
-- setup_connection of src/rdmacm02/common.c: as in src/rdmacm05, but no one writes the `wr_id` of
-- the requests.
use rdma_tutorial.Prelude.{ℕ}
use rdma_tutorial.Machine.{Prog}
use rdma_tutorial.Rdmacm05.Common.{Connection, Variant, Leftover, own_variant, build_connection}

abbrev pub variant : Leftover → Variant
variant m = record own_variant { recv_wr_id = λ _. m.recv_wr_id; send_wr_id = λ _. m.send_wr_id }

unfoldable pub setup_connection : Leftover → ℕ → Prog Connection
unfolding build_connection
setup_connection m cm_id = build_connection (variant m) cm_id
