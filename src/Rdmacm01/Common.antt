-- ===== src/Rdmacm01/Common.antt =====
-- setup_connection of src/rdmacm01/common.c: as in src/rdmacm05, but no one writes the `wr_id` and
-- the `next` of the requests, and the text of a macro has other blanks.
use Prim.Native.String.{String}
use rdma_tutorial.Prelude.{ℕ}
use rdma_tutorial.Machine.{Prog}
use rdma_tutorial.Rdmacm05.Common.{Connection, Variant, Leftover, post_recv_text, build_connection}

abbrev reg_text : String
reg_text =
    "nc->send_mr = ibv_reg_mr( nc->pd, nc->send_buff, BUFFER_SIZE, IBV_ACCESS_LOCAL_WRITE|IBV_ACCESS_REMOTE_WRITE)"

abbrev pub variant : Leftover → Variant
variant m = record {
  recv_wr_id = λ _. m.recv_wr_id;
  send_wr_id = λ _. m.send_wr_id;
  recv_next = m.recv_next;
  send_next = m.send_next;
  send_mr_text = reg_text;
  post_text = post_recv_text;
}

unfoldable pub setup_connection : Leftover → ℕ → Prog Connection
unfolding build_connection
setup_connection m cm_id = build_connection (variant m) cm_id
