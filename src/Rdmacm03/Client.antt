-- ===== src/Rdmacm03/Client.antt =====
-- src/rdmacm03/client.c: the text of src/rdmacm04/client.c, over its own setup_connection.
use rdma_tutorial.Prelude.{ℕ, not, List, ◌==◌, length}
use rdma_tutorial.Machine.{Prog, reason, die_if, ◌>>◌}
use rdma_tutorial.Rdmacm05.Common.{Leftover}
use rdma_tutorial.Rdmacm04.Client.{talk}
use rdma_tutorial.Rdmacm03.Common.{setup_connection}

unfoldable pub main : Leftover → List (List ℕ) → Prog ℕ
main m argv = do
  die_if (not (length argv == 2)) (reason "usage: %s <server_ip>\n")
  talk (setup_connection m)
