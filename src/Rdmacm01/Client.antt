-- ===== src/Rdmacm01/Client.antt =====
-- src/rdmacm01/client.c: connect, and disconnect at once.
use rdma_tutorial.Prelude.{ℕ, not, List, ◌==◌, length}
use rdma_tutorial.Machine.{Prog, reason, die_if, ◌>>=◌, ◌>>◌}
use rdma_tutorial.Rdmacm05.Common.{Leftover}
use rdma_tutorial.Rdmacm.{connect_server, close_client}
use rdma_tutorial.Rdmacm01.Common.{setup_connection}

unfoldable pub main : Leftover → List (List ℕ) → Prog ℕ
main m argv = do
  die_if (not (length argv == 2)) (reason "usage: %s <server_ip>\n")
  c ← connect_server (setup_connection m)
  close_client c
