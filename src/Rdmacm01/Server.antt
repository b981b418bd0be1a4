-- ===== src/Rdmacm01/Server.antt =====
-- src/rdmacm01/server.c: accept one client, and disconnect at once.
use rdma_tutorial.Prelude.{ℕ}
use rdma_tutorial.Machine.{Prog, ◌>>=◌}
use rdma_tutorial.Rdmacm05.Common.{Leftover}
use rdma_tutorial.Rdmacm.{listen_for_clients, accept_client, close_server}
use rdma_tutorial.Rdmacm01.Common.{setup_connection}

unfoldable pub main : Leftover → Prog ℕ
main m = do
  listener ← listen_for_clients
  a ← accept_client (setup_connection m) listener
  close_server a
