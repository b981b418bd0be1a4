-- ===== src/Rdmacm02/Server.antt =====
-- src/rdmacm02/server.c: a thread for each connection, which closes it once it is established. The
-- table of contexts, the loop over the events of the connection manager and main are the text of
-- src/rdmacm04/server.c.
pub mod Leak
pub mod Halting
use rdma_tutorial.Prelude.{ℕ}
use rdma_tutorial.External.{Call}
use rdma_tutorial.Machine.{Prog, tell, ignore, if_nzero_die, ◌>>=◌, ◌>>◌}
use rdma_tutorial.Rdmacm05.Common.{Leftover}
use rdma_tutorial.Rdmacm.{listen_for_clients, close_listener, conn_param}
use rdma_tutorial.Rdmacm02.Common.{setup_connection}
use rdma_tutorial.Rdmacm04.Table.{Table, max_threads, empty_table}
use rdma_tutorial.Rdmacm04.Server

-- the thread of the context `index`, whose id is `id`
unfoldable pub handle_request : Leftover → ℕ → ℕ → Prog (Unit {0})
handle_request m id index = do
  nc ← setup_connection m id
  if_nzero_die "rdma_accept(ctx->id, &conn_parm)" (Call.rdma_accept id conn_param)
  ignore (Call.sem_wait index)
  ignore (Call.rdma_disconnect id)
  ignore (Call.destroy_id id)
  tell (Call.clear_id index)
  tell (Call.sem_destroy index)

-- the text of src/rdmacm04/server.c
unfoldable pub cm_event_loop : (ℕ → Table → Table) → ℕ → ℕ → Table → Prog Table
cm_event_loop threads fuel ec tab = Server.cm_event_loop threads fuel ec tab

unfoldable pub main : (ℕ → Table → Table) → ℕ → Prog ℕ
main threads fuel = do
  listener ← listen_for_clients
  cm_event_loop threads fuel listener.ec (empty_table max_threads)
  close_listener listener
