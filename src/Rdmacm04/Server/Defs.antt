-- ===== src/Rdmacm04/Server/Defs.antt =====
-- handle_request, cm_event_loop and main.
use rdma_tutorial.Prelude.{ℕ, zero, suc, Bool, true, false, Option, none, ◌==◌, ltb, if◌then◌else◌}
use rdma_tutorial.External.{
  is_zero, is_negative, Call, CmEventType, connect_request, established, disconnected,
}
use rdma_tutorial.Machine.{
  Prog, pure, give_up, call, tell, ignore, ignore_if, tell_if, poll, if_nzero_die, ◌>>=◌, ◌>>◌,
}
use rdma_tutorial.Rdmacm05.Common.{Connection, Variant, Leftover, own_variant, build_connection}
use rdma_tutorial.Rdmacm.{listen_for_clients, close_listener, conn_param}
use rdma_tutorial.Rdmacm03.Server.{serve_completion, serve_loop}
use rdma_tutorial.Rdmacm04.Table.{
  Table, max_threads, index_of, set_at, taken, post_established, empty_table,
}

-- As in src/rdmacm05, but no one writes the `wr_id` of the requests: it is what malloc has left
-- there.
abbrev pub variant : Leftover → Variant
variant m = record own_variant { recv_wr_id = λ _. m.recv_wr_id; send_wr_id = λ _. m.send_wr_id }

unfoldable pub setup_connection : Leftover → ℕ → Prog Connection
unfolding build_connection
setup_connection m cm_id = build_connection (variant m) cm_id

-- one round of the loop; `none` is a `break` or the `goto`
unfoldable pub serve_once : Connection → ℕ → Prog (Option ℕ)
serve_once nc i = do
  got ← poll (Call.poll_cq nc.cq 1)
  if is_negative got.code then pure none else serve_completion nc i got.wc

-- `while (i < 10)`: the round after the poll, and the loop, are those of src/rdmacm03.
unfoldable pub serve : ℕ → Connection → ℕ → Prog (Unit {0})
serve fuel nc i = serve_loop (serve_once nc) fuel i

-- the releases after the label `err`
unfoldable pub close_connection : Connection → Prog (Unit {0})
close_connection nc = do
  ignore_if nc.cc Call.destroy_comp_channel
  ignore_if nc.qp Call.destroy_qp
  ignore_if nc.cq Call.destroy_cq
  ignore_if nc.send_mr Call.dereg_mr
  ignore_if nc.recv_mr Call.dereg_mr
  tell_if nc.send_buff Call.free
  tell_if nc.recv_buff Call.free
  ignore_if nc.pd Call.dealloc_pd
  tell (Call.free nc.self)

-- the thread of the context `index`, whose id is `id`; Threads has its `id = NULL` and its calls on
-- the semaphore as steps of the table that all threads share
unfoldable pub handle_request : ℕ → Leftover → ℕ → ℕ → Prog (Unit {0})
handle_request fuel m id index = do
  nc ← setup_connection m id
  if_nzero_die "rdma_accept(ctx->id, &conn_parm)" (Call.rdma_accept id conn_param)
  ignore (Call.sem_wait index)
  serve fuel nc 0
  ignore (Call.rdma_disconnect id)
  ignore (Call.destroy_id id)
  close_connection nc
  tell (Call.clear_id index)
  tell (Call.sem_destroy index)

-- RDMA_CM_EVENT_CONNECT_REQUEST
unfoldable pub on_connect_request : ℕ → Table → Prog Table
on_connect_request id tab =
    if index_of 0 tab == max_threads then (ignore (Call.rdma_reject id) >> pure tab) else (do
      r ← call (Call.thread_create (index_of 0 tab))
      if is_zero r.code
          then pure (set_at (index_of 0 tab) (taken id (index_of 0 tab)) tab)
          else (ignore (Call.rdma_reject id)
              >> pure (set_at (index_of 0 tab) (taken id (index_of 0 tab)) tab)))

-- RDMA_CM_EVENT_ESTABLISHED
abbrev pub on_established : ℕ → Table → Table
on_established id tab = if ltb (index_of id tab) max_threads then post_established id tab else tab

-- the `switch`: the table and `should_break`
unfoldable pub dispatch_cm_event : CmEventType → ℕ → Table → Prog (Table × Bool)
dispatch_cm_event connect_request id tab = do tab' ← on_connect_request id tab; pure (tab', false)
dispatch_cm_event established id tab = pure (on_established id tab, false)
dispatch_cm_event disconnected id tab = pure (tab, false)
dispatch_cm_event _ id tab = pure (tab, true)

-- one round of the loop
unfoldable pub handle_cm_event : ℕ → Table → Prog (Table × Bool)
handle_cm_event ec tab = do
  r ← if_nzero_die "rdma_get_cm_event(ec, &event)" (Call.get_cm_event ec)
  next ← dispatch_cm_event r.event.event r.event.id tab
  ignore (Call.ack_cm_event r.event)
  pure next

-- `threads k` is what the other threads make of the table, by their steps of Threads, from one
-- round to the next, with `k` rounds to go.
unfoldable pub cm_event_loop : (ℕ → Table → Table) → ℕ → ℕ → Table → Prog Table
cm_event_loop threads zero ec tab = give_up
cm_event_loop threads (suc fuel) ec tab = do
  next ← handle_cm_event ec (threads fuel tab)
  elim next.1 [ true ↦ pure next.0 | false ↦ cm_event_loop threads fuel ec next.0 ]

unfoldable pub main : (ℕ → Table → Table) → ℕ → Prog ℕ
main threads fuel = do
  listener ← listen_for_clients
  cm_event_loop threads fuel listener.ec (empty_table max_threads)
  close_listener listener
