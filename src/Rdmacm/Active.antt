-- ===== src/Rdmacm/Active.antt =====
-- The connecting end, from src/rdmacm01/client.c on.
use rdma_tutorial.Prelude.{ℕ}
use rdma_tutorial.External.{
  Call, CmEventType, ConnParam, addr_resolved, route_resolved, established,
}
use rdma_tutorial.Machine.{Prog, pure, tell, ignore, if_null_die, if_nzero_die, ◌>>=◌, ◌>>◌}
use rdma_tutorial.Rdmacm05.Common.{Connection, check_cm_event}

-- rdma_get_cm_event, check_cm_event and rdma_ack_cm_event; the result is the id of the event.
unfoldable pub await_event : ℕ → CmEventType → Prog ℕ
await_event ec exp = do
  r ← if_nzero_die "rdma_get_cm_event(ec, &event)" (Call.get_cm_event ec)
  check_cm_event r.event exp
  ignore (Call.ack_cm_event r.event)
  pure r.event.id

abbrev pub conn_param : ConnParam
conn_param = record { retry_count = 3; rnr_retry_count = 7 }

-- the event channel, the id and the connection of a client
pub record Client : Type 0 where
  pub ec : ℕ
  pub conn : ℕ
  pub nc : Connection

-- main after the test of its arguments, up to ESTABLISHED
unfoldable pub connect_server : (ℕ → Prog Connection) → Prog Client
connect_server setup = do
  ec ← if_null_die "ec = rdma_create_event_channel()" Call.create_event_channel
  conn ← if_nzero_die "rdma_create_id(ec, &conn, NULL, RDMA_PS_TCP)" (Call.create_id ec)
  if_nzero_die "getaddrinfo(argv[1], PORT, &hints, &ai)" Call.getaddrinfo
  if_nzero_die "rdma_resolve_addr(conn, NULL, ai->ai_addr, 2000)" (Call.resolve_addr conn.ptr 2000)
  tell Call.freeaddrinfo
  await_event ec addr_resolved
  if_nzero_die "rdma_resolve_route(conn, 2000)" (Call.resolve_route conn.ptr 2000)
  await_event ec route_resolved
  nc ← setup conn.ptr
  if_nzero_die "rdma_connect(conn, &conn_param)" (Call.rdma_connect conn.ptr conn_param)
  await_event ec established
  pure (record { ec = ec; conn = conn.ptr; nc = nc })

-- `cleanup` and `return 0`
unfoldable pub close_client : Client → Prog ℕ
close_client c = do
  ignore (Call.rdma_disconnect c.conn)
  ignore (Call.destroy_id c.conn)
  tell (Call.destroy_event_channel c.ec)
  pure 0
