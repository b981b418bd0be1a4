-- ===== src/Rdmacm/Passive.antt =====
-- The listening end, from src/rdmacm01/server.c and src/rdmacm02/server.c on.
use rdma_tutorial.Prelude.{ℕ}
use rdma_tutorial.External.{Call, connect_request, established}
use rdma_tutorial.Machine.{Prog, pure, tell, ignore, if_null_die, if_nzero_die, ◌>>=◌, ◌>>◌}
use rdma_tutorial.Rdmacm05.Common.{Connection}
use rdma_tutorial.Rdmacm.Active.{await_event, conn_param}

-- the event channel and the id that listens
pub record Listener : Type 0 where
  pub ec : ℕ
  pub id : ℕ

-- main up to rdma_listen and freeaddrinfo
unfoldable pub listen_for_clients : Prog Listener
listen_for_clients = do
  ec ← if_null_die "ec = rdma_create_event_channel()" Call.create_event_channel
  listener ← if_nzero_die "rdma_create_id(ec, &listener, NULL, RDMA_PS_TCP)" (Call.create_id ec)
  if_nzero_die "getaddrinfo(NULL, PORT, &hints, &ai)" Call.getaddrinfo
  if_nzero_die "rdma_bind_addr(listener, ai->ai_addr)" (Call.bind_addr listener.ptr)
  if_nzero_die "rdma_listen(listener, 10)" (Call.rdma_listen listener.ptr 10)
  tell Call.freeaddrinfo
  pure (record { ec = ec; id = listener.ptr })

-- the one client of a server with no threads
pub record Accepted : Type 0 where
  pub listener : Listener
  pub client_id : ℕ
  pub nc : Connection

-- from there up to ESTABLISHED
unfoldable pub accept_client : (ℕ → Prog Connection) → Listener → Prog Accepted
accept_client setup listener = do
  client_id ← await_event listener.ec connect_request
  nc ← setup client_id
  if_nzero_die "rdma_accept(client_id, &conn_parm)" (Call.rdma_accept client_id conn_param)
  await_event listener.ec established
  pure (record { listener = listener; client_id = client_id; nc = nc })

-- what every server ends with
unfoldable pub close_listener : Listener → Prog ℕ
close_listener l = do ignore (Call.destroy_id l.id); tell (Call.destroy_event_channel l.ec); pure 0

unfoldable pub close_server : Accepted → Prog ℕ
close_server a = do
  ignore (Call.rdma_disconnect a.client_id)
  ignore (Call.destroy_id a.client_id)
  close_listener a.listener
