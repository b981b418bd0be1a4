-- ===== src/Rdmacm05/Server/Defs.antt =====
-- The store of the server, its two event handlers and its main loop.
use rdma_tutorial.Prelude.{
  ℕ, zero, suc, true, false, not, Option, none, some, List, [], ◌∷◌, ◌==◌, if◌then◌else◌,
}
use rdma_tutorial.External.{
  ℤ, pos, negsuc, is_zero, is_negative, pos_part, Call, LibField, Size, Wc, WcOpcode, wc_send,
  wc_recv, wc_other, CmEventType, connect_request, established, disconnected, ConnParam,
}
use rdma_tutorial.Machine.{
  Prog, or_fault, reason, is_null, pure, die_if, fault_if, give_up, call, tell, ignore, ignore_if,
  tell_if, strcpy, if_null_die, if_nzero_die, ◌>>=◌, ◌>>◌,
}
use rdma_tutorial.Rdmacm05.Common.{Connection, buffer_size, setup_connection}

abbrev pub max_events : ℕ
max_events = 16

pub data ConnState : Type 0 where
  accepting established_state disconnected_state : ConnState

-- struct conn_context; a field that has not been assigned yet is `none`.
pub record ConnContext : Type 0 where
  pub id : ℕ
  pub conn : Option Connection
  pub state : Option ConnState

-- The contexts that are reachable: `rdma_cm_id` to the address of its `context` and what stands
-- there. An id that is not listed has the context NULL.
pub record Slot : Type 0 where
  pub owner : ℕ
  pub addr : ℕ
  pub cctx : ConnContext

abbrev pub Store : Type 0
Store = List Slot

abbrev pub find : ℕ → Store → Option Slot
find id [] = none
find id (s ∷ ss) = if s.owner == id then some s else find id ss

abbrev pub replace : Slot → Store → Store
replace new [] = []
replace new (s ∷ ss) = if s.owner == new.owner then new ∷ ss else s ∷ replace new ss

-- `id->context = ...`
abbrev pub put : Slot → Store → Store
put new st = elim (find new.owner st) [ none ↦ new ∷ st | some _ ↦ replace new st ]

-- `id->context = NULL`
abbrev pub clear : ℕ → Store → Store
clear id [] = []
clear id (s ∷ ss) = if s.owner == id then ss else s ∷ clear id ss

-- the connection at an address
abbrev pub deref : ℕ → Store → Option Connection
deref p [] = none
deref p (s ∷ ss) = elim s.cctx.conn [
  | none ↦ deref p ss
  | some nc ↦ if nc.self == p then some nc else deref p ss
]

abbrev pub conn_param : ConnParam
conn_param = record { retry_count = 3; rnr_retry_count = 7 }

-- the slot of a new request, before handle_new_request has filled it
abbrev pub new_slot : ℕ → ℕ → Slot
new_slot id addr = record {
  owner = id;
  addr = addr;
  cctx = record { id = id; conn = none; state = none };
}

abbrev pub accepted : ℕ → ℕ → Connection → Slot
accepted id addr nc = record {
  owner = id;
  addr = addr;
  cctx = record { id = id; conn = some nc; state = some accepting };
}

abbrev pub with_state : ConnState → Slot → Slot
with_state st s = record s { cctx = record (s.cctx) { state = some st } }

unfoldable pub handle_new_request : ℕ → ℕ → Slot → Store → Prog Store
handle_new_request epoll_fd cctx slot st = do
  nc ← setup_connection slot.cctx.id
  comp_fd ← call (Call.load LibField.fd_of_cc nc.cc)
  added ← call (Call.epoll_add comp_fd.value nc.cc)
  die_if (not (is_zero added.code)) (reason "Failed to register cq event fd")
  if_nzero_die "rdma_accept(cctx->id, &conn_parm)" (Call.rdma_accept slot.cctx.id conn_param)
  pure (put (accepted slot.owner cctx nc) st)

-- the objects of a connection, freed in the order of the source
unfoldable pub destroy_connection : Connection → Prog (Unit {0})
destroy_connection nc = do
  ignore_if nc.qp Call.destroy_qp
  ignore_if nc.cq Call.destroy_cq
  ignore_if nc.send_mr Call.dereg_mr
  ignore_if nc.recv_mr Call.dereg_mr
  tell_if nc.send_buff Call.free
  tell_if nc.recv_buff Call.free
  ignore_if nc.cc Call.destroy_comp_channel
  ignore_if nc.pd Call.dealloc_pd
  tell (Call.free nc.self)

-- the case RDMA_CM_EVENT_DISCONNECTED, once the context is known
unfoldable pub drop_connection : Slot → Store → Prog Store
drop_connection s st = do
  ignore (Call.rdma_disconnect s.cctx.id)
  gone ← call (Call.destroy_id s.cctx.id)
  nc ← or_fault s.cctx.conn
  comp_fd ← call (Call.load LibField.fd_of_cc nc.cc)
  ignore (Call.epoll_del comp_fd.value nc.cc)
  destroy_connection nc
  fault_if (is_zero gone.code)  -- `new_event.id->context = NULL` on an id that is freed
  tell (Call.free s.addr)
  pure (clear s.owner st)

unfoldable pub on_connect_request : ℕ → ℕ → Store → Prog Store
on_connect_request epoll_fd id st = do
  m ← call (Call.malloc Size.sizeof_conn_context)
  if m.ptr == 0
      then (ignore (Call.rdma_reject id) >> pure st)
      else handle_new_request epoll_fd m.ptr (new_slot id m.ptr) (put (new_slot id m.ptr) st)

-- `cctx->state = ...` with no test of `cctx`
unfoldable pub on_established : ℕ → Store → Prog Store
on_established id st = do s ← or_fault (find id st); pure (put (with_state established_state s) st)

unfoldable pub on_disconnected : ℕ → Store → Prog Store
on_disconnected id st = elim (find id st) [
  | none ↦ pure st
  | some s ↦ drop_connection (with_state disconnected_state s) st
]

-- the `switch` of handle_cm_event; its default case reads the event that was given back
unfoldable pub dispatch_cm_event : ℕ → CmEventType → ℕ → Store → Prog Store
dispatch_cm_event epoll_fd connect_request id st = on_connect_request epoll_fd id st
dispatch_cm_event epoll_fd established id st = on_established id st
dispatch_cm_event epoll_fd disconnected id st = on_disconnected id st
dispatch_cm_event epoll_fd _ id st = fault_if true >> pure st

-- The new store and the int that the function returns.
unfoldable pub handle_cm_event : ℕ → ℕ → Store → Prog (ℤ × Store)
handle_cm_event epoll_fd ec st = do
  r ← call (Call.get_cm_event ec)
  if is_zero r.code
      then (do
        ignore (Call.ack_cm_event r.event)
        st' ← dispatch_cm_event epoll_fd r.event.event r.event.id st
        pure (pos 0, st'))
      else pure (negsuc 0, st)

-- IBV_WC_RECV: copy the message, post the receive again, send the copy
unfoldable pub echo : Connection → Prog (Unit {0})
echo nc = do
  message ← call (Call.load_string nc.recv_buff)
  copy ← strcpy buffer_size message.bytes
  if_nzero_die "ibv_post_recv(nc->qp, &nc->recv_wr, &bad_rwr)" (Call.post_recv nc.qp nc.recv_wr)
  if_nzero_die "ibv_post_send(nc->qp, &nc->send_wr, &bad_swr)"
      (Call.post_send nc.qp nc.send_wr copy)
  pure tt

unfoldable pub dispatch_opcode : WcOpcode → ℕ → Store → Prog (Unit {0})
dispatch_opcode wc_send wr_id st = pure tt
dispatch_opcode wc_recv wr_id st = do nc ← or_fault (deref wr_id st); echo nc
dispatch_opcode (wc_other _) wr_id st = pure tt

-- one completion; its status is only logged
unfoldable pub handle_wc : Store → Wc → Prog (Unit {0})
handle_wc st wc = do
  die_if (wc.wr_id == 0) (is_null "nc = (struct connection *)(wc->wr_id)")
  dispatch_opcode wc.opcode wc.wr_id st

unfoldable pub handle_wcs : Store → List Wc → Prog (Unit {0})
handle_wcs st [] = pure tt
handle_wcs st (wc ∷ wcs) = handle_wc st wc >> handle_wcs st wcs

-- `do { ... } while (ne > 0)`: `fuel` bounds the polls.
unfoldable pub drain_cq : ℕ → ℕ → Store → Prog (Unit {0})
drain_cq zero cq st = give_up
drain_cq (suc fuel) cq st = do
  r ← call (Call.poll_cq cq 16)
  elim (is_negative r.code) [
    | true ↦ pure tt
    | false ↦ elim (is_zero r.code) [
      | true ↦ pure tt
      | false ↦ handle_wcs st r.wcs >> drain_cq fuel cq st
    ]
  ]

unfoldable pub handle_cq_event : ℕ → ℕ → Store → Prog ℤ
handle_cq_event fuel cc st = do
  e ← call (Call.get_cq_event cc)
  if is_zero e.code
      then (do
        tell (Call.ack_cq_events e.ptr 1)
        n ← call (Call.req_notify_cq e.ptr)
        if is_zero n.code then (drain_cq fuel e.ptr st >> pure (pos 0)) else pure (negsuc 0))
      else pure (negsuc 0)

-- the events of one epoll_wait
unfoldable pub handle_events : ℕ → ℕ → ℕ → List ℕ → Store → Prog Store
handle_events fuel epoll_fd ec [] st = pure st
handle_events fuel epoll_fd ec (p ∷ ps) st = do
  st' ←
      if p == ec
      then (handle_cm_event epoll_fd ec st >>= λ (r : ℤ × Store). pure r.1)
      else (handle_cq_event fuel p st >> pure st)
  handle_events fuel epoll_fd ec ps st'

-- EINTR of errno.h, on Linux
abbrev pub eintr : ℕ
eintr = 4

-- `while (keep_running)`; the reply of epoll_wait carries errno as its value.
unfoldable pub main_loop : ℕ → ℕ → ℕ → Store → Prog Store
main_loop zero epoll_fd ec st = give_up
main_loop (suc fuel) epoll_fd ec st = do
  k ← call Call.load_keep_running
  elim (is_zero k.code) [
    | true ↦ pure st
    | false ↦ do
      r ← call (Call.epoll_wait max_events 1000)
      elim (is_negative r.code) [
        | true ↦ elim (r.value == eintr) [ true ↦ main_loop fuel epoll_fd ec st | false ↦ pure st ]
        | false ↦ elim (is_zero r.code) [
          | true ↦ main_loop fuel epoll_fd ec st
          | false ↦ handle_events fuel epoll_fd ec r.ptrs st >>= main_loop fuel epoll_fd ec
        ]
      ]
  ]

-- `fuel` bounds the rounds of the main loop and of each drain.
unfoldable pub main : ℕ → Prog ℕ
main fuel = do
  ec ← if_null_die "ec = rdma_create_event_channel()" Call.create_event_channel
  listener ← if_nzero_die "rdma_create_id(ec, &listener, NULL, RDMA_PS_TCP)" (Call.create_id ec)
  if_nzero_die "getaddrinfo(NULL, PORT, &hints, &ai)" Call.getaddrinfo
  if_nzero_die "rdma_bind_addr(listener, ai->ai_addr)" (Call.bind_addr listener.ptr)
  tell Call.freeaddrinfo
  if_nzero_die "rdma_listen(listener, 10)" (Call.rdma_listen listener.ptr 10)
  epoll ← call Call.epoll_create
  die_if (is_negative epoll.code) (reason "Failed to create epoll fd")
  listen_fd ← call (Call.load LibField.fd_of_ec ec)
  added ← call (Call.epoll_add listen_fd.value ec)
  die_if (not (is_zero added.code)) (reason "Failed to register listen fd")
  main_loop fuel (pos_part epoll.code) ec []
  ignore (Call.destroy_id listener.ptr)
  tell (Call.destroy_event_channel ec)
  ignore_if (pos_part epoll.code) Call.close
  pure 0
