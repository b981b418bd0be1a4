-- ===== src/Rdmacm05/Common.antt =====
-- src/rdmacm05/common.h and common.c: a connection with its buffers and work requests, and the
-- helpers that the programs share. The common.c of rdmacm01 to rdmacm04 is the same text, but that
-- it leaves the `wr_id` of the two work requests unset, and rdmacm01 their `next` too, and for two
-- texts that the macros print; so `build_connection` takes these as a `Variant`. Logging has no
-- effect that is modelled.
pub mod Setup
pub mod Logging
pub mod Events
use Prim.Native.String.{String}
use rdma_tutorial.Prelude.{ℕ, Bool, true, false, List, [], ◌∷◌, ◌==◌, if◌then◌else◌}
use rdma_tutorial.External.{
  Call, LibField, Size, Sge, RecvWr, SendWr, SendFlag, WrOpcode, AccessFlag, QpInitAttr, QpType,
  CmEvent, CmEventType, WcOpcode, wc_send, wc_recv, addr_resolved, route_resolved, connect_request,
  connect_error, unreachable, rejected, established, disconnected, device_removal, other_event,
}
use rdma_tutorial.Machine.{Prog, reason, pure, die, call, if_null_die, if_nzero_die, ◌>>=◌, ◌>>◌}

abbrev pub buffer_size : ℕ
buffer_size = 1024

-- struct connection, with the address `self` at which it was allocated
pub record Connection : Type 0 where
  pub self : ℕ
  pub ctx : ℕ
  pub pd : ℕ
  pub cc : ℕ
  pub cq : ℕ
  pub qp : ℕ
  pub recv_buff : ℕ
  pub send_buff : ℕ
  pub recv_mr : ℕ
  pub send_mr : ℕ
  pub recv_wr : RecvWr
  pub send_wr : SendWr

unfoldable pub get_event_string : CmEventType → String
get_event_string established = "RDMA_CM_EVENT_ESTABLISHED"
get_event_string disconnected = "RDMA_CM_EVENT_DISCONNECTED"
get_event_string device_removal = "RDMA_CM_EVENT_DEVICE_REMOVAL"
get_event_string connect_error = "RDMA_CM_EVENT_CONNECT_ERROR"
get_event_string rejected = "RDMA_CM_EVENT_REJECTED"
get_event_string unreachable = "RDMA_CM_EVENT_UNREACHABLE"
get_event_string connect_request = "RDMA_CM_EVENT_CONNECT_REQUEST"
get_event_string _ = "Unknown event"

unfoldable pub wc_opcode_str : WcOpcode → String
wc_opcode_str wc_send = "IBV_WC_SEND"
wc_opcode_str wc_recv = "IBV_WC_RECV"
wc_opcode_str _ = "Unknown wc opcode"

-- `a == b` on enum rdma_cm_event_type
abbrev pub same_event : CmEventType → CmEventType → Bool
same_event addr_resolved addr_resolved = true
same_event route_resolved route_resolved = true
same_event connect_request connect_request = true
same_event connect_error connect_error = true
same_event unreachable unreachable = true
same_event rejected rejected = true
same_event established established = true
same_event disconnected disconnected = true
same_event device_removal device_removal = true
same_event (other_event a) (other_event b) = a == b
same_event _ _ = false

unfoldable pub check_cm_event : CmEvent → CmEventType → Prog (Unit {0})
check_cm_event event exp = if same_event event.event exp then pure tt else die (reason "")

-- the attributes of the QP in setup_connection
abbrev pub qp_init : ℕ → QpInitAttr
qp_init cq = record {
  send_cq = cq;
  recv_cq = cq;
  qp_type = QpType.rc;
  max_send_wr = 10;
  max_recv_wr = 10;
  max_send_sge = 1;
  max_recv_sge = 1;
}

abbrev rw_access : List AccessFlag
rw_access = AccessFlag.local_write ∷ AccessFlag.remote_write ∷ []

abbrev sge_of : ℕ → ℕ → Sge
sge_of buff lkey = record { addr = buff; length = buffer_size; lkey = lkey }

-- What the five versions of setup_connection differ in: the `wr_id` of the two requests of the
-- connection at an address, their `next`, and the texts of two macros.
pub record Variant : Type 0 where
  pub recv_wr_id : ℕ → ℕ
  pub send_wr_id : ℕ → ℕ
  pub recv_next : ℕ
  pub send_next : ℕ
  pub send_mr_text : String
  pub post_text : String

-- what malloc has left in the memory of those fields, where the source does not assign them
pub record Leftover : Type 0 where
  pub recv_wr_id : ℕ
  pub send_wr_id : ℕ
  pub recv_next : ℕ
  pub send_next : ℕ

unfoldable pub build_connection : Variant → ℕ → Prog Connection
build_connection v cm_id = do
  nc ←
      if_null_die "nc = (struct connection *)malloc(sizeof(*nc))"
        (Call.malloc Size.sizeof_connection)
  verbs ← call (Call.load LibField.verbs_of_id cm_id)
  pd ← if_null_die "nc->pd = ibv_alloc_pd(cm_id->verbs)" (Call.alloc_pd verbs.ptr)
  cc ←
      if_null_die "nc->cc = ibv_create_comp_channel(cm_id->verbs)"
        (Call.create_comp_channel verbs.ptr)
  cq ←
      if_null_die "nc->cq = ibv_create_cq(cm_id->verbs, 10, NULL, nc->cc, 0)"
        (Call.create_cq verbs.ptr 10 cc)
  if_nzero_die "ibv_req_notify_cq(nc->cq, 0)" (Call.req_notify_cq cq)
  created ←
      if_nzero_die "rdma_create_qp(cm_id, nc->pd, &qp_attr)"
        (Call.rdma_create_qp cm_id pd (qp_init cq))
  recv_buff ←
      if_null_die "nc->recv_buff = malloc(BUFFER_SIZE)" (Call.malloc (Size.bytes buffer_size))
  send_buff ←
      if_null_die "nc->send_buff = malloc(BUFFER_SIZE)" (Call.malloc (Size.bytes buffer_size))
  recv_mr ←
      if_null_die
        "nc->recv_mr = ibv_reg_mr( nc->pd, nc->recv_buff, BUFFER_SIZE, IBV_ACCESS_LOCAL_WRITE | IBV_ACCESS_REMOTE_WRITE)"
        (Call.reg_mr pd recv_buff buffer_size rw_access)
  send_mr ← if_null_die v.send_mr_text (Call.reg_mr pd send_buff buffer_size rw_access)
  recv_key ← call (Call.load LibField.lkey_of_mr recv_mr)
  send_key ← call (Call.load LibField.lkey_of_mr send_mr)
  let recv_wr : RecvWr = record {
    wr_id = v.recv_wr_id nc;
    next = v.recv_next;
    sg_list = sge_of recv_buff recv_key.value ∷ [];
  }
  let send_wr : SendWr = record {
    wr_id = v.send_wr_id nc;
    next = v.send_next;
    sg_list = sge_of send_buff send_key.value ∷ [];
    opcode = WrOpcode.wr_send;
    send_flags = SendFlag.signaled ∷ [];
  }
  if_nzero_die v.post_text (Call.post_recv created.ptr recv_wr)
  pure (record {
    self = nc;
    ctx = verbs.ptr;
    pd = pd;
    cc = cc;
    cq = cq;
    qp = created.ptr;
    recv_buff = recv_buff;
    send_buff = send_buff;
    recv_mr = recv_mr;
    send_mr = send_mr;
    recv_wr = recv_wr;
    send_wr = send_wr;
  })

abbrev pub reg_send_text : String
reg_send_text =
    "nc->send_mr = ibv_reg_mr( nc->pd, nc->send_buff, BUFFER_SIZE, IBV_ACCESS_LOCAL_WRITE | IBV_ACCESS_REMOTE_WRITE)"

abbrev pub post_recv_text : String
post_recv_text = "ibv_post_recv(nc->qp, &nc->recv_wr, &bad_wr)"

-- both requests name their connection, and end their chains
abbrev pub own_variant : Variant
own_variant = record {
  recv_wr_id = λ nc. nc;
  send_wr_id = λ nc. nc;
  recv_next = 0;
  send_next = 0;
  send_mr_text = reg_send_text;
  post_text = post_recv_text;
}

unfoldable pub setup_connection : ℕ → Prog Connection
unfolding build_connection
setup_connection cm_id = build_connection own_variant cm_id
