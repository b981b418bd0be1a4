-- ===== src/Example03/Common.antt =====
-- src/example03/rdma_common.h and rdma_common.c. The texts printed on the way are not modelled.
-- What memset clears is a field that is left at zero here, or memory that is not read before it is
-- written.
pub mod Qp
pub mod Lifetime
use rdma_tutorial.Prelude.{ℕ, Bool, false, ◌||◌, List, [], ◌∷◌, ◌==◌, take}
use rdma_tutorial.External.{
  ℤ, pos, Call, Size, SendFlag, WrOpcode, AccessFlag, QpInitAttr, QpType, QpAttr, QpAttrMask,
  QpState, zero_attr, zero_ah_attr, PortAttr, LibField,
}
use rdma_tutorial.Machine.{
  Prog, reason, pure, die_if, call, tell, ignore_if, tell_if, nonnull, zero_or_die, ◌>>=◌, ◌>>◌,
}
use rdma_tutorial.Wire.{QpConnInfo}

abbrev pub tcp_port : ℕ
tcp_port = 19875

abbrev pub rdma_buffer_size : ℕ
rdma_buffer_size = 1024

-- struct rdma_context
pub record RdmaContext : Type 0 where
  pub ctx : ℕ
  pub pd : ℕ
  pub mr : ℕ
  pub cq : ℕ
  pub qp : ℕ
  pub port_attr : PortAttr
  pub gid : List ℕ
  pub buf : ℕ
  pub ib_port : ℕ

-- `{ .ib_port = port }`
abbrev pub initial_context : ℕ → RdmaContext
initial_context port = record {
  ctx = 0;
  pd = 0;
  mr = 0;
  cq = 0;
  qp = 0;
  port_attr = record { lid = 0; active_mtu = 0; port_state = 0; active_speed = 0 };
  gid = [];
  buf = 0;
  ib_port = port;
}

-- `dev_list[0]` of a list that ends in NULL
abbrev pub first_device : List ℕ → ℕ
first_device [] = 0
first_device (d ∷ _) = d

abbrev pub qp_init : ℕ → QpInitAttr
qp_init cq = record {
  send_cq = cq;
  recv_cq = cq;
  qp_type = QpType.rc;
  max_send_wr = 10;
  max_recv_wr = 10;
  max_send_sge = 1;
  max_recv_sge = 1;
}

-- The function returns 0 on every path that returns; the model returns the context that it filled.
unfoldable pub build_rdma_resources : RdmaContext → Prog RdmaContext
build_rdma_resources res = do
  devices ← call Call.get_device_list
  die_if (devices.ptr == 0) (reason "ibv_get_device_list failed")
  die_if (first_device devices.ptrs == 0) (reason "No IB devices found")
  ctx ← nonnull (reason "ibv_open_device failed") (Call.open_device (first_device devices.ptrs))
  tell (Call.free_device_list devices.ptr)
  port ← zero_or_die (reason "ibv_query_port failed") (Call.query_port ctx res.ib_port)
  gid ← zero_or_die (reason "ibv_query_gid failed") (Call.query_gid ctx res.ib_port 0)
  pd ← nonnull (reason "ibv_alloc_pd failed") (Call.alloc_pd ctx)
  buf ← nonnull (reason "malloc failed") (Call.malloc (Size.bytes rdma_buffer_size))
  mr ←
      nonnull (reason "ibv_reg_mr failed") (
        Call.reg_mr pd buf rdma_buffer_size (AccessFlag.local_write ∷ AccessFlag.remote_write ∷ []))
  cq ← nonnull (reason "ibv_create_cq failed") (Call.create_cq ctx 10 0)
  qp ← nonnull (reason "ibv_create_qp failed") (Call.create_qp pd (qp_init cq))
  pure (record res {
    ctx = ctx;
    pd = pd;
    mr = mr;
    cq = cq;
    qp = qp;
    port_attr = port.port_attr;
    gid = gid.bytes;
    buf = buf;
  })

-- the three attributes of setup_qp_state, with their masks
abbrev pub init_attr : RdmaContext → QpAttr
init_attr res = record zero_attr {
  state = QpState.init;
  pkey_index = 0;
  port_num = res.ib_port;
  access_flags = AccessFlag.remote_write ∷ [];
}

abbrev pub init_mask : List QpAttrMask
init_mask =
    QpAttrMask.qp_state ∷ QpAttrMask.qp_pkey_index ∷ QpAttrMask.qp_port ∷ QpAttrMask.qp_access_flags
    ∷ []

abbrev pub rtr_attr : RdmaContext → QpConnInfo → QpAttr
rtr_attr res remote_info = record zero_attr {
  state = QpState.rtr;
  path_mtu = res.port_attr.active_mtu;
  dest_qp_num = remote_info.qp_num;
  rq_psn = 0;
  max_dest_rd_atomic = 1;
  min_rnr_timer = 12;
  ah_attr = record zero_ah_attr {
    is_global = 1;
    dgid = remote_info.gid;
    flow_label = 0;
    sgid_index = 0;
    hop_limit = 1;
    dlid = remote_info.lid;
    sl = 0;
    src_path_bits = 0;
    ah_port_num = res.ib_port;
  };
}

abbrev pub rtr_mask : List QpAttrMask
rtr_mask =
    QpAttrMask.qp_state ∷ QpAttrMask.qp_av ∷ QpAttrMask.qp_path_mtu ∷ QpAttrMask.qp_dest_qpn
    ∷ QpAttrMask.qp_rq_psn ∷ QpAttrMask.qp_max_dest_rd_atomic ∷ QpAttrMask.qp_min_rnr_timer ∷ []

abbrev pub rts_attr : QpAttr
rts_attr = record zero_attr {
  state = QpState.rts;
  sq_psn = 0;
  timeout = 14;
  retry_cnt = 7;
  rnr_retry = 7;
  max_rd_atomic = 1;
}

abbrev pub rts_mask : List QpAttrMask
rts_mask =
    QpAttrMask.qp_state ∷ QpAttrMask.qp_sq_psn ∷ QpAttrMask.qp_timeout ∷ QpAttrMask.qp_retry_cnt
    ∷ QpAttrMask.qp_rnr_retry ∷ QpAttrMask.qp_max_qp_rd_atomic ∷ []

unfoldable pub setup_qp_state : RdmaContext → QpConnInfo → Prog ℤ
setup_qp_state res remote_info = do
  zero_or_die (reason "Failed to modify QP to INIT")
      (Call.modify_qp res.qp (init_attr res) init_mask)
  zero_or_die (reason "Failed to modify QP to RTR")
      (Call.modify_qp res.qp (rtr_attr res remote_info) rtr_mask)
  zero_or_die (reason "Failed to modify QP to RTS") (Call.modify_qp res.qp rts_attr rts_mask)
  pure (pos 0)

unfoldable pub post_receive : RdmaContext → Prog ℤ
post_receive res = do
  key ← call (Call.load LibField.lkey_of_mr res.mr)
  r ← call (
      Call.post_recv res.qp (record {
        wr_id = 0;
        next = 0;
        sg_list = record { addr = res.buf; length = rdma_buffer_size; lkey = key.value } ∷ [];
      }))
  pure r.code

-- Whether a string ends in the buffer.
abbrev pub terminated : List ℕ → Bool
terminated [] = false
terminated (c ∷ cs) = (c == 0) || terminated cs

-- `bytes` is what stands in the buffer at the call: the device sends the first `len` of it.
unfoldable pub post_send : RdmaContext → ℕ → List ℕ → Prog ℤ
post_send res len bytes = do
  key ← call (Call.load LibField.lkey_of_mr res.mr)
  r ← call (
      Call.post_send res.qp
        (record {
          wr_id = 1;
          next = 0;
          sg_list = record { addr = res.buf; length = len; lkey = key.value } ∷ [];
          opcode = WrOpcode.wr_send;
          send_flags = SendFlag.signaled ∷ [];
        })
        (take len bytes))
  pure r.code

unfoldable pub cleanup_resources : RdmaContext → Prog (Unit {0})
cleanup_resources res = do
  ignore_if res.qp Call.destroy_qp
  ignore_if res.cq Call.destroy_cq
  ignore_if res.mr Call.dereg_mr
  ignore_if res.pd Call.dealloc_pd
  ignore_if res.ctx Call.close_device
  tell_if res.buf Call.free
