-- ===== src/External/Types.antt =====
-- Types of infiniband/verbs.h and rdma/rdma_cma.h, with the enumerators that the programs name.
use rdma_tutorial.Prelude.{ℕ, zero, suc, Bool, true, false, List, []}

-- A C `int`: `negsuc n` is -(n + 1).
pub data ℤ : Type 0 where
  pos : ℕ → ℤ
  negsuc : ℕ → ℤ

-- `x < 0`
abbrev pub is_negative : ℤ → Bool
is_negative (pos _) = false
is_negative (negsuc _) = true

-- `x == 0`
abbrev pub is_zero : ℤ → Bool
is_zero (pos zero) = true
is_zero (pos (suc _)) = false
is_zero (negsuc _) = false

-- the number, where `x < 0` has been excluded
abbrev pub pos_part : ℤ → ℕ
pos_part (pos n) = n
pos_part (negsuc _) = 0

-- enum ibv_wc_status: the programs test for success only.
pub data WcStatus : Type 0 where
  success : WcStatus
  failure : ℕ → WcStatus

abbrev pub is_success : WcStatus → Bool
is_success success = true
is_success (failure _) = false

-- enum ibv_wc_opcode
pub data WcOpcode : Type 0 where
  wc_send wc_recv : WcOpcode
  wc_other : ℕ → WcOpcode

abbrev pub is_send : WcOpcode → Bool
is_send wc_send = true
is_send wc_recv = false
is_send (wc_other _) = false

abbrev pub is_recv : WcOpcode → Bool
is_recv wc_send = false
is_recv wc_recv = true
is_recv (wc_other _) = false

-- struct ibv_wc
pub record Wc : Type 0 where
  pub status : WcStatus
  pub opcode : WcOpcode
  pub wr_id : ℕ
  pub byte_len : ℕ

-- enum rdma_cm_event_type
pub data CmEventType : Type 0 where
  addr_resolved route_resolved connect_request connect_error : CmEventType
  unreachable rejected established disconnected device_removal : CmEventType
  other_event : ℕ → CmEventType

-- struct rdma_cm_event: its kind and the rdma_cm_id that it is about
pub record CmEvent : Type 0 where
  pub event : CmEventType
  pub id : ℕ

-- enum ibv_qp_state
pub data QpState : Type 0 where
  reset init rtr rts : QpState
  qps_other : ℕ → QpState

-- The bits of enum ibv_qp_attr_mask; a mask is the list of the bits that are or-ed.
pub data QpAttrMask : Type 0 where
  qp_state qp_pkey_index qp_port qp_access_flags : QpAttrMask
  qp_av qp_path_mtu qp_dest_qpn qp_rq_psn qp_max_dest_rd_atomic qp_min_rnr_timer : QpAttrMask
  qp_sq_psn qp_timeout qp_retry_cnt qp_rnr_retry qp_max_qp_rd_atomic : QpAttrMask

-- The bits of enum ibv_access_flags.
pub data AccessFlag : Type 0 where
  local_write remote_write : AccessFlag

-- struct ibv_global_route and struct ibv_ah_attr
pub record AhAttr : Type 0 where
  pub is_global : ℕ
  pub dgid : List ℕ
  pub flow_label : ℕ
  pub sgid_index : ℕ
  pub hop_limit : ℕ
  pub dlid : ℕ
  pub sl : ℕ
  pub src_path_bits : ℕ
  pub ah_port_num : ℕ

-- struct ibv_qp_attr: the fields that the programs set
pub record QpAttr : Type 0 where
  pub state : QpState
  pub pkey_index : ℕ
  pub port_num : ℕ
  pub access_flags : List AccessFlag
  pub path_mtu : ℕ
  pub dest_qp_num : ℕ
  pub rq_psn : ℕ
  pub max_dest_rd_atomic : ℕ
  pub min_rnr_timer : ℕ
  pub ah_attr : AhAttr
  pub sq_psn : ℕ
  pub timeout : ℕ
  pub retry_cnt : ℕ
  pub rnr_retry : ℕ
  pub max_rd_atomic : ℕ

-- `memset(&attr, 0, sizeof(attr))`: state 0 is IBV_QPS_RESET.
abbrev pub zero_ah_attr : AhAttr
zero_ah_attr = record {
  is_global = 0;
  dgid = [];
  flow_label = 0;
  sgid_index = 0;
  hop_limit = 0;
  dlid = 0;
  sl = 0;
  src_path_bits = 0;
  ah_port_num = 0;
}

abbrev pub zero_attr : QpAttr
zero_attr = record {
  state = reset;
  pkey_index = 0;
  port_num = 0;
  access_flags = [];
  path_mtu = 0;
  dest_qp_num = 0;
  rq_psn = 0;
  max_dest_rd_atomic = 0;
  min_rnr_timer = 0;
  ah_attr = zero_ah_attr;
  sq_psn = 0;
  timeout = 0;
  retry_cnt = 0;
  rnr_retry = 0;
  max_rd_atomic = 0;
}

-- enum ibv_qp_type: the programs name one.
pub data QpType : Type 0 where
  rc : QpType
  other_qp_type : ℕ → QpType

-- struct ibv_qp_init_attr with its `cap`
pub record QpInitAttr : Type 0 where
  pub send_cq : ℕ
  pub recv_cq : ℕ
  pub qp_type : QpType
  pub max_send_wr : ℕ
  pub max_recv_wr : ℕ
  pub max_send_sge : ℕ
  pub max_recv_sge : ℕ

-- struct ibv_sge
pub record Sge : Type 0 where
  pub addr : ℕ
  pub length : ℕ
  pub lkey : ℕ

-- enum ibv_wr_opcode and enum ibv_send_flags
pub data WrOpcode : Type 0 where
  wr_send : WrOpcode
  wr_other : ℕ → WrOpcode

pub data SendFlag : Type 0 where
  signaled : SendFlag

-- struct ibv_recv_wr: `sg_list` holds the `num_sge` elements; `next` points to the request
-- that the library is to take after this one.
pub record RecvWr : Type 0 where
  pub wr_id : ℕ
  pub next : ℕ
  pub sg_list : List Sge

-- struct ibv_send_wr
pub record SendWr : Type 0 where
  pub wr_id : ℕ
  pub next : ℕ
  pub sg_list : List Sge
  pub opcode : WrOpcode
  pub send_flags : List SendFlag

-- struct ibv_port_attr: the fields that the programs read
pub record PortAttr : Type 0 where
  pub lid : ℕ
  pub active_mtu : ℕ
  pub port_state : ℕ
  pub active_speed : ℕ

-- struct ibv_device_attr: the fields that the programs read
pub record DeviceAttr : Type 0 where
  pub node_guid : ℕ
  pub phys_port_cnt : ℕ
  pub max_qp : ℕ

-- an argument of printf after the format
pub data PrintArg : Type 0 where
  text : List ℕ → PrintArg
  number : ℕ → PrintArg

-- struct rdma_conn_param: the fields that the programs set, from `{0}`
pub record ConnParam : Type 0 where
  pub retry_count : ℕ
  pub rnr_retry_count : ℕ

-- The argument of malloc: a number of bytes, or the size of a struct, which the ABI fixes.
pub data Size : Type 0 where
  bytes : ℕ → Size
  sizeof_connection sizeof_conn_context : Size
