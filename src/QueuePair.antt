-- ===== src/QueuePair.antt =====
-- What libibverbs asks of a program that brings an RC queue pair up, read off a trace: the order of
-- the states, and the attributes that each change of state needs and allows. This is the table of
-- the manual page ibv_modify_qp(3), for the states up to RTS.
use rdma_tutorial.Prelude.{
  ℕ, Bool, true, false, ◌&&◌, ◌||◌, Option, none, some, List, [], ◌∷◌, ◌++◌, ◌==◌, if◌then◌else◌,
}
use rdma_tutorial.External.{Call, Reply, Trace, is_zero, QpState, QpAttr, QpAttrMask}

-- A queue pair: its state, and the peer that it has been told.
pub record View : Type 0 where
  pub state : QpState
  pub remote_qp_num : ℕ
  pub remote_lid : ℕ
  pub remote_gid : List ℕ

abbrev number : QpAttrMask → ℕ
number QpAttrMask.qp_state = 0
number QpAttrMask.qp_pkey_index = 1
number QpAttrMask.qp_port = 2
number QpAttrMask.qp_access_flags = 3
number QpAttrMask.qp_av = 4
number QpAttrMask.qp_path_mtu = 5
number QpAttrMask.qp_dest_qpn = 6
number QpAttrMask.qp_rq_psn = 7
number QpAttrMask.qp_max_dest_rd_atomic = 8
number QpAttrMask.qp_min_rnr_timer = 9
number QpAttrMask.qp_sq_psn = 10
number QpAttrMask.qp_timeout = 11
number QpAttrMask.qp_retry_cnt = 12
number QpAttrMask.qp_rnr_retry = 13
number QpAttrMask.qp_max_qp_rd_atomic = 14

abbrev has : QpAttrMask → List QpAttrMask → Bool
has b [] = false
has b (m ∷ ms) = (number b == number m) || has b ms

abbrev subset : List QpAttrMask → List QpAttrMask → Bool
subset [] ms = true
subset (b ∷ bs) ms = has b ms && subset bs ms

-- A mask that names all that is required, and nothing beyond what is also allowed.
abbrev fits : (required optional mask : List QpAttrMask) → Bool
fits required optional mask =
    subset (QpAttrMask.qp_state ∷ required) mask
    && subset mask (QpAttrMask.qp_state ∷ (required ++ optional))

abbrev to_init : List QpAttrMask → Bool
to_init = fits (QpAttrMask.qp_pkey_index ∷ QpAttrMask.qp_port ∷ QpAttrMask.qp_access_flags ∷ []) []

abbrev to_rtr : List QpAttrMask → Bool
to_rtr =
    fits
      (QpAttrMask.qp_av ∷ QpAttrMask.qp_path_mtu ∷ QpAttrMask.qp_dest_qpn ∷ QpAttrMask.qp_rq_psn
        ∷ QpAttrMask.qp_max_dest_rd_atomic ∷ QpAttrMask.qp_min_rnr_timer ∷ [])
      (QpAttrMask.qp_pkey_index ∷ QpAttrMask.qp_access_flags ∷ [])

abbrev to_rts : List QpAttrMask → Bool
to_rts =
    fits
      (QpAttrMask.qp_sq_psn ∷ QpAttrMask.qp_timeout ∷ QpAttrMask.qp_retry_cnt
        ∷ QpAttrMask.qp_rnr_retry ∷ QpAttrMask.qp_max_qp_rd_atomic ∷ [])
      (QpAttrMask.qp_access_flags ∷ QpAttrMask.qp_min_rnr_timer ∷ [])

-- The queue pair after a change from one state to another; `none` if the contract forbids it.
abbrev pub change : QpState → QpState → QpAttr → List QpAttrMask → View → Option View
change QpState.reset QpState.init attr mask v =
    if to_init mask then some (record v { state = QpState.init }) else none
change QpState.init QpState.rtr attr mask v =
    if to_rtr mask
    then some (record v {
      state = QpState.rtr;
      remote_qp_num = attr.dest_qp_num;
      remote_lid = attr.ah_attr.dlid;
      remote_gid = attr.ah_attr.dgid;
    })
    else none
change QpState.rtr QpState.rts attr mask v =
    if to_rts mask then some (record v { state = QpState.rts }) else none
change _ _ attr mask v = none

abbrev pub modify : QpAttr → List QpAttrMask → Option View → Option View
modify attr mask none = none
modify attr mask (some v) = change v.state attr.state attr mask v

abbrev pub fresh : View
fresh = record { state = QpState.reset; remote_qp_num = 0; remote_lid = 0; remote_gid = [] }

abbrev pub view_event : ℕ → Call → Reply → Option View → Option View
view_event qp (Call.create_qp _ _) r v = if r.ptr == qp then some fresh else v
view_event qp (Call.modify_qp q attr mask) r v =
    if is_zero r.code && (q == qp) then modify attr mask v else v
view_event qp _ r v = v

-- The queue pair at the end of a trace, if it has been created and the contract has been kept.
abbrev pub view : ℕ → Trace → Option View
view qp [] = none
view qp ((c, r) ∷ t) = view_event qp c r (view qp t)
