-- ===== src/Example03/Common/Qp.antt =====
-- setup_qp_state against the states of a queue pair.
use rdma_tutorial.Prelude.{◌≡◌, refl, some, List, arith}
use rdma_tutorial.External.{ℤ, pos, Reply, Trace, QpState}
use rdma_tutorial.Machine.Ends.{Ends, Refused, ok-Ends, nzero-step}
use rdma_tutorial.Resources.{settle}
use rdma_tutorial.Machine.Observe.{received, written, own_qp_num}
use rdma_tutorial.QueuePair.{View, view}
use rdma_tutorial.Wire.{QpConnInfo}
use rdma_tutorial.Example03.Common.{RdmaContext, setup_qp_state}

abbrev pub connected_to : QpConnInfo → View
connected_to info = record {
  state = QpState.rts;
  remote_qp_num = info.qp_num;
  remote_lid = info.lid;
  remote_gid = info.gid;
}

-- What setup_qp_state has done: the queue pair is ready to send to the peer of `info`; the objects
-- that are live, and what was read and written, are as before.
pub record IsRaised (res : RdmaContext) (info : QpConnInfo) (t : Trace) (ret : ℤ) (u : Trace)
    : Type 0 where
  pub returned : ret ≡ pos 0
  pub raised : view res.qp u ≡ some (connected_to info)
  pub live : settle u ≡ settle t
  pub read : received u ≡ received t
  pub wrote : written u ≡ written t
  pub asked : own_qp_num u ≡ own_qp_num t

-- setup_qp_state on a queue pair in the state RESET, whatever the library replies: it returns 0
-- with the queue pair in RTS and the peer of `info`, every ibv_modify_qp with the attributes that
-- its change of state asks for; or it dies on a refused call, or waits for a reply.
pub setup_qp_state-IsRaised :
    (res : RdmaContext) (info : QpConnInfo) (rs : List Reply) (t : Trace) (v : View)
    → view res.qp t ≡ some v
    → v.state ≡ QpState.reset
    → Ends (IsRaised res info t) Refused (setup_qp_state res info (rs, t))
unfolding setup_qp_state
setup_qp_state-IsRaised res info rs t v h z = nzero-step _ _ _ _ _ _ λ a s1 h1.
    nzero-step _ _ _ _ _ _ λ b s2 h2. nzero-step _ _ _ _ _ _ λ c s3 h3. ok-Ends _ _ _ _ _ (record {
      returned = refl;
      raised = ground arith;
      live = ground arith;
      read = refl;
      wrote = refl;
      asked = refl;
    })
