-- ===== src/Rdmacm05/Server/Growing.antt =====
-- The handlers of the server only add to the trace, and take no event of the connection manager.
use rdma_tutorial.Prelude.{ℕ, zero, suc, List, [], ◌∷◌, Bool-cases, Option-cases, inl, inr}
use rdma_tutorial.External.{
  Wc, WcOpcode, wc_send, wc_recv, wc_other, is_zero, is_negative, CmEventType, connect_request,
  established, disconnected,
}
use rdma_tutorial.Machine.Observe.{TakesNoEvent, KeepsIds}
use rdma_tutorial.Machine.Grows.{IsGrowing, growing, stay-Grows, call-Grows, bind-Grows}
use rdma_tutorial.Rdmacm05.Common.{Connection, build_connection, setup_connection}
use rdma_tutorial.Rdmacm05.Server.Defs.{
  Store, Slot, find, with_state, disconnected_state, handle_new_request, destroy_connection,
  drop_connection, on_connect_request, on_established, on_disconnected, dispatch_cm_event, echo,
  dispatch_opcode, handle_wc, handle_wcs, drain_cq, handle_cq_event,
}

setup_connection-IsGrowing : (id : ℕ) → IsGrowing TakesNoEvent (setup_connection id)
unfolding setup_connection build_connection
setup_connection-IsGrowing id rs t = search growing depth 40

on_connect_request-IsGrowing :
    (fd id : ℕ) (st : Store) → IsGrowing TakesNoEvent (on_connect_request fd id st)
unfolding on_connect_request handle_new_request
on_connect_request-IsGrowing fd id st rs t = search (growing, setup_connection-IsGrowing) depth 40

-- what holds of every call that releases a part of a connection
pub destroy_connection-Follows : (nc : Connection) → IsGrowing KeepsIds (destroy_connection nc)
unfolding destroy_connection
destroy_connection-Follows nc rs t = search growing depth 40

destroy_connection-IsGrowing : (nc : Connection) → IsGrowing TakesNoEvent (destroy_connection nc)
unfolding destroy_connection
destroy_connection-IsGrowing nc rs t = search growing depth 40

drop_connection-IsGrowing : (s : Slot) (st : Store) → IsGrowing TakesNoEvent (drop_connection s st)
unfolding drop_connection
drop_connection-IsGrowing s st rs t = search (growing, destroy_connection-IsGrowing) depth 40

echo-IsGrowing : (nc : Connection) → IsGrowing TakesNoEvent (echo nc)
unfolding echo
echo-IsGrowing nc rs t = search growing depth 40

dispatch_opcode-IsGrowing :
    (op : WcOpcode) (p : ℕ) (st : Store) → IsGrowing TakesNoEvent (dispatch_opcode op p st)
unfolding dispatch_opcode
dispatch_opcode-IsGrowing wc_send p st rs t = search growing
dispatch_opcode-IsGrowing wc_recv p st rs t = search (growing, echo-IsGrowing) depth 20
dispatch_opcode-IsGrowing (wc_other _) p st rs t = search growing

handle_wc-IsGrowing : (st : Store) (wc : Wc) → IsGrowing TakesNoEvent (handle_wc st wc)
unfolding handle_wc
handle_wc-IsGrowing st wc rs t = search (growing, dispatch_opcode-IsGrowing) depth 20

handle_wcs-IsGrowing : (st : Store) (wcs : List Wc) → IsGrowing TakesNoEvent (handle_wcs st wcs)
unfolding handle_wcs
handle_wcs-IsGrowing st [] rs t = search growing
handle_wcs-IsGrowing st (wc ∷ wcs) rs t =
    bind-Grows _ t _ _ (handle_wc-IsGrowing st wc rs t) λ _. handle_wcs-IsGrowing st wcs

drain_cq-IsGrowing : (fuel cq : ℕ) (st : Store) → IsGrowing TakesNoEvent (drain_cq fuel cq st)
unfolding drain_cq
drain_cq-IsGrowing zero cq st rs t = stay-Grows _ _ rs t
drain_cq-IsGrowing (suc fuel) cq st rs t = call-Grows _ rs t _ _ tt λ r s u.
    elim (Bool-cases (is_negative r.code)) [
      | inl p ↦ rw p (stay-Grows _ _ s u)
      | inr p ↦ elim (Bool-cases (is_zero r.code)) [
        | inl q ↦ rw (p, q) (stay-Grows _ _ s u)
        | inr q ↦
            rw (p, q)
              (bind-Grows _ u _ _ (handle_wcs-IsGrowing st r.wcs s u)
                λ _. drain_cq-IsGrowing fuel cq st)
      ]
    ]

pub handle_cq_event-IsGrowing :
    (fuel cc : ℕ) (st : Store) → IsGrowing TakesNoEvent (handle_cq_event fuel cc st)
unfolding handle_cq_event
handle_cq_event-IsGrowing fuel cc st rs t = search (growing, drain_cq-IsGrowing) depth 30

on_disconnected-IsGrowing : (id : ℕ) (st : Store) → IsGrowing TakesNoEvent (on_disconnected id st)
unfolding on_disconnected
on_disconnected-IsGrowing id st rs t = elim (Option-cases (find id st)) [
  | inl e ↦ rw (e, on_disconnected) (stay-Grows _ _ rs t)
  | inr e ↦
      rw (e.1, on_disconnected)
        (drop_connection-IsGrowing (with_state disconnected_state e.0) st rs t)
]

pub dispatch_cm_event-IsGrowing :
    (fd : ℕ) (ev : CmEventType) (id : ℕ) (st : Store)
    → IsGrowing TakesNoEvent (dispatch_cm_event fd ev id st)
unfolding dispatch_cm_event on_established
dispatch_cm_event-IsGrowing fd connect_request id st rs t =
    on_connect_request-IsGrowing fd id st rs t
dispatch_cm_event-IsGrowing fd established id st rs t = search growing depth 20
dispatch_cm_event-IsGrowing fd disconnected id st rs t = on_disconnected-IsGrowing id st rs t
dispatch_cm_event-IsGrowing fd _ id st rs t = search growing depth 20
