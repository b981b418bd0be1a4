-- ===== src/Rdmacm05/Server/Halting.antt =====
-- The end of the loops of src/rdmacm05/server.c.
use rdma_tutorial.Prelude.{
  ℕ, zero, suc, ◌<◌, Option, none, some, List, [], ◌∷◌, length, arith, ◌==◌, Bool-cases, inl, inr,
}
use rdma_tutorial.External.{
  is_zero, is_negative, Reply, Trace, CmEventType, connect_request, established, disconnected, Wc,
  WcOpcode, wc_send, wc_recv, wc_other,
}
use rdma_tutorial.Machine.{Prog, pure}
use rdma_tutorial.Machine.Halts.{
  Halts, halting, bind-Halts, ok-Halts, call-Halts, rest-length, ignore_if-Halts, tell_if-Halts,
  tell-Halts, last_tell-Halts,
}
use rdma_tutorial.Rdmacm.Halting.{build_connection-Halts}
use rdma_tutorial.Rdmacm05.Common.{Connection, setup_connection}
use rdma_tutorial.Rdmacm05.Server.Defs.{
  Store, Slot, find, with_state, disconnected_state, eintr, handle_new_request, destroy_connection,
  drop_connection, on_connect_request, on_established, on_disconnected, dispatch_cm_event,
  handle_cm_event, echo, dispatch_opcode, handle_wc, handle_wcs, drain_cq, handle_cq_event,
  handle_events, main_loop,
}

handle_new_request-Halts :
    (fd addr : ℕ) (s : Slot) (st : Store) (rs : List Reply) (t : Trace)
    → Halts rs (handle_new_request fd addr s st (rs, t))
unfolding handle_new_request setup_connection
handle_new_request-Halts fd addr s st rs t = search (halting, build_connection-Halts) depth 40

destroy_connection-Halts :
    (nc : Connection) (rs : List Reply) (t : Trace) → Halts rs (destroy_connection nc (rs, t))
unfolding destroy_connection
destroy_connection-Halts nc rs t = ignore_if-Halts _ _ _ rs t λ r1 u1.
    ignore_if-Halts _ _ _ r1 u1 λ r2 u2. ignore_if-Halts _ _ _ r2 u2 λ r3 u3.
      ignore_if-Halts _ _ _ r3 u3 λ r4 u4. tell_if-Halts _ _ _ r4 u4 λ r5 u5.
        tell_if-Halts _ _ _ r5 u5 λ r6 u6.
          ignore_if-Halts _ _ _ r6 u6
            λ r7 u7. ignore_if-Halts _ _ _ r7 u7 λ r8 u8. last_tell-Halts r8 u8 _

drop_connection-Halts :
    (s : Slot) (st : Store) (rs : List Reply) (t : Trace) → Halts rs (drop_connection s st (rs, t))
unfolding drop_connection
drop_connection-Halts s st rs t = search (halting, destroy_connection-Halts) depth 40

on_connect_request-Halts :
    (fd id : ℕ) (st : Store) (rs : List Reply) (t : Trace)
    → Halts rs (on_connect_request fd id st (rs, t))
unfolding on_connect_request
on_connect_request-Halts fd id st rs t = search (halting, handle_new_request-Halts) depth 40

on_disconnected-Halts :
    (id : ℕ) (st : Store) (rs : List Reply) (t : Trace) → Halts rs (on_disconnected id st (rs, t))
unfolding on_disconnected
on_disconnected-Halts id st rs t = found (find id st)
  where
    found :
        (o : Option Slot)
        → Halts rs (
            (elim o as (λ _. Prog Store) [
              | none ↦ pure st
              | some s ↦ drop_connection (with_state disconnected_state s) st
            ])
              (rs, t))
    found none = ok-Halts st rs t
    found (some s) = drop_connection-Halts (with_state disconnected_state s) st rs t

dispatch_cm_event-Halts :
    (fd : ℕ) (ev : CmEventType) (id : ℕ) (st : Store) (rs : List Reply) (t : Trace)
    → Halts rs (dispatch_cm_event fd ev id st (rs, t))
unfolding dispatch_cm_event on_established
dispatch_cm_event-Halts fd connect_request id st rs t = on_connect_request-Halts fd id st rs t
dispatch_cm_event-Halts fd established id st rs t = search halting depth 20
dispatch_cm_event-Halts fd disconnected id st rs t = on_disconnected-Halts id st rs t
dispatch_cm_event-Halts fd _ id st rs t = search halting depth 20

handle_cm_event-Halts :
    (fd ec : ℕ) (st : Store) (rs : List Reply) (t : Trace)
    → Halts rs (handle_cm_event fd ec st (rs, t))
unfolding handle_cm_event
handle_cm_event-Halts fd ec st rs t = search (halting, dispatch_cm_event-Halts) depth 40

dispatch_opcode-Halts :
    (op : WcOpcode) (id : ℕ) (st : Store) (rs : List Reply) (t : Trace)
    → Halts rs (dispatch_opcode op id st (rs, t))
unfolding dispatch_opcode echo
dispatch_opcode-Halts wc_send id st rs t = search halting depth 20
dispatch_opcode-Halts wc_recv id st rs t = search halting depth 40
dispatch_opcode-Halts (wc_other _) id st rs t = search halting depth 20

handle_wc-Halts :
    (st : Store) (wc : Wc) (rs : List Reply) (t : Trace) → Halts rs (handle_wc st wc (rs, t))
unfolding handle_wc
handle_wc-Halts st wc rs t = search (halting, dispatch_opcode-Halts) depth 20

handle_wcs-Halts :
    (st : Store) (wcs : List Wc) (rs : List Reply) (t : Trace)
    → Halts rs (handle_wcs st wcs (rs, t))
unfolding handle_wcs
handle_wcs-Halts st [] rs t = search halting
handle_wcs-Halts st (wc ∷ wcs) rs t =
    bind-Halts rs _ _ (handle_wc-Halts st wc rs t) λ _ s u p. handle_wcs-Halts st wcs s u

-- The drain ends with more fuel than replies.
pub drain_cq-Halts :
    (fuel cq : ℕ) (st : Store) (rs : List Reply) (t : Trace)
    → length rs < fuel
    → Halts rs (drain_cq fuel cq st (rs, t))
unfolding drain_cq
drain_cq-Halts zero cq st rs t enough = absurd (omega arith)
drain_cq-Halts (suc fuel) cq st rs t enough = call-Halts rs t _ _ λ r s l.
    elim (Bool-cases (is_negative r.code)) [
      | inl p ↦ rw p (ok-Halts tt s _)
      | inr p ↦ elim (Bool-cases (is_zero r.code)) [
        | inl q ↦ rw (p, q) (ok-Halts tt s _)
        | inr q ↦
            rw (p, q)
              (bind-Halts s _ _ (handle_wcs-Halts st r.wcs s _) λ _ s2 u2 p2.
                drain_cq-Halts fuel cq st s2 u2 (omega (arith, enough, l, rest-length s2 s p2)))
      ]
    ]

handle_cq_event-Halts :
    (fuel cc : ℕ) (st : Store) (rs : List Reply) (t : Trace)
    → length rs < fuel
    → Halts rs (handle_cq_event fuel cc st (rs, t))
unfolding handle_cq_event
handle_cq_event-Halts fuel cc st rs t enough = call-Halts rs t _ _ λ e s1 l1.
    elim (Bool-cases (is_zero e.code)) [
      | inr p ↦ rw p (ok-Halts _ s1 _)
      | inl p ↦ rw p (
          tell-Halts s1 _ _ _ (
            call-Halts s1 _ _ _ λ n s2 l2. elim (Bool-cases (is_zero n.code)) [
              | inr q ↦ rw q (ok-Halts _ s2 _)
              | inl q ↦ rw q (
                  bind-Halts s2 _ _
                    (drain_cq-Halts fuel e.ptr st s2 _ (omega (arith, enough, l1, l2)))
                    λ _ s u _. ok-Halts _ s u)
            ]))
    ]

-- the events of one epoll_wait
handle_events-Halts :
    (fuel fd ec : ℕ) (ps : List ℕ) (st : Store) (rs : List Reply) (t : Trace)
    → length rs < fuel
    → Halts rs (handle_events fuel fd ec ps st (rs, t))
unfolding handle_events
handle_events-Halts fuel fd ec [] st rs t enough = ok-Halts st rs t
handle_events-Halts fuel fd ec (p ∷ ps) st rs t enough = elim (Bool-cases (p == ec)) [
  | inl e ↦ rw e (
      bind-Halts rs _ _
        (bind-Halts rs _ _ (handle_cm_event-Halts fd ec st rs t) λ r s u _. ok-Halts _ s u)
        λ st' s u q.
          handle_events-Halts fuel fd ec ps st' s u (omega (arith, enough, rest-length s rs q)))
  | inr e ↦ rw e (
      bind-Halts rs _ _
        (bind-Halts rs _ _ (handle_cq_event-Halts fuel p st rs t enough) λ r s u _. ok-Halts st s u)
        λ st' s u q.
          handle_events-Halts fuel fd ec ps st' s u (omega (arith, enough, rest-length s rs q)))
]

pub main_loop-Halts :
    (fuel fd ec : ℕ) (st : Store) (rs : List Reply) (t : Trace)
    → length rs < fuel
    → Halts rs (main_loop fuel fd ec st (rs, t))
unfolding main_loop
main_loop-Halts zero fd ec st rs t enough = absurd (omega arith)
main_loop-Halts (suc fuel) fd ec st rs t enough = call-Halts rs t _ _ λ k s1 l1.
    elim (Bool-cases (is_zero k.code)) [
      | inl p ↦ rw p (ok-Halts st s1 _)
      | inr p ↦ rw p (
          call-Halts s1 _ _ _ λ r s l. elim (Bool-cases (is_negative r.code)) [
            | inl q ↦ elim (Bool-cases (r.value == eintr)) [
              | inl e ↦ rw (q, e) (main_loop-Halts fuel fd ec st s _ (omega (arith, enough, l1, l)))
              | inr e ↦ rw (q, e) (ok-Halts st s _)
            ]
            | inr q ↦ elim (Bool-cases (is_zero r.code)) [
              | inl e ↦ rw (q, e) (main_loop-Halts fuel fd ec st s _ (omega (arith, enough, l1, l)))
              | inr e ↦
                  rw (q, e)
                    (bind-Halts s _ _
                      (handle_events-Halts fuel fd ec r.ptrs st s _ (omega (arith, enough, l1, l)))
                      λ st' s2 u2 p2.
                        main_loop-Halts fuel fd ec st' s2 u2
                          (omega (arith, enough, l1, l, rest-length s2 s p2)))
            ]
          ])
    ]
