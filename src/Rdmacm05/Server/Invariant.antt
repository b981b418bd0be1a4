-- ===== src/Rdmacm05/Server/Invariant.antt =====
-- The store over the event handlers and the main loop.
use rdma_tutorial.Prelude.{ℕ, ◌≡◌, none, ◌==◌, Bool-cases, Option-cases, inl, inr}
use rdma_tutorial.External.{CmEventType, connect_request, established, disconnected}
use rdma_tutorial.Machine.{World}
use rdma_tutorial.Machine.Yields.{Yields, NoFault, ok-Yields, then-Yields, yielding}
use rdma_tutorial.Rdmacm05.Server.Defs.{established_state}
use rdma_tutorial.Machine.Yields.{
  call-Yields, ignore-Yields, die_if-Yields, fault_if-Yields, nzero-Yields, tell-Yields,
}
use rdma_tutorial.Machine.{or_fault}
use rdma_tutorial.Rdmacm05.Common.{Connection, build_connection, setup_connection}
use rdma_tutorial.Rdmacm05.Server.Defs.{
  Slot, Store, find, put, clear, new_slot, accepted, with_state, disconnected_state,
  handle_new_request, destroy_connection, drop_connection, on_connect_request, on_established,
  on_disconnected, dispatch_cm_event,
}
use rdma_tutorial.Prelude.{some}
use rdma_tutorial.Rdmacm05.Server.Contexts.{
  IsFull, IsOrderly, accepted-IsFull, with_state-IsFull, put-IsOrderly, clear-IsOrderly,
  find-IsFull, put-put_again,
}

setup_connection-NoFault : (id : ℕ) → NoFault (setup_connection id)
unfolding setup_connection build_connection
setup_connection-NoFault id w = search yielding depth 60

destroy_connection-NoFault : (nc : Connection) → NoFault (destroy_connection nc)
unfolding destroy_connection
destroy_connection-NoFault nc w = search yielding depth 60

pub handle_new_request-Yields :
    (P : Store → Type 0) (F : Type 0) (fd addr : ℕ) (s : Slot) (st : Store) (w : World)
    → ((nc : Connection) → P (put (accepted s.owner addr nc) st))
    → Yields P F (handle_new_request fd addr s st w)
unfolding handle_new_request
handle_new_request-Yields P F fd addr s st w h =
    then-Yields P F (setup_connection s.cctx.id) _ w (setup_connection-NoFault s.cctx.id) λ nc v.
      call-Yields P F _ _ v λ r1 v1. call-Yields P F _ _ v1 λ r2 v2.
        die_if-Yields P F _ _ _ v2
          λ _ v3. nzero-Yields P F _ _ _ v3 λ _ v4. ok-Yields P F _ v4 (h nc)

on_connect_request-IsOrderly :
    (F : Type 0) (fd id : ℕ) (st : Store) (w : World)
    → IsOrderly st
    → Yields IsOrderly F (on_connect_request fd id st w)
unfolding on_connect_request
on_connect_request-IsOrderly F fd id st w h = call-Yields IsOrderly F _ _ w λ m v.
    elim (Bool-cases (m.ptr == 0)) [
      | inl z ↦ rw z (ignore-Yields IsOrderly F _ _ v λ _ u. ok-Yields IsOrderly F st u h)
      | inr z ↦ rw z (
          handle_new_request-Yields IsOrderly F fd m.ptr (new_slot id m.ptr) _ v λ nc.
            rw (put-put_again id m.ptr nc st)
              (put-IsOrderly (accepted id m.ptr nc) st (accepted-IsFull id m.ptr nc) h))
    ]

pub drop_connection-Yields :
    (P : Store → Type 0) (F : Type 0) (s : Slot) (st : Store) (w : World)
    → IsFull s
    → F
    → P (clear s.owner st)
    → Yields P F (drop_connection s st w)
unfolding drop_connection or_fault
drop_connection-Yields P F s st w full f h = rw full.connected (
    ignore-Yields P F _ _ w λ _ v1. call-Yields P F _ _ v1 λ _ v2. call-Yields P F _ _ v2 λ fd v3.
      ignore-Yields P F _ _ v3 λ _ v4.
        then-Yields P F (destroy_connection full.nc) _ v4 (destroy_connection-NoFault full.nc)
          λ _ v5.
            fault_if-Yields P F _ _ v5 f
              λ _ v6. tell-Yields P F _ _ v6 λ _ v7. ok-Yields P F _ v7 h)

on_disconnected-IsOrderly :
    (F : Type 0) (id : ℕ) (st : Store) (w : World)
    → IsOrderly st
    → ((s : Slot) → find id st ≡ some s → F)
    → Yields IsOrderly F (on_disconnected id st w)
unfolding on_disconnected
on_disconnected-IsOrderly F id st w h gone = elim (Option-cases (find id st)) [
  | inl e ↦ rw (e, on_disconnected) (ok-Yields IsOrderly F st w h)
  | inr e ↦
      rw (e.1, on_disconnected)
        (drop_connection-Yields IsOrderly F _ st w
          (with_state-IsFull disconnected_state e.0 (find-IsFull id st e.0 h e.1)) (gone e.0 e.1)
          (clear-IsOrderly e.0.owner st h))
]

on_established-IsOrderly :
    (F : Type 0) (id : ℕ) (st : Store) (w : World)
    → IsOrderly st
    → (find id st ≡ none → F)
    → Yields IsOrderly F (on_established id st w)
unfolding on_established Yields or_fault
on_established-IsOrderly F id st w h lost = elim (Option-cases (find id st)) [
  | inl e ↦ rw e (lost e)
  | inr e ↦ rw e.1 (
      put-IsOrderly (with_state established_state e.0) st
        (with_state-IsFull established_state e.0 (find-IsFull id st e.0 h e.1)) h)
]

-- an event that the `switch` of handle_cm_event has no case for
abbrev pub IsOther : CmEventType → Type 0
IsOther connect_request = ⊥
IsOther established = ⊥
IsOther disconnected = ⊥
IsOther _ = Unit

-- Where a case of handle_cm_event may have no defined meaning: ESTABLISHED for an id with no
-- context writes through NULL, DISCONNECTED for one with a context writes to the id that it has
-- freed, and the default case reads the event that was given back.
pub data Undefined (id : ℕ) (st : Store) : CmEventType → Type 0 where
  no_context : find id st ≡ none → Undefined id st established
  freed_id : (s : Slot) → find id st ≡ some s → Undefined id st disconnected
  freed_event : (ev : CmEventType) → IsOther ev → Undefined id st ev

pub dispatch_cm_event-IsOrderly :
    (fd : ℕ) (ev : CmEventType) (id : ℕ) (st : Store) (w : World)
    → IsOrderly st
    → Yields IsOrderly (Undefined id st ev) (dispatch_cm_event fd ev id st w)
unfolding dispatch_cm_event
dispatch_cm_event-IsOrderly fd connect_request id st w h =
    on_connect_request-IsOrderly _ fd id st w h
dispatch_cm_event-IsOrderly fd established id st w h =
    on_established-IsOrderly _ id st w h λ e. no_context e
dispatch_cm_event-IsOrderly fd disconnected id st w h =
    on_disconnected-IsOrderly _ id st w h λ s e. freed_id s e
dispatch_cm_event-IsOrderly fd _ id st w h =
    fault_if-Yields IsOrderly _ _ _ w (freed_event _ tt) λ _ v. ok-Yields IsOrderly _ st v h
