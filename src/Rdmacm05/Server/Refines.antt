-- ===== src/Rdmacm05/Server/Refines.antt =====
-- The store of src/rdmacm05/server.c implements the map of its contract.
use mathlib.Core.Path.{subst, fun_ext}
use rdma_tutorial.Prelude.{
  ℕ, ◌≡◌, refl, sym, ap, ◌∙◌, none, some, [], ◌∷◌, ◌==◌, Bool-cases, Option-cases, inl, inr, arith,
}
use rdma_tutorial.External.{CmEventType, connect_request, established, disconnected}
use rdma_tutorial.Machine.{World, or_fault, fault_if}
use rdma_tutorial.Machine.Yields.{Yields, ok-Yields, call-Yields, ignore-Yields}
use rdma_tutorial.Rdmacm05.Server.Defs.{
  Slot, Store, find, put, replace, clear, new_slot, accepted, with_state, established_state,
  disconnected_state, on_connect_request, on_established, on_disconnected, dispatch_cm_event,
}
use rdma_tutorial.Rdmacm05.Server.Contexts.{
  IsOrderly, with_state-IsFull, find-IsFull, put-put_again,
}
use rdma_tutorial.Rdmacm05.Server.Contract.{
  View, update, delete, Step, accepts, rejects, establishes, drops, misses,
}
use rdma_tutorial.Rdmacm05.Server.Invariant.{
  handle_new_request-Yields, drop_connection-Yields, Undefined, no_context, freed_id, freed_event,
}
use rdma_tutorial.Rdmacm05.Server.Ownership.{find-owner}

abbrev pub view : Store → View
view st id = find id st

find-replace_hit :
    (id : ℕ) (s x : Slot) (st : Store)
    → find s.owner st ≡ some x
    → find id (replace s st) ≡ update s.owner s (view st) id
find-replace_hit id s x [] h = cc
find-replace_hit id s x (y ∷ st) h = ground (arith, find-replace_hit id s x st)

-- `id->context = ...` and `id->context = NULL` on the map
view-put : (s : Slot) (st : Store) → view (put s st) ≡ update s.owner s (view st)
view-put s st = fun_ext λ id. elim (Option-cases (find s.owner st)) [
  | inl e ↦ rw (e, put) refl
  | inr (x, e) ↦ rw (e, put) (find-replace_hit id s x st e)
]

find-clear_hit :
    (id j : ℕ) (st : Store) → IsOrderly st → find id (clear j st) ≡ delete j (view st) id
find-clear_hit id j [] h = ground arith
find-clear_hit id j (s ∷ st) h = ground (arith, find-clear_hit id j st h.2)

view-clear : (id : ℕ) (st : Store) → IsOrderly st → view (clear id st) ≡ delete id (view st)
view-clear id st h = fun_ext λ j. find-clear_hit j id st h

-- The outcome of a case, as a step of the map.
abbrev Steps : Store → ℕ → CmEventType → Store → Type 0
Steps st id ev st' = Step (view st) id ev (view st')

module _ (F : Type 0) (id : ℕ) (st : Store) (w : World) where
  on_connect_request-Steps :
      (fd : ℕ) → Yields (Steps st id connect_request) F (on_connect_request fd id st w)
  unfolding on_connect_request
  on_connect_request-Steps fd = call-Yields _ F _ _ w λ m v. elim (Bool-cases (m.ptr == 0)) [
    | inl z ↦ rw z (ignore-Yields _ F _ _ v λ _ u. ok-Yields _ F st u rejects)
    | inr z ↦ rw z (
        handle_new_request-Yields _ F fd m.ptr (new_slot id m.ptr) _ v λ nc.
          subst (Step (view st) id connect_request)
            (sym (ap view (put-put_again id m.ptr nc st) ∙ view-put (accepted id m.ptr nc) st))
            (accepts m.ptr nc))
  ]

  on_established-Steps :
      (find id st ≡ none → F) → Yields (Steps st id established) F (on_established id st w)
  unfolding on_established Yields or_fault
  on_established-Steps lost = elim (Option-cases (find id st)) [
    | inl e ↦ rw e (lost e)
    | inr (s, e) ↦ rw e (
        subst (Step (view st) id established)
          (sym (
            view-put (with_state established_state s) st
            ∙ ap (λ i. update i (with_state established_state s) (view st)) (find-owner id st s e)))
          (establishes s e))
  ]

  on_disconnected-Steps :
      IsOrderly st
      → ((s : Slot) → find id st ≡ some s → F)
      → Yields (Steps st id disconnected) F (on_disconnected id st w)
  unfolding on_disconnected
  on_disconnected-Steps h gone = elim (Option-cases (find id st)) [
    | inl e ↦ rw (e, on_disconnected) (ok-Yields _ F st w (misses e))
    | inr (s, e) ↦
        rw (e, on_disconnected)
          (drop_connection-Yields _ F _ st w
            (with_state-IsFull disconnected_state s (find-IsFull id st s h e)) (gone s e)
            (subst (Step (view st) id disconnected)
              (sym (ap (λ i. view (clear i st)) (find-owner id st s e) ∙ view-clear id st h))
              (drops s e)))
  ]

-- Each case of handle_cm_event that returns takes the map of the contexts through the step that the
-- contract allows for its event, if the contexts are in order: a request adds a context in the
-- state ACCEPTING or is rejected, ESTABLISHED changes the state of the context of its id, and
-- DISCONNECTED takes the context of its id out. That is for all replies of the libraries. A case
-- faults only on ESTABLISHED for an id that has no context, on DISCONNECTED for one that has, where
-- the id may be freed, and on an event without a case, which is read after it was given back.
pub dispatch_cm_event-Steps :
    (fd : ℕ) (ev : CmEventType) (id : ℕ) (st : Store) (w : World)
    → IsOrderly st
    → Yields
        (λ st'. Step (view st) id ev (view st'))
        (Undefined id st ev)
        (dispatch_cm_event fd ev id st w)
unfolding dispatch_cm_event Yields fault_if
dispatch_cm_event-Steps fd connect_request id st w h = on_connect_request-Steps _ id st w fd
dispatch_cm_event-Steps fd established id st w h = on_established-Steps _ id st w λ e. no_context e
dispatch_cm_event-Steps fd disconnected id st w h =
    on_disconnected-Steps _ id st w h λ s e. freed_id s e
dispatch_cm_event-Steps fd _ id st w h = freed_event _ tt
