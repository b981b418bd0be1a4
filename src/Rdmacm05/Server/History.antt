-- ===== src/Rdmacm05/Server/History.antt =====
-- The contexts of src/rdmacm05/server.c after a history of events of the connection manager.
use mathlib.Core.Path.{subst}
use rdma_tutorial.Prelude.{ℕ, ◌≡◌, refl, sym, ◌∙◌, ◌<◌, List, [], ◌∷◌, length, Bool-cases, inl, inr}
use rdma_tutorial.External.{Call, CmEvent, Reply, Trace, is_zero}
use rdma_tutorial.Machine.{World, Outcome}
use rdma_tutorial.Machine.Follows.{Follows-same}
use rdma_tutorial.Machine.Grows.{Grows}
use rdma_tutorial.Machine.Halts.{Halts}
use rdma_tutorial.Machine.Leaves.{
  Leaves, Grows-Leaves, Yields-Leaves, both-Leaves, map-Leaves, ok-Leaves, bind-Leaves, call-Leaves,
  ignore-Leaves,
}
use rdma_tutorial.Machine.Observe.{TakesNoEvent, cm_events}
use rdma_tutorial.Rdmacm05.Server.Defs.{
  Store, find, dispatch_cm_event, handle_cm_event, handle_cq_event, main_loop,
}
use rdma_tutorial.Rdmacm05.Server.Contexts.{IsOrderly}
use rdma_tutorial.Rdmacm05.Server.Contract.{
  Step, Reached, start, event, newest, Agrees, Reached-Agrees,
}
use rdma_tutorial.Rdmacm05.Server.Growing.{dispatch_cm_event-IsGrowing, handle_cq_event-IsGrowing}
use rdma_tutorial.Rdmacm05.Server.Halting.{main_loop-Halts}
use rdma_tutorial.Rdmacm05.Server.Invariant.{dispatch_cm_event-IsOrderly}
use rdma_tutorial.Rdmacm05.Server.Loop.{main_loop-Leaves}
use rdma_tutorial.Rdmacm05.Server.Refines.{view, dispatch_cm_event-Steps}

-- The contexts are in order, and are what the events of the trace lead to.
abbrev pub Tracks : Store → Trace → Type 0
Tracks st t = IsOrderly st × Reached (cm_events t) (view st)

unseen : (c : Call) (r : Reply) (t : Trace) → TakesNoEvent c → cm_events ((c, r) ∷ t) ≡ cm_events t
unseen (Call.get_cm_event _) r t h = absurd h
unseen _ r t h = refl

quiet-cm_events :
    {A : Type 0} (t : Trace) (m : Outcome A × World)
    → Grows TakesNoEvent t m
    → Leaves (λ _ u. cm_events u ≡ cm_events t) m
quiet-cm_events t m grows =
    map-Leaves _ _ m (λ _ u h. Follows-same cm_events TakesNoEvent unseen t u h)
      (Grows-Leaves TakesNoEvent t m grows)

-- a case of the `switch`, once its event is in the history
dispatch_cm_event-Tracks :
    (fd : ℕ) (e : CmEvent) (es : List CmEvent) (st : Store) (rs : List Reply) (t : Trace)
    → cm_events t ≡ e ∷ es
    → IsOrderly st
    → Reached es (view st)
    → Leaves Tracks (dispatch_cm_event fd e.event e.id st (rs, t))
dispatch_cm_event-Tracks fd e es st rs t now h before =
    both-Leaves _ _ _ _
      (λ st' u p q.
        (p.0, subst (λ l. Reached l (view st')) (sym (q ∙ now)) (event e es _ _ before p.1)))
      (both-Leaves _ _ (λ st' _. IsOrderly st' × Step (view st) e.id e.event (view st')) _
        (λ _ _ p q. (p, q))
        (Yields-Leaves _ _ _ (dispatch_cm_event-IsOrderly fd e.event e.id st (rs, t) h))
        (Yields-Leaves _ _ _ (dispatch_cm_event-Steps fd e.event e.id st (rs, t) h)))
      (quiet-cm_events t _ (dispatch_cm_event-IsGrowing fd e.event e.id st rs t))

handle_cm_event-Tracks :
    (fd ec : ℕ) (st : Store) (rs : List Reply) (t : Trace)
    → Tracks st t
    → Leaves (λ r u. Tracks r.1 u) (handle_cm_event fd ec st (rs, t))
unfolding handle_cm_event
handle_cm_event-Tracks fd ec st rs t h = call-Leaves _ rs t _ _ λ r s1.
    elim (Bool-cases (is_zero r.code)) [
      | inr z ↦ rw z (ok-Leaves _ _ _ _ (h.0, rw z h.1))
      | inl z ↦ rw z (
          ignore-Leaves _ _ _ _ _ λ a s2.
            bind-Leaves _ Tracks _ _
              (dispatch_cm_event-Tracks fd r.event (cm_events t) st s2 _ (rw z refl) h.0 h.1)
              λ st' s3 u3 g. ok-Leaves _ _ s3 u3 g)
    ]

handle_cq_event-Tracks :
    (fuel cc : ℕ) (st : Store) (rs : List Reply) (t : Trace)
    → Tracks st t
    → Leaves (λ _ u. Tracks st u) (handle_cq_event fuel cc st (rs, t))
handle_cq_event-Tracks fuel cc st rs t h =
    map-Leaves _ _ _ (λ _ u same. (h.0, subst (λ l. Reached l (view st)) (sym same) h.1))
      (quiet-cm_events t _ (handle_cq_event-IsGrowing fuel cc st rs t))

-- The main loop implements the contract: from the empty store before any event, with more fuel than
-- replies it ends within its fuel, and if it returns, the contexts are in order, and as a map from
-- ids they are one that the contract reaches by exactly the events that the loop took, in their
-- order. That is for any number of rounds and any replies.
pub main_loop-Reached :
    (fuel fd ec : ℕ) (rs : List Reply)
    → length rs < fuel
    → Halts rs (main_loop fuel fd ec [] (rs, []))
      × Leaves
          (λ st u. IsOrderly st × Reached (cm_events u) (view st))
          (main_loop fuel fd ec [] (rs, []))
main_loop-Reached fuel fd ec rs enough = (
  main_loop-Halts fuel fd ec [] rs [] enough,
  main_loop-Leaves Tracks (λ _ _ _ h. h) (λ _ _ _ h. h) handle_cm_event-Tracks
      handle_cq_event-Tracks fuel fd ec [] rs [] (tt, start),
)

-- What the main loop keeps of a client is what the newest event about its id says, if there is more
-- fuel than replies: the loop ends within its fuel, and if it returns, an id with no event or with
-- DISCONNECTED as its newest has no context, one with ESTABLISHED has a context in the state
-- ESTABLISHED, and one with a CONNECT_REQUEST has none, or one in the state ACCEPTING or
-- ESTABLISHED.
pub main_loop-Agrees :
    (fuel fd ec id : ℕ) (rs : List Reply)
    → length rs < fuel
    → Halts rs (main_loop fuel fd ec [] (rs, []))
      × Leaves
          (λ st u. Agrees (newest (cm_events u) id) (find id st))
          (main_loop fuel fd ec [] (rs, []))
main_loop-Agrees fuel fd ec id rs enough =
    let h : Halts rs (main_loop fuel fd ec [] (rs, []))
        × Leaves Tracks (main_loop fuel fd ec [] (rs, [])) =
      main_loop-Reached fuel fd ec rs enough in
    (h.0, map-Leaves _ _ _ (λ st u p. Reached-Agrees (cm_events u) (view st) id p.1) h.1)
