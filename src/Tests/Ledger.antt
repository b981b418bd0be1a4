-- ===== src/Tests/Ledger.antt =====
-- A server that accepts a connection, establishes it, echoes one message and takes it down, and
-- then accepts another.
use rdma_tutorial.Prelude.{◌≡◌, refl, ℕ, List, [], ◌∷◌, ◌++◌, arith, drop}
use rdma_tutorial.External.{
  pos, negsuc, Reply, no_reply, CmEventType, connect_request, established, disconnected,
}
use rdma_tutorial.Machine.{
  fault_if, Outcome, World, ok, call, tell, fault_if, ignore, ignore_if, tell_if, die_if, nonnull,
  or_fault, strcpy, zero_or_die,
}
use rdma_tutorial.Machine.Halts.{Halts}
use rdma_tutorial.Machine.Leaves.{Leaves}
use rdma_tutorial.Resources.Honest.{IsHonest}
use rdma_tutorial.Rdmacm05.Common.{build_connection, setup_connection}
use rdma_tutorial.Rdmacm05.Server.{
  Store, main_loop, handle_events, handle_cm_event, dispatch_cm_event, on_connect_request,
  handle_new_request, on_established, on_disconnected, drop_connection, destroy_connection,
  handle_cq_event, drain_cq, handle_wcs, handle_wc, dispatch_opcode, echo,
}
use rdma_tutorial.Rdmacm05.Server.Ledger.{IsBalanced}
use rdma_tutorial.Rdmacm05.Server.Balance.{main_loop-IsBalanced}
use rdma_tutorial.Rdmacm05.Server.{find}
use rdma_tutorial.Machine.Observe.{cm_events}
use rdma_tutorial.Machine.Yields.{Yields}
use rdma_tutorial.Prelude.{some}
use rdma_tutorial.Resources.Standing.{standing, IsGranted}
use rdma_tutorial.Rdmacm05.Server.Ownership.{owned}
use rdma_tutorial.Rdmacm05.Server.Invariant.{Undefined}
use rdma_tutorial.Rdmacm05.Server.Contexts.{IsOrderly}
use rdma_tutorial.Rdmacm05.Server.Contract.{Step, Reached, Agrees, newest}
use rdma_tutorial.Rdmacm05.Server.Refines.{view, dispatch_cm_event-Steps}
use rdma_tutorial.Rdmacm05.Server.History.{main_loop-Reached, main_loop-Agrees}
use rdma_tutorial.Tests.Loops.{store-IsOrderly}
use rdma_tutorial.Tests.Scripts.{done, gives, returns}
use rdma_tutorial.Tests.Rdmacm05.{setup_script, thirteen, event_script, store}

-- a round in which one source is ready
abbrev ready : ℕ → List Reply
ready p = returns 1 ∷ record no_reply { code = pos 1; ptrs = p ∷ [] } ∷ []

abbrev happens : CmEventType → ℕ → List Reply
happens ev id = ready 2 ++ record no_reply { event = record { event = ev; id = id } } ∷ done ∷ []

abbrev accepts : List Reply
accepts = gives 10 ∷ setup_script ++ done ∷ done ∷ done ∷ []

abbrev life : List Reply
life =
    happens connect_request 1
    ++ accepts
    ++ happens established 1
    ++ ready 14
    ++ event_script
    ++ happens disconnected 1
    ++ done ∷ record no_reply { code = negsuc 0 } ∷ drop 5 thirteen
    ++ happens connect_request 1
    ++ accepts
    ++ done ∷ []

abbrev run : Outcome Store × World
run = main_loop 99 5 2 [] (life, [])

life_ends : (run.0 ≡ ok store) × IsHonest run.1.1 × IsGranted run.1.1
unfolding main_loop handle_events handle_cm_event dispatch_cm_event on_connect_request
    handle_new_request on_established on_disconnected drop_connection destroy_connection
    handle_cq_event drain_cq handle_wcs handle_wc dispatch_opcode echo setup_connection
    build_connection call tell fault_if ignore ignore_if tell_if die_if nonnull or_fault strcpy
    zero_or_die
life_ends = (refl, ground arith, ground arith)

main_loop-IsBalanced_example :
    Halts life (main_loop 99 5 2 [] (life, []))
    × Leaves
        (λ st u. IsBalanced st u × (standing u ≡ some (owned st ++ [])))
        (main_loop 99 5 2 [] (life, []))
main_loop-IsBalanced_example =
    main_loop-IsBalanced 99 5 2 [] life [] (record { ledger = refl; orderly = tt; listed = tt })
      (omega arith) life_ends.1 life_ends.2

main_loop-Reached_example :
    Halts life (main_loop 99 5 2 [] (life, []))
    × Leaves
        (λ st u. IsOrderly st × Reached (cm_events u) (view st))
        (main_loop 99 5 2 [] (life, []))
main_loop-Reached_example = main_loop-Reached 99 5 2 life (omega arith)

main_loop-Agrees_example :
    Halts life (main_loop 99 5 2 [] (life, []))
    × Leaves (λ st u. Agrees (newest (cm_events u) 1) (find 1 st)) (main_loop 99 5 2 [] (life, []))
main_loop-Agrees_example = main_loop-Agrees 99 5 2 1 life (omega arith)

dispatch_cm_event-Steps_example :
    Yields
      (λ st. Step (view store) 1 disconnected (view st))
      (Undefined 1 store disconnected)
      (dispatch_cm_event 5 disconnected 1 store (thirteen, []))
dispatch_cm_event-Steps_example =
    dispatch_cm_event-Steps 5 disconnected 1 store (thirteen, []) store-IsOrderly
