-- ===== src/Tests/Rdmacm04.antt =====
-- The server with one thread for each connection: its table after two connections, and its
-- releases.
use rdma_tutorial.Prelude.{◌≡◌, ◌≤◌, refl, none, not, List, [], ◌∷◌, arith}
use rdma_tutorial.External.{connect_request}
use rdma_tutorial.Prelude.{All, codes}
use rdma_tutorial.External.{negsuc, Reply, no_reply}
use rdma_tutorial.Machine.Finishes.{Finishes}
use rdma_tutorial.Rdmacm04.Server.{handle_request}
use rdma_tutorial.Rdmacm04.Server.Thread.{HasServed, handle_request-HasServed}
use rdma_tutorial.Tests.Rdmacm03.{dirt}
use rdma_tutorial.Tests.Rdmacm05.{setup_script}
use rdma_tutorial.Prelude.{◌++◌, drop}
use rdma_tutorial.Rdmacm03.Server.Serving.{Fits}
use rdma_tutorial.Machine.Ends.{Ends}
use rdma_tutorial.Resources.{settle, entry, block}
use rdma_tutorial.Rdmacm04.Table.{Table, max_threads, at, set_at, taken, empty_table}
use rdma_tutorial.Rdmacm04.Threads.{
  Phase, Thread, thread, system, Reachable, accept, start, after, holders, holding, used,
}
use rdma_tutorial.Rdmacm04.Threads.Served.{served-le}
use rdma_tutorial.Rdmacm04.Server.{dispatch_cm_event, close_connection}
use rdma_tutorial.Rdmacm04.Server.Steps.{Takes, is_handled, dispatch_cm_event-Takes}
use rdma_tutorial.Rdmacm04.Server.Teardown.{close_connection-settle}
use rdma_tutorial.Tests.Scripts.{done, reads}
use rdma_tutorial.Tests.Rdmacm05.{conn, thirteen, request_trace, request_owns, recv_done, send_done}

abbrev two_taken : Table
two_taken = set_at 1 (taken 6 1) (set_at 0 (taken 5 0) (empty_table max_threads))

abbrev two_threads : List Thread
two_threads = thread 1 Phase.accepting ∷ thread 0 Phase.accepting ∷ []

two_connections : Reachable (system two_taken two_threads)
two_connections =
    after _ _ (after _ _ start (accept 5 (empty_table max_threads) [] (ground arith) (omega arith)))
      (accept 6 (set_at 0 (taken 5 0) (empty_table max_threads)) (thread 0 Phase.accepting ∷ [])
        (ground arith) (omega arith))

served-le_example :
    (holding two_threads ≤ max_threads) × (holders 1 two_threads ≤ used (at 1 two_taken))
served-le_example = served-le (system two_taken two_threads) 1 two_connections

dispatch_cm_event-Takes_example :
    Ends
      (λ next u.
        Takes connect_request 7 two_taken two_threads [] next.0 u
        × (next.1 ≡ not (is_handled connect_request)))
      (λ _ _. ⊥)
      (dispatch_cm_event connect_request 7 two_taken (done ∷ [], []))
dispatch_cm_event-Takes_example =
    dispatch_cm_event-Takes connect_request 7 two_taken two_threads (done ∷ []) [] (ground arith)
      refl

close_connection-settle_example :
    Ends (λ _ u. settle u ≡ none) (λ _ _. ⊥) (close_connection conn (thirteen, request_trace))
close_connection-settle_example =
    close_connection-settle conn (entry (block, 10) [] ∷ []) thirteen request_trace
      (refl, refl, refl, refl, refl, refl, refl, refl) request_owns

-- a message that is echoed, the end of that send, and a failed poll
abbrev pub serve_script : List Reply
serve_script =
    recv_done
    ∷ reads (codes "hello")
    ∷ done
    ∷ done
    ∷ done
    ∷ send_done
    ∷ done
    ∷ record no_reply { code = negsuc 0 }
    ∷ []

serve_script-Fits : All Fits serve_script
serve_script-Fits = ground arith

abbrev thread_script : List Reply
thread_script = setup_script ++ done ∷ done ∷ [] ++ serve_script ++ drop 1 thirteen

thread_script-Fits : All Fits thread_script
thread_script-Fits = ground arith

handle_request-HasServed_example :
    Finishes (λ _ _ u. HasServed [] u) (handle_request 50 dirt 5 0 (thread_script, []))
handle_request-HasServed_example =
    handle_request-HasServed 50 dirt 5 0 thread_script [] [] thread_script-Fits (omega arith) refl
