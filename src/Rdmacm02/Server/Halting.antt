-- ===== src/Rdmacm02/Server/Halting.antt =====
-- The end of a thread and of main.
use rdma_tutorial.Prelude.{ℕ, ◌<◌, List, length, arith}
use rdma_tutorial.External.{Reply, Trace}
use rdma_tutorial.Machine.Halts.{Halts, halting, bind-Halts, rest-length}
use rdma_tutorial.Rdmacm.Halting.{
  build_connection-Halts, listen_for_clients-Halts, close_listener-Halts,
}
use rdma_tutorial.Rdmacm05.Common.{Leftover}
use rdma_tutorial.Rdmacm02.Common.{setup_connection}
use rdma_tutorial.Rdmacm02.Server.{handle_request, cm_event_loop, main}
use rdma_tutorial.Rdmacm04.Table.{Table}
use rdma_tutorial.Rdmacm04.Server.Halting.{cm_event_loop-Halts}

-- A thread has no loop: on every script it returns, dies or waits.
pub handle_request02-Halts :
    (m : Leftover) (id index : ℕ) (rs : List Reply) (t : Trace)
    → Halts rs (handle_request m id index (rs, t))
unfolding handle_request setup_connection
handle_request02-Halts m id index rs t = search (halting, build_connection-Halts) depth 20

-- With more fuel than replies, `main` returns, dies, waits or faults, whatever the libraries reply,
-- and never runs out of the fuel of its loop.
pub main02-Halts :
    (threads : ℕ → Table → Table) (fuel : ℕ) (rs : List Reply) (t : Trace)
    → length rs < fuel
    → Halts rs (main threads fuel (rs, t))
unfolding main cm_event_loop
main02-Halts threads fuel rs t enough =
    bind-Halts rs _ _ (listen_for_clients-Halts rs t) λ l s1 u1 p1.
      bind-Halts s1 _ _
        (cm_event_loop-Halts threads fuel l.ec _ s1 u1
          (omega (arith, enough, rest-length s1 rs p1)))
        λ _ s2 u2 p2. close_listener-Halts l s2 u2
