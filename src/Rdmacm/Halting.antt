-- ===== src/Rdmacm/Halting.antt =====
-- The parts that the mains share end on every script.
use rdma_tutorial.Prelude.{ℕ, List}
use rdma_tutorial.External.{Reply, Trace, CmEvent, CmEventType}
use rdma_tutorial.Machine.Halts.{Halts, halting}
use rdma_tutorial.Rdmacm.Active.{Client, await_event, connect_server, close_client}
use rdma_tutorial.Rdmacm.Passive.{
  Listener, Accepted, listen_for_clients, accept_client, close_listener, close_server,
}
use rdma_tutorial.Rdmacm05.Common.{Variant, build_connection, check_cm_event}

pub build_connection-Halts :
    (v : Variant) (id : ℕ) (rs : List Reply) (t : Trace) → Halts rs (build_connection v id (rs, t))
unfolding build_connection
build_connection-Halts v id rs t = search halting depth 40

check_cm_event-Halts :
    (e : CmEvent) (exp : CmEventType) (rs : List Reply) (t : Trace)
    → Halts rs (check_cm_event e exp (rs, t))
unfolding check_cm_event
check_cm_event-Halts e exp rs t = search halting depth 40

pub await_event-Halts :
    (ec : ℕ) (exp : CmEventType) (rs : List Reply) (t : Trace)
    → Halts rs (await_event ec exp (rs, t))
unfolding await_event
await_event-Halts ec exp rs t = search (halting, check_cm_event-Halts) depth 40

pub listen_for_clients-Halts : (rs : List Reply) (t : Trace) → Halts rs (listen_for_clients (rs, t))
unfolding listen_for_clients
listen_for_clients-Halts rs t = search halting depth 40

pub accept_client-Halts :
    (v : Variant) (l : Listener) (rs : List Reply) (t : Trace)
    → Halts rs (accept_client (build_connection v) l (rs, t))
unfolding accept_client
accept_client-Halts v l rs t = search (halting, await_event-Halts, build_connection-Halts) depth 40

pub connect_server-Halts :
    (v : Variant) (rs : List Reply) (t : Trace)
    → Halts rs (connect_server (build_connection v) (rs, t))
unfolding connect_server
connect_server-Halts v rs t = search (halting, await_event-Halts, build_connection-Halts) depth 40

pub close_client-Halts :
    (c : Client) (rs : List Reply) (t : Trace) → Halts rs (close_client c (rs, t))
unfolding close_client
close_client-Halts c rs t = search halting depth 40

pub close_listener-Halts :
    (l : Listener) (rs : List Reply) (t : Trace) → Halts rs (close_listener l (rs, t))
unfolding close_listener
close_listener-Halts l rs t = search halting depth 40

pub close_server-Halts :
    (a : Accepted) (rs : List Reply) (t : Trace) → Halts rs (close_server a (rs, t))
unfolding close_server
close_server-Halts a rs t = search (halting, close_listener-Halts) depth 40
