-- ===== src/Rdmacm04/Server/Halting.antt =====
-- The end of the loops of src/rdmacm04/server.c.
use rdma_tutorial.Prelude.{ℕ, zero, suc, ◌<◌, Bool, true, false, List, length, arith}
use rdma_tutorial.External.{
  Reply, Trace, Call, CmEventType, connect_request, established, disconnected,
}
use rdma_tutorial.Machine.{Prog, pure}
use rdma_tutorial.Machine.Halts.{
  Halts, halting, bind-Halts, ok-Halts, rest-length, last_tell-Halts, ignore_if-Halts,
  tell_if-Halts,
}
use rdma_tutorial.Machine.Uses.{round-Halts, Uses, seq-Uses, poll-Uses, nzero-Uses}
use rdma_tutorial.Rdmacm.Halting.{listen_for_clients-Halts, close_listener-Halts}
use rdma_tutorial.Rdmacm05.Common.{Connection}
use rdma_tutorial.Rdmacm03.Server.Halting.{serve_completion-Halts}
use rdma_tutorial.Rdmacm04.Table.{Table}
use rdma_tutorial.Rdmacm04.Server.Defs.{
  serve_once, close_connection, on_connect_request, dispatch_cm_event, handle_cm_event,
  cm_event_loop, main,
}

serve_once-Halts :
    (nc : Connection) (i : ℕ) (rs : List Reply) (t : Trace) → Halts rs (serve_once nc i (rs, t))
unfolding serve_once
serve_once-Halts nc i rs t = search (halting, serve_completion-Halts) depth 20

serve_once-Uses :
    (nc : Connection) (i : ℕ) (rs : List Reply) (t : Trace)
    → Uses (length rs) (serve_once nc i (rs, t))
unfolding serve_once
serve_once-Uses nc i rs t =
    seq-Uses (length rs) _ _ (poll-Uses rs t (Call.poll_cq nc.cq 1))
      λ got s u. search (halting, serve_completion-Halts) depth 20

pub close_connection-Halts :
    (nc : Connection) (rs : List Reply) (t : Trace) → Halts rs (close_connection nc (rs, t))
unfolding close_connection
close_connection-Halts nc rs t = ignore_if-Halts _ _ _ rs t λ r1 u1.
    ignore_if-Halts _ _ _ r1 u1 λ r2 u2. ignore_if-Halts _ _ _ r2 u2 λ r3 u3.
      ignore_if-Halts _ _ _ r3 u3 λ r4 u4. ignore_if-Halts _ _ _ r4 u4 λ r5 u5.
        tell_if-Halts _ _ _ r5 u5 λ r6 u6.
          tell_if-Halts _ _ _ r6 u6
            λ r7 u7. ignore_if-Halts _ _ _ r7 u7 λ r8 u8. last_tell-Halts r8 u8 _

on_connect_request-Halts :
    (id : ℕ) (tab : Table) (rs : List Reply) (t : Trace)
    → Halts rs (on_connect_request id tab (rs, t))
unfolding on_connect_request
on_connect_request-Halts id tab rs t = search halting depth 20

pub dispatch_cm_event-Halts :
    (ev : CmEventType) (id : ℕ) (tab : Table) (rs : List Reply) (t : Trace)
    → Halts rs (dispatch_cm_event ev id tab (rs, t))
unfolding dispatch_cm_event
dispatch_cm_event-Halts connect_request id tab rs t =
    search (halting, on_connect_request-Halts) depth 20
dispatch_cm_event-Halts established id tab rs t = search halting
dispatch_cm_event-Halts disconnected id tab rs t = search halting
dispatch_cm_event-Halts _ id tab rs t = search halting

handle_cm_event-Halts :
    (ec : ℕ) (tab : Table) (rs : List Reply) (t : Trace) → Halts rs (handle_cm_event ec tab (rs, t))
unfolding handle_cm_event
handle_cm_event-Halts ec tab rs t = search (halting, dispatch_cm_event-Halts) depth 20

handle_cm_event-Uses :
    (ec : ℕ) (tab : Table) (rs : List Reply) (t : Trace)
    → Uses (length rs) (handle_cm_event ec tab (rs, t))
unfolding handle_cm_event
handle_cm_event-Uses ec tab rs t =
    seq-Uses (length rs) _ _ (nzero-Uses rs t _ (Call.get_cm_event ec))
      λ r s u. search (halting, dispatch_cm_event-Halts) depth 20

after_event :
    (threads : ℕ → Table → Table) (fuel ec : ℕ) (tab : Table) (stop : Bool) (rs : List Reply)
    (t : Trace)
    → Halts rs (cm_event_loop threads fuel ec tab (rs, t))
    → Halts rs (
        (elim stop as (λ _. Prog Table) [
          | true ↦ pure tab
          | false ↦ cm_event_loop threads fuel ec tab
        ])
          (rs, t))
after_event threads fuel ec tab true rs t h = ok-Halts tab rs t
after_event threads fuel ec tab false rs t h = h

pub cm_event_loop-Halts :
    (threads : ℕ → Table → Table) (fuel ec : ℕ) (tab : Table) (rs : List Reply) (t : Trace)
    → length rs < fuel
    → Halts rs (cm_event_loop threads fuel ec tab (rs, t))
unfolding cm_event_loop
cm_event_loop-Halts threads zero ec tab rs t enough = absurd (omega arith)
cm_event_loop-Halts threads (suc fuel) ec tab rs t enough =
    round-Halts rs _ _ (handle_cm_event-Halts ec (threads fuel tab) rs t)
      (handle_cm_event-Uses ec (threads fuel tab) rs t)
      λ next s u l.
        after_event threads fuel ec next.0 next.1 s u
          (cm_event_loop-Halts threads fuel ec next.0 s u (omega (arith, l)))

-- The server with a thread for each connection: with more fuel than replies, its `main` returns,
-- dies, waits or faults, whatever the libraries reply, and never runs out of the fuel of its loop.
pub main04-Halts :
    (threads : ℕ → Table → Table) (fuel : ℕ) (rs : List Reply) (t : Trace)
    → length rs < fuel
    → Halts rs (main threads fuel (rs, t))
unfolding main
main04-Halts threads fuel rs t enough =
    bind-Halts rs _ _ (listen_for_clients-Halts rs t) λ l s1 u1 p1.
      bind-Halts s1 _ _
        (cm_event_loop-Halts threads fuel l.ec _ s1 u1
          (omega (arith, enough, rest-length s1 rs p1)))
        λ _ s2 u2 p2. close_listener-Halts l s2 u2
