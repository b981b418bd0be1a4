-- ===== src/Tests/Rdmacm05.antt =====
-- A server that accepts one connection, echoes one message and takes the connection down, and a
-- client that sends two messages.
use rdma_tutorial.Prelude.{drop, ◌≢◌}
use rdma_tutorial.Machine.{died, reason}
use rdma_tutorial.Rdmacm05.Common.{check_cm_event}
use rdma_tutorial.Rdmacm05.Common.Events.{check_cm_event-exact}
use rdma_tutorial.Rdmacm05.Client.Program.{atoi-message}
use rdma_tutorial.Prelude.{◌<◌}
use rdma_tutorial.External.{
  wc_send, WrOpcode, SendFlag, CmEventType, addr_resolved, route_resolved, established,
}
use rdma_tutorial.Prelude.{
  ◌≡◌, refl, ℕ, ◌≤◌, false, some, ◌⊎◌, List, [], ◌∷◌, ◌++◌, ltb, if◌then◌else◌, length, arith,
  codes,
}
use rdma_tutorial.External.{pos, pos_part, Reply, no_reply, Trace, Call, WcStatus, wc_recv}
use rdma_tutorial.Machine.{ok, fault, call, tell, die_if, nonnull, zero_or_die}
use rdma_tutorial.Machine.Ends.{Ends, Refused}
use rdma_tutorial.Machine.Finishes.{Finishes}
use rdma_tutorial.Machine.Observe.{sent, freed_ids}
use rdma_tutorial.Machine.Ruins.{Ruins}
use rdma_tutorial.Libc.{atoi}
use rdma_tutorial.Resources.{settle, entry, block}
use rdma_tutorial.Rdmacm05.Common.{
  own_variant, Connection, buffer_size, build_connection, setup_connection,
}
use rdma_tutorial.Rdmacm05.Common.Setup.{IsReady, setup_connection-IsReady}
use rdma_tutorial.Rdmacm05.Server.{
  Store, accepted, handle_new_request, on_connect_request, on_disconnected, echo,
}
use rdma_tutorial.Rdmacm05.Server.Ownership.{
  owned, HasAccepted, Rejects, on_connect_request-HasAccepted, on_disconnected-settle,
}
use rdma_tutorial.Rdmacm05.Server.Echo.{echo_lem}
use rdma_tutorial.Rdmacm05.Client.{main, third, not_positive, exchange_messages}
use rdma_tutorial.Rdmacm05.Client.Rounds.{Never, messages, HasSent, exchange_messages-HasSent}
use rdma_tutorial.Rdmacm05.Client.Program.{message-fits, main-sends}
use rdma_tutorial.Rdmacm05.Client.{message}
use rdma_tutorial.Tests.Scripts.{done, gives, reads, trace_of}

abbrev pub setup_script : List Reply
setup_script =
    gives 11
    ∷ gives 12
    ∷ gives 13
    ∷ gives 14
    ∷ gives 15
    ∷ done
    ∷ gives 16
    ∷ gives 17
    ∷ gives 18
    ∷ gives 19
    ∷ gives 20
    ∷ done
    ∷ done
    ∷ done
    ∷ []

setup_connection-IsReady_example :
    Ends (IsReady own_variant [] []) Refused (setup_connection 1 (setup_script, []))
setup_connection-IsReady_example = setup_connection-IsReady 1 setup_script [] [] refl

-- a connection request for the id 1, with the context at 10
abbrev request_script : List Reply
request_script = gives 10 ∷ setup_script ++ done ∷ done ∷ done ∷ []

on_connect_request-HasAccepted_example :
    Ends
      (λ st' u. HasAccepted [] 1 [] st' u ⊎ Rejects [] 1 [] st' u)
      Refused
      (on_connect_request 5 1 [] (request_script, []))
on_connect_request-HasAccepted_example =
    on_connect_request-HasAccepted 5 1 [] [] request_script [] refl refl

abbrev pub request_trace : Trace
request_trace = trace_of (on_connect_request 5 1 [] (request_script, []))

abbrev pub conn : Connection
conn = record {
  self = 11;
  ctx = 12;
  pd = 13;
  cc = 14;
  cq = 15;
  qp = 16;
  recv_buff = 17;
  send_buff = 18;
  recv_mr = 19;
  send_mr = 20;
  recv_wr = record {
    wr_id = 11;
    next = 0;
    sg_list = record { addr = 17; length = 1024; lkey = 0 } ∷ [];
  };
  send_wr = record {
    wr_id = 11;
    next = 0;
    sg_list = record { addr = 18; length = 1024; lkey = 0 } ∷ [];
    opcode = WrOpcode.wr_send;
    send_flags = SendFlag.signaled ∷ [];
  };
}

abbrev pub store : Store
store = accepted 1 10 conn ∷ []

request_ends : on_connect_request 5 1 [] (request_script, []) ≡ (ok store, ([], request_trace))
unfolding on_connect_request handle_new_request setup_connection build_connection call tell die_if
    nonnull zero_or_die
request_ends = refl

pub request_owns : settle request_trace ≡ some (owned store ++ [])
unfolding on_connect_request handle_new_request setup_connection build_connection call tell die_if
    nonnull zero_or_die
request_owns = refl

abbrev pub thirteen : List Reply
thirteen =
    done ∷ done ∷ done ∷ done ∷ done ∷ done ∷ done ∷ done ∷ done ∷ done ∷ done ∷ done ∷ done ∷ []

on_disconnected-settle_example :
    Ruins
      (λ st' u.
        (st' ≡ []) × (settle u ≡ some (owned st' ++ [])) × (freed_ids u ≡ freed_ids request_trace))
      (λ _ _. ⊥)
      (λ u.
        (settle u ≡ some (entry (block, 10) [] ∷ [])) × (freed_ids u ≡ 1 ∷ freed_ids request_trace))
      (on_disconnected 1 store (thirteen, request_trace))
on_disconnected-settle_example =
    on_disconnected-settle 1 store [] (accepted 1 10 conn) conn thirteen request_trace refl refl
      (refl, refl, refl, refl, refl, refl, refl, refl)
      (record { before = ground arith; behind = ground arith }) (refl, refl) refl request_owns

abbrev receipt : Reply
receipt = record no_reply {
  code = pos 1;
  wcs = record { status = WcStatus.success; opcode = wc_recv; wr_id = 11; byte_len = 5 } ∷ [];
}

-- an event, the request for the next, a poll that finds a receive, its echo, and an empty poll
abbrev pub event_script : List Reply
event_script = gives 15 ∷ done ∷ receipt ∷ reads (codes "hello") ∷ done ∷ done ∷ done ∷ []

echo_lem_example : echo conn (reads (codes "hello") ∷ done ∷ done ∷ [], []) ≡ (
    if ltb (length (codes "hello")) buffer_size
    then (
      ok tt,
      (
        [],
        (Call.post_send 16 conn.send_wr (codes "hello"), done)
            ∷ (Call.post_recv 16 conn.recv_wr, done)
            ∷ (Call.load_string 17, reads (codes "hello"))
            ∷ [],
      ),
    )
    else (fault, (done ∷ done ∷ [], (Call.load_string 17, reads (codes "hello")) ∷ [])))
echo_lem_example = echo_lem conn (reads (codes "hello")) done done [] [] refl refl

message-fits_example : length (message 2147483647) < buffer_size
message-fits_example = message-fits 2147483647

-- a completion of a send, and of a receive
abbrev pub send_done : Reply
send_done = record no_reply {
  code = pos 1;
  wc = record { status = WcStatus.success; opcode = wc_send; wr_id = 11; byte_len = 0 };
}

abbrev pub recv_done : Reply
recv_done = record no_reply {
  code = pos 1;
  wc = record { status = WcStatus.success; opcode = wc_recv; wr_id = 11; byte_len = 12 };
}

abbrev round : List Reply
round = done ∷ done ∷ send_done ∷ done ∷ done ∷ recv_done ∷ done ∷ done ∷ done ∷ []

exchange_messages-HasSent_example :
    Ends
      (λ _ u. HasSent 0 2 request_trace u)
      Never
      (exchange_messages 2 0 conn (round ++ round, request_trace))
exchange_messages-HasSent_example =
    exchange_messages-HasSent 2 0 conn (round ++ round) request_trace

abbrev pub happens : CmEventType → Reply
happens e = record no_reply { event = record { event = e; id = 1 } }

abbrev client_argv : List (List ℕ)
client_argv = codes "client" ∷ codes "10.0.0.1" ∷ codes "2" ∷ []

abbrev pub client_script : List Reply
client_script =
    gives 2
      ∷ gives 1
      ∷ done
      ∷ done
      ∷ happens addr_resolved
      ∷ done
      ∷ done
      ∷ happens route_resolved
      ∷ done
      ∷ setup_script
    ++ done ∷ happens established ∷ done ∷ round
    ++ round
    ++ done ∷ done ∷ []

main-sends_example :
    Ends
      (λ ret u.
        (ret ≡ 0)
        × (length client_argv ≡ 3)
        × (not_positive (atoi (third client_argv)) ≡ false)
        × ((n : ℕ) × (n ≤ pos_part (atoi (third client_argv))) × (sent u ≡ messages 0 n)))
      Never
      (main client_argv (client_script, []))
main-sends_example = main-sends client_argv client_script

atoi-message_example : atoi (drop 4 (message 123)) ≡ pos 123
atoi-message_example = atoi-message 123 (omega arith)

check_cm_event-exact_example :
    (established ≡ established
      → check_cm_event (record { event = established; id = 1 }) established ([], [])
        ≡ (ok tt, ([], [])))
    × (established ≢ established
        → check_cm_event (record { event = established; id = 1 }) established ([], [])
          ≡ (died (reason ""), ([], [])))
check_cm_event-exact_example =
    check_cm_event-exact (record { event = established; id = 1 }) established ([], [])
