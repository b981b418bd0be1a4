-- ===== src/Tests/Rdmacm03.antt =====
-- The programs for one connection without threads, and one message that the client sends and the
-- server returns.
use rdma_tutorial.Prelude.{ℕ, ◌≡◌, ◌≤◌, refl, List, [], ◌∷◌, ◌++◌, All, arith, codes}
use rdma_tutorial.External.{
  pos, Reply, no_reply, Trace, WcStatus, wc_send, addr_resolved, route_resolved, connect_request,
  established,
}
use rdma_tutorial.Machine.{ok, call, tell, die_if, nonnull, zero_or_die, ignore, poll, strcpy}
use rdma_tutorial.Libc.{percent_02d}
use rdma_tutorial.Machine.Finishes.{Finishes}
use rdma_tutorial.Machine.Observe.{sent, heard}
use rdma_tutorial.Rdmacm.{
  await_event, connect_server, close_client, listen_for_clients, accept_client, close_listener,
  close_server,
}
use rdma_tutorial.Rdmacm05.Common.{Leftover, build_connection, check_cm_event}
use rdma_tutorial.Rdmacm05.Client.{send_message, receive_echo, exchange_message}
use rdma_tutorial.Rdmacm05.Client.Rounds.{messages}
use rdma_tutorial.Rdmacm05.Client.{message}
use rdma_tutorial.Rdmacm05.Server.{echo}
use rdma_tutorial.Rdmacm04.Client.{message_count, talk, send_messages}
use rdma_tutorial.Rdmacm03.Common.{setup_connection}
use rdma_tutorial.Rdmacm03.Client
use rdma_tutorial.Rdmacm03.Server
use rdma_tutorial.Rdmacm03.Server.{serve_opcode, serve_completion, serve_once, serve_loop}
use rdma_tutorial.Rdmacm03.Server.Serving.{Fits}
use rdma_tutorial.Rdmacm03.Conversation.{HasServed, main03-HasServed, conversation}
use rdma_tutorial.Tests.Scripts.{done, gives, reads, trace_of}
use rdma_tutorial.Tests.Rdmacm05.{setup_script, happens, recv_done}

-- what the memory of malloc held
abbrev pub dirt : Leftover
dirt = record { recv_wr_id = 7; send_wr_id = 8; recv_next = 9; send_next = 0 }

-- a completion with an error
abbrev failed : Reply
failed = record no_reply {
  code = pos 1;
  wc = record { status = WcStatus.failure 5; opcode = wc_send; wr_id = 11; byte_len = 0 };
}

abbrev pub opening : List Reply
opening =
    gives 2
      ∷ gives 1
      ∷ done
      ∷ done
      ∷ happens addr_resolved
      ∷ done
      ∷ done
      ∷ happens route_resolved
      ∷ done
      ∷ setup_script
    ++ done ∷ happens established ∷ done ∷ []

abbrev pub accepting : List Reply
accepting =
    gives 2 ∷ gives 1 ∷ done ∷ done ∷ done ∷ happens connect_request ∷ done ∷ setup_script
    ++ done ∷ happens established ∷ done ∷ []

abbrev pub argv : List (List ℕ)
argv = codes "client" ∷ codes "10.0.0.1" ∷ []

-- one message, whose completion fails
abbrev client_script : List Reply
client_script = opening ++ done ∷ failed ∷ done ∷ done ∷ []

abbrev server_script : List Reply
server_script =
    accepting
    ++ recv_done
      ∷ reads (codes "msg-00: hello")
      ∷ done
      ∷ done
      ∷ done
      ∷ failed
      ∷ done
      ∷ done
      ∷ done
      ∷ []

abbrev client_trace : Trace
client_trace = trace_of (Client.main dirt argv (client_script, []))

abbrev server_trace : Trace
server_trace = trace_of (Server.main 50 dirt (server_script, []))

client_ends : Client.main dirt argv (client_script, []) ≡ (ok 0, ([], client_trace))
unfolding Client.main talk setup_connection build_connection connect_server await_event
    check_cm_event send_messages exchange_message send_message receive_echo close_client call tell
    ignore die_if nonnull zero_or_die poll
client_ends = refl

server_ends : Server.main 50 dirt (server_script, []) ≡ (ok 0, ([], server_trace))
unfolding Server.main setup_connection build_connection listen_for_clients accept_client await_event
    check_cm_event serve_loop serve_once serve_completion serve_opcode echo close_server
    close_listener call tell ignore die_if nonnull zero_or_die poll strcpy
server_ends = refl

texts_agree : heard server_trace ≡ sent client_trace
unfolding Server.main setup_connection build_connection listen_for_clients accept_client await_event
    check_cm_event serve_loop serve_once serve_completion serve_opcode echo close_server
    close_listener call tell ignore die_if nonnull zero_or_die poll strcpy Client.main talk
    connect_server send_messages exchange_message send_message receive_echo close_client message
    percent_02d
texts_agree = refl

fitting : All Fits server_script
fitting = ground arith

conversation_example :
    (◌≡◌ {A = ℕ} 0 0)
    × (◌≡◌ {A = ℕ} 0 0)
    × ((n : ℕ) × (n ≤ message_count) × (sent server_trace ≡ messages 0 n))
conversation_example =
    conversation dirt dirt 50 0 0 argv client_script server_script [] [] client_trace server_trace
      fitting (omega arith) client_ends server_ends texts_agree

main03-HasServed_example :
    Finishes (λ ret _ u. HasServed ret u) (Server.main 50 dirt (server_script, []))
main03-HasServed_example = main03-HasServed 50 dirt server_script fitting (omega arith)
