-- ===== src/Tests/Example03.antt =====
-- A client on a little-endian host and a server on a big-endian one.
use rdma_tutorial.Prelude.{◌≡◌, refl, ℕ, some, List, [], ◌∷◌, ◌++◌, arith}
use rdma_tutorial.External.{Reply, no_reply, Trace, Call}
use rdma_tutorial.Machine.{
  Outcome, World, ok, call, tell, die_if, nonnull, zero_or_die, or_fault, ignore,
}
use rdma_tutorial.Machine.Ends.{Ends, Refused}
use rdma_tutorial.Machine.Observe.{received, written}
use rdma_tutorial.Wire.{little, big, info_bytes, info_of_bytes, local_info, to_host}
use rdma_tutorial.Resources.{settle}
use rdma_tutorial.QueuePair.{view, fresh}
use rdma_tutorial.Example03.Common.{
  RdmaContext, initial_context, qp_init, build_rdma_resources, setup_qp_state, cleanup_resources,
}
use rdma_tutorial.Example03.Common.Qp.{connected_to, IsRaised, setup_qp_state-IsRaised}
use rdma_tutorial.Example03.Common.Lifetime.{
  entries_of, IsBuilt, BuildFails, build_rdma_resources-IsBuilt, cleanup_resources-settle,
}
use rdma_tutorial.Example03.Client
use rdma_tutorial.Example03.Client.{read_info, write_info}
use rdma_tutorial.Example03.Server
use rdma_tutorial.Example03.Handshake.Connected.{Is, handshake}
use rdma_tutorial.Tests.Scripts.{done, returns, gives, shows, reads, trace_of}

abbrev gid_of : ℕ → List ℕ
gid_of n = 254 ∷ 128 ∷ 0 ∷ 0 ∷ 0 ∷ 0 ∷ 0 ∷ 0 ∷ 2 ∷ 17 ∷ 34 ∷ 255 ∷ 254 ∷ 51 ∷ 68 ∷ n ∷ []

abbrev built : (lid gid : ℕ) → List Reply
built lid gid =
    record no_reply { ptr = 1; ptrs = 2 ∷ [] }
    ∷ gives 3
    ∷ record no_reply {
      port_attr = record { lid = lid; active_mtu = 5; port_state = 4; active_speed = 1 };
    }
    ∷ reads (gid_of gid)
    ∷ gives 4
    ∷ gives 5
    ∷ gives 6
    ∷ gives 7
    ∷ gives 8
    ∷ []

abbrev client_script : List Reply
client_script =
    built 3 1
    ++ returns 9
      ∷ returns 1
      ∷ done
      ∷ reads (0 ∷ 0 ∷ 0 ∷ 42 ∷ 0 ∷ 7 ∷ gid_of 2)
      ∷ shows 70000
      ∷ returns 22
      ∷ done
      ∷ done
      ∷ done
      ∷ done
      ∷ []

abbrev server_script : List Reply
server_script =
    built 7 2
    ++ returns 9
      ∷ done
      ∷ done
      ∷ returns 10
      ∷ shows 42
      ∷ returns 22
      ∷ reads (0 ∷ 1 ∷ 17 ∷ 112 ∷ 0 ∷ 3 ∷ gid_of 1)
      ∷ done
      ∷ done
      ∷ done
      ∷ done
      ∷ done
      ∷ []

abbrev client_run : Outcome RdmaContext × World
client_run = Client.open_connection little (client_script, [])

abbrev server_run : Outcome RdmaContext × World
server_run = Server.open_connection big (server_script, [])

abbrev context : (lid gid : ℕ) → RdmaContext
context lid gid = record {
  ctx = 3;
  pd = 4;
  mr = 6;
  cq = 7;
  qp = 8;
  port_attr = record { lid = lid; active_mtu = 5; port_state = 4; active_speed = 1 };
  gid = gid_of gid;
  buf = 5;
  ib_port = 1;
}

client_ends : client_run ≡ (ok (context 3 1), ([], trace_of client_run))
unfolding Client.open_connection build_rdma_resources setup_qp_state read_info write_info call tell
    die_if nonnull zero_or_die or_fault ignore info_bytes info_of_bytes local_info to_host
client_ends = refl

server_ends : server_run ≡ (ok (context 7 2), ([], trace_of server_run))
unfolding Server.open_connection build_rdma_resources setup_qp_state read_info write_info call tell
    die_if nonnull zero_or_die or_fault ignore info_bytes info_of_bytes local_info to_host
server_ends = refl

-- what each has read, is what the other has written
delivered :
    (received (trace_of client_run) ≡ written (trace_of server_run))
    × (received (trace_of server_run) ≡ written (trace_of client_run))
unfolding Client.open_connection Server.open_connection build_rdma_resources setup_qp_state
    read_info write_info call tell die_if nonnull zero_or_die or_fault ignore info_bytes
    info_of_bytes local_info to_host
delivered = (refl, refl)

client_numbers : Is 70000 3 (gid_of 1) (context 3 1) (trace_of client_run)
unfolding Client.open_connection build_rdma_resources setup_qp_state read_info write_info call tell
    die_if nonnull zero_or_die or_fault ignore info_bytes info_of_bytes local_info to_host
client_numbers = record {
  numbered = refl;
  lid_of = refl;
  gid_of = refl;
  small_qp_num = omega arith;
  small_lid = omega arith;
  whole_gid = refl;
}

server_numbers : Is 42 7 (gid_of 2) (context 7 2) (trace_of server_run)
unfolding Server.open_connection build_rdma_resources setup_qp_state read_info write_info call tell
    die_if nonnull zero_or_die or_fault ignore info_bytes info_of_bytes local_info to_host
server_numbers = record {
  numbered = refl;
  lid_of = refl;
  gid_of = refl;
  small_qp_num = omega arith;
  small_lid = omega arith;
  whole_gid = refl;
}

handshake_example :
    (view 8 (trace_of client_run)
      ≡ some (connected_to (record { qp_num = 42; lid = 7; gid = gid_of 2 })))
    × (view 8 (trace_of server_run)
        ≡ some (connected_to (record { qp_num = 70000; lid = 3; gid = gid_of 1 })))
handshake_example =
    handshake little big client_script server_script [] [] (context 3 1) (context 7 2)
      (trace_of client_run) (trace_of server_run) 70000 3 42 7 (gid_of 1) (gid_of 2) client_ends
      server_ends delivered.0 delivered.1 client_numbers server_numbers

build_rdma_resources-IsBuilt_example :
    Ends (IsBuilt [] 1) BuildFails (build_rdma_resources (initial_context 1) (built 3 1, []))
build_rdma_resources-IsBuilt_example =
    build_rdma_resources-IsBuilt (initial_context 1) (built 3 1) [] [] refl

-- the queue pair of the context, as ibv_create_qp leaves it
abbrev created : Trace
created = (Call.create_qp 4 (qp_init 7), gives 8) ∷ []

setup_qp_state-IsRaised_example :
    Ends
      (IsRaised (context 3 1) (record { qp_num = 42; lid = 7; gid = gid_of 2 }) created)
      Refused
      (setup_qp_state
        (context 3 1)
        (record { qp_num = 42; lid = 7; gid = gid_of 2 })
        (done ∷ done ∷ done ∷ [], created))
setup_qp_state-IsRaised_example =
    setup_qp_state-IsRaised (context 3 1) (record { qp_num = 42; lid = 7; gid = gid_of 2 })
      (done ∷ done ∷ done ∷ []) created fresh refl refl

-- all that is live after the handshake of the client
client_owns : settle (trace_of client_run) ≡ some (entries_of (context 3 1) ++ [])
unfolding Client.open_connection build_rdma_resources setup_qp_state read_info write_info call tell
    die_if nonnull zero_or_die or_fault ignore info_bytes info_of_bytes local_info to_host
client_owns = refl

cleanup_resources-settle_example :
    Ends
      (λ _ u. settle u ≡ some [])
      (λ _ _. ⊥)
      (cleanup_resources (context 3 1) (done ∷ done ∷ done ∷ done ∷ done ∷ [], trace_of client_run))
cleanup_resources-settle_example =
    cleanup_resources-settle (context 3 1) (done ∷ done ∷ done ∷ done ∷ done ∷ [])
      (trace_of client_run) [] (refl, refl, refl, refl, refl, refl)
      (refl, refl, refl, refl, refl, refl) client_owns
