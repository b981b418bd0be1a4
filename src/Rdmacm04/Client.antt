-- ===== src/Rdmacm04/Client.antt =====
-- src/rdmacm04/client.c: the client of src/rdmacm05 with ten messages and no pause between them.
-- The halves of a round and the wait for an event are the text of src/rdmacm05/client.c.
pub mod Sends
use rdma_tutorial.Prelude.{ℕ, zero, suc, ◌+◌, true, false, not, List, ◌==◌, length}
use rdma_tutorial.Machine.{Prog, reason, pure, die_if, ◌>>=◌, ◌>>◌}
use rdma_tutorial.Rdmacm05.Common.{Connection, Leftover}
use rdma_tutorial.Rdmacm05.Client.{exchange_message}
use rdma_tutorial.Rdmacm.{connect_server, close_client}
use rdma_tutorial.Rdmacm04.Server.{setup_connection}

abbrev pub message_count : ℕ
message_count = 10

-- `for (i = 0; i < 10; i++)`, with `left` rounds to go
unfoldable pub send_messages : ℕ → ℕ → Connection → Prog (Unit {0})
send_messages zero i nc = pure tt
send_messages (suc left) i nc = do
  go ← exchange_message nc i
  elim go [ true ↦ send_messages left (i + 1) nc | false ↦ pure tt ]

-- main after the test of its arguments
unfoldable pub talk : (ℕ → Prog Connection) → Prog ℕ
talk setup = do c ← connect_server setup; send_messages message_count 0 c.nc; close_client c

unfoldable pub main : Leftover → List (List ℕ) → Prog ℕ
main m argv = do
  die_if (not (length argv == 2)) (reason "usage: %s <server_ip>\n")
  talk (setup_connection m)
