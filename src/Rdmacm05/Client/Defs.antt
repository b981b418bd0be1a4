-- ===== src/Rdmacm05/Client/Defs.antt =====
-- The program: its arguments, the connection, and the loop over the messages.
use rdma_tutorial.Prelude.{
  ℕ, zero, suc, ◌+◌, Bool, true, false, not, ◌||◌, List, [], ◌∷◌, ◌++◌, ◌==◌, length, codes,
  if◌then◌else◌,
}
use rdma_tutorial.External.{ℤ, is_zero, is_negative, pos_part, is_success, is_send, is_recv, Call}
use rdma_tutorial.Machine.{
  Prog, reason, pure, die_if, call, ignore, poll, if_nzero_die, ◌>>=◌, ◌>>◌,
}
use rdma_tutorial.Libc.{percent_02d, atoi}
use rdma_tutorial.Rdmacm05.Common.{Connection, setup_connection}
use rdma_tutorial.Rdmacm.{connect_server, close_client}

-- "msg-%02d: hello"
unfoldable pub message : ℕ → List ℕ
message i = codes "msg-" ++ (percent_02d i ++ codes ": hello")

-- the second half of a round; `true` means that the loop goes on
unfoldable pub receive_echo : Connection → Prog Bool
receive_echo nc = do
  got ← poll (Call.poll_cq nc.cq 1)
  die_if (is_negative got.code) (reason "ibv_poll_cq")
  if is_success got.wc.status
      then (do
        die_if (not (is_recv got.wc.opcode)) (reason "Unexpected opcode")
        if_nzero_die "ibv_post_recv(nc->qp, &nc->recv_wr, &bad_rwr)"
            (Call.post_recv nc.qp nc.recv_wr)
        n ← call (Call.req_notify_cq nc.cq)
        pure (is_zero n.code))
      else pure false

unfoldable pub send_message : Connection → ℕ → Prog Bool
send_message nc i = do
  if_nzero_die "ibv_post_send(nc->qp, &nc->send_wr, &bad_swr)"
      (Call.post_send nc.qp nc.send_wr (message i))
  done ← poll (Call.poll_cq nc.cq 1)
  die_if (is_negative done.code) (reason "ibv_poll_cq")
  if is_success done.wc.status
      then (do
        die_if (not (is_send done.wc.opcode)) (reason "Unexpected opcode")
        n ← call (Call.req_notify_cq nc.cq)
        pure (is_zero n.code))
      else pure false

-- one round of the loop: `false` is a `break`
unfoldable pub exchange_message : Connection → ℕ → Prog Bool
exchange_message nc i = do go ← send_message nc i; if go then receive_echo nc else pure false

-- `for (i = 0; i < count; i++)`, with `left` rounds to go
unfoldable pub exchange_messages : ℕ → ℕ → Connection → Prog (Unit {0})
exchange_messages zero i nc = pure tt
exchange_messages (suc left) i nc = do
  go ← exchange_message nc i
  elim go [ true ↦ ignore (Call.sleep 1) >> exchange_messages left (i + 1) nc | false ↦ pure tt ]

-- `main` from the event channel on
unfoldable pub run : ℕ → Prog ℕ
run count = do c ← connect_server setup_connection; exchange_messages count 0 c.nc; close_client c

-- `argv[2]`
abbrev pub third : List (List ℕ) → List ℕ
third (_ ∷ _ ∷ c ∷ _) = c
third _ = []

-- `count <= 0`
abbrev pub not_positive : ℤ → Bool
not_positive c = is_negative c || is_zero c

unfoldable pub main : List (List ℕ) → Prog ℕ
main argv = do
  die_if (not (length argv == 3)) (reason "usage: %s <server_ip> <count>\n")
  die_if (not_positive (atoi (third argv)))
      (reason "count must be a positive integer, usage: %s <server_ip> <count>\n")
  run (pos_part (atoi (third argv)))
