-- ===== src/Rdmacm03/Server/Defs.antt =====
-- The loop that echoes, whose body src/rdmacm04 shares, and main.
use rdma_tutorial.Prelude.{ℕ, zero, suc, ◌+◌, true, false, Option, none, some, ltb, if◌then◌else◌}
use rdma_tutorial.External.{
  is_zero, is_negative, is_success, Call, Wc, WcOpcode, wc_send, wc_recv, wc_other,
}
use rdma_tutorial.Machine.{Prog, reason, pure, give_up, call, die_if, poll, ◌>>=◌, ◌>>◌}
use rdma_tutorial.Rdmacm.{listen_for_clients, accept_client, close_server}
use rdma_tutorial.Rdmacm05.Common.{Connection, Leftover}
use rdma_tutorial.Rdmacm05.Server.{echo}
use rdma_tutorial.Rdmacm03.Common.{setup_connection}

-- one completion, by its opcode: the new `i`. The case of a receive is the code of src/rdmacm05.
unfoldable pub serve_opcode : WcOpcode → Connection → ℕ → Prog ℕ
serve_opcode wc_recv nc i = echo nc >> pure i
serve_opcode wc_send nc i = pure (i + 1)
serve_opcode (wc_other _) nc i = pure i

-- the round after the poll; `none` is a `break`
unfoldable pub serve_completion : Connection → ℕ → Wc → Prog (Option ℕ)
serve_completion nc i wc =
    if is_success wc.status
    then (do
      i' ← serve_opcode wc.opcode nc i
      n ← call (Call.req_notify_cq nc.cq)
      pure (if is_zero n.code then some i' else none))
    else pure none

unfoldable pub serve_once : Connection → ℕ → Prog (Option ℕ)
serve_once nc i = do
  got ← poll (Call.poll_cq nc.cq 1)
  die_if (is_negative got.code) (reason "ibv_poll_cq")
  serve_completion nc i got.wc

-- `while (i < 10)`, with the body as an argument
unfoldable pub serve_loop : (ℕ → Prog (Option ℕ)) → ℕ → ℕ → Prog (Unit {0})
serve_loop once zero i = give_up
serve_loop once (suc fuel) i = elim (ltb i 10) [
  | false ↦ pure tt
  | true ↦ do next ← once i; elim next [ none ↦ pure tt | some i' ↦ serve_loop once fuel i' ]
]

unfoldable pub main : ℕ → Leftover → Prog ℕ
main fuel m = do
  listener ← listen_for_clients
  a ← accept_client (setup_connection m) listener
  serve_loop (serve_once a.nc) fuel 0
  close_server a
