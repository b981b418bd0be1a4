-- ===== src/Example03/Server.antt =====
-- src/example03/server.c: the other side, and its echo loop, which `rounds` bounds here.
use rdma_tutorial.Prelude.{ℕ, zero, suc, not, ◌||◌, if◌then◌else◌}
use rdma_tutorial.External.{is_zero, is_negative, pos_part, is_success, is_recv, Reply, Call}
use rdma_tutorial.Machine.{
  Prog, reason, pure, die_if, fault_if, call, ignore, poll, give_up, ◌>>=◌, ◌>>◌,
}
use rdma_tutorial.Wire.{ByteOrder}
use rdma_tutorial.Example03.Common.{
  RdmaContext, tcp_port, initial_context, build_rdma_resources, setup_qp_state, post_receive,
  post_send, terminated, rdma_buffer_size, cleanup_resources,
}
use rdma_tutorial.Example03.Client.{read_info, write_info}

unfoldable pub open_connection : ByteOrder → Prog RdmaContext
open_connection order = do
  res ← build_rdma_resources (initial_context 1)
  sock ← call Call.socket
  die_if (is_negative sock.code) (reason "socket creation failed")
  b ← call (Call.bind (pos_part sock.code) tcp_port)
  die_if (is_negative b.code) (reason "bind failed")
  l ← call (Call.listen (pos_part sock.code) 1)
  die_if (is_negative l.code) (reason "listen failed")
  client ← call (Call.accept (pos_part sock.code))
  die_if (is_negative client.code) (reason "accept failed")
  write_info order (pos_part client.code) res
  remote_info ← read_info order (pos_part client.code)
  setup ← setup_qp_state res remote_info
  die_if (not (is_zero setup)) (reason "Failed to set up QP state")
  ignore (Call.close (pos_part client.code))
  ignore (Call.close (pos_part sock.code))
  pure res

-- a round after its first poll: a receive is printed and echoed
unfoldable pub echo_completion : RdmaContext → Reply → Prog (Unit {0})
echo_completion res got =
    if is_recv got.wc.opcode
    then (do
      text ← call (Call.load_bytes res.buf rdma_buffer_size)
      fault_if (not (terminated text.bytes))
      s ← post_send res got.wc.byte_len text.bytes
      die_if (not (is_zero s)) (reason "post_send failed")
      done ← poll (Call.poll_cq res.cq 1)
      die_if (is_negative done.code || not (is_success done.wc.status))
          (reason "poll_cq failed on send"))
    else pure tt

-- one round of the echo loop
unfoldable pub echo_once : RdmaContext → Prog (Unit {0})
echo_once res = do
  r ← post_receive res
  die_if (not (is_zero r)) (reason "post_receive failed")
  got ← poll (Call.poll_cq res.cq 1)
  die_if (is_negative got.code || not (is_success got.wc.status))
      (reason "poll_cq failed on receive")
  echo_completion res got

unfoldable pub echo_loop : ℕ → RdmaContext → Prog (Unit {0})
echo_loop zero res = give_up
echo_loop (suc rounds) res = echo_once res >> echo_loop rounds res

unfoldable pub main : ByteOrder → ℕ → Prog ℕ
main order rounds = do
  res ← open_connection order
  echo_loop rounds res
  cleanup_resources res
  pure 0
