-- ===== src/Example03/Client.antt =====
-- src/example03/client.c: its connection, and the loop that sends and waits for the echo. The loop
-- never ends in the source, so cleanup_resources is never reached; `rounds` bounds it here.
use rdma_tutorial.Prelude.{
  ℕ, zero, suc, ◌+◌, Bool, not, ◌&&◌, List, [], ◌∷◌, ◌++◌, ◌==◌, ltb, take, length, codes,
  if◌then◌else◌,
}
use rdma_tutorial.External.{
  ℤ, pos, Reply, is_zero, is_negative, pos_part, is_success, Call, LibField, Wc,
}
use rdma_tutorial.Machine.{
  Prog, reason, waiting, died, ok, or_fault, pure, die_if, fault_if, and_then, call, ignore,
  give_up, ◌>>=◌, ◌>>◌,
}
use rdma_tutorial.Libc.{percent_d}
use rdma_tutorial.Wire.{
  ByteOrder, QpConnInfo, sizeof_qp_conn_info, info_bytes, info_of_bytes, local_info, to_host,
}
use rdma_tutorial.Example03.Common.{
  RdmaContext, initial_context, build_rdma_resources, setup_qp_state, post_receive, post_send,
  terminated, cleanup_resources,
}

-- `x == n` on int
abbrev pub is : ℕ → ℤ → Bool
is n c = not (is_negative c) && (pos_part c == n)

-- the int that read returns: the number of bytes that it gives, or its negative code
abbrev pub read_count : Reply → ℤ
read_count r = if is_negative r.code then r.code else pos (length r.bytes)

-- `if (read(...) != sizeof(remote_info)) die(...)`, then ntohl and ntohs. A struct that is not
-- filled would be used with no defined content.
unfoldable pub read_info : ByteOrder → ℕ → Prog QpConnInfo
read_info order fd = do
  got ← call (Call.read fd sizeof_qp_conn_info)
  die_if (not (is sizeof_qp_conn_info (read_count got))) (reason "Failed to receive remote QP info")
  info ← or_fault (info_of_bytes order got.bytes)
  pure (to_host order info)

-- `local_info` from the QP number, the LID and the GID of the context, and the write of it
unfoldable pub write_info : ByteOrder → ℕ → RdmaContext → Prog (Unit {0})
write_info order fd res = do
  num ← call (Call.load LibField.num_of_qp res.qp)
  let bytes = info_bytes order (local_info order num.value res.port_attr.lid res.gid)
  put ← call (Call.write fd bytes)
  die_if (not (is sizeof_qp_conn_info put.code)) (reason "Failed to send local QP info")

-- The completions of one poll: each must have succeeded, and after a receive the string in the
-- buffer, which holds `buf`, is printed.
unfoldable pub check_completions : List ℕ → List Wc → Prog (Unit {0})
check_completions buf [] = pure tt
check_completions buf (wc ∷ wcs) = do
  die_if (not (is_success wc.status)) (reason "Work completion status is not success")
  fault_if ((wc.wr_id == 0) && not (terminated buf))
  check_completions buf wcs

-- `while (completions < 2)`: every round takes a reply, whose `bytes` are what the buffer holds
-- after the poll.
unfoldable pub await_two : ℕ → ℕ → Prog (Unit {0})
await_two cq completions ([], t) =
    if ltb completions 2 then (waiting, ([], t)) else (ok tt, ([], t))
await_two cq completions (r ∷ rs, t) =
    let t' = (Call.poll_cq cq 2, r) ∷ t in
    let rest = await_two cq (completions + pos_part r.code) (rs, t') in
    if not (ltb completions 2)
    then (ok tt, (r ∷ rs, t))
    else if is_negative r.code
    then (died (reason "poll_cq failed"), (rs, t'))
    else and_then (check_completions r.bytes (take (pos_part r.code) r.wcs) (rs, t')) (λ _ _. rest)

-- "Message from client #%d"
unfoldable pub message : ℕ → List ℕ
message n = codes "Message from client #" ++ percent_d n

-- one round of the loop: snprintf cuts the text at the size of the buffer and writes a NUL after
-- it, and `len` is the length that it had before
unfoldable pub send_and_await : RdmaContext → ℕ → Prog (Unit {0})
send_and_await res n = do
  let len = length (message n)
  r ← post_receive res
  die_if (not (is_zero r)) (reason "post_receive failed")
  s ← post_send res (len + 1) (take 1023 (message n) ++ 0 ∷ [])
  die_if (not (is_zero s)) (reason "post_send failed")
  await_two res.cq 0
  ignore (Call.sleep 1)

unfoldable pub send_loop : ℕ → RdmaContext → ℕ → Prog (Unit {0})
send_loop zero res n = give_up
send_loop (suc rounds) res n = send_and_await res n >> send_loop rounds res (n + 1)

-- the connection up to the state RTS; the result is the context
unfoldable pub open_connection : ByteOrder → Prog RdmaContext
open_connection order = do
  res ← build_rdma_resources (initial_context 1)
  sock ← call Call.socket
  die_if (is_negative sock.code) (reason "socket creation failed")
  addr ← call Call.inet_pton
  die_if (is_negative addr.code) (reason "inet_pton failed")
  die_if (is_zero addr.code) (reason "inet_pton failed")
  c ← call (Call.connect (pos_part sock.code))
  die_if (is_negative c.code) (reason "connect failed")
  remote_info ← read_info order (pos_part sock.code)
  write_info order (pos_part sock.code) res
  setup ← setup_qp_state res remote_info
  die_if (not (is_zero setup)) (reason "Failed to set up QP state")
  ignore (Call.close (pos_part sock.code))
  pure res

-- `return 1` on a wrong number of arguments, and otherwise what follows
unfoldable pub main : ByteOrder → ℕ → List (List ℕ) → Prog ℕ
main order rounds argv =
    if length argv == 2
    then (do res ← open_connection order; send_loop rounds res 0; cleanup_resources res; pure 0)
    else pure 1
