-- ===== src/Rdmacm03/Server/Halting.antt =====
-- The end of the loop that src/rdmacm03/server.c and src/rdmacm04/server.c share, and of main.
use rdma_tutorial.Prelude.{
  ℕ, zero, suc, ◌<◌, Option, none, some, List, length, ltb, Bool-cases, inl, inr, arith,
}
use rdma_tutorial.External.{Reply, Trace, Call, Wc, WcOpcode, wc_send, wc_recv, wc_other}
use rdma_tutorial.Machine.{Prog, pure}
use rdma_tutorial.Machine.Halts.{Halts, halting, bind-Halts, ok-Halts, rest-length}
use rdma_tutorial.Machine.Uses.{round-Halts, Uses, seq-Uses, poll-Uses}
use rdma_tutorial.Rdmacm.Halting.{listen_for_clients-Halts, accept_client-Halts, close_server-Halts}
use rdma_tutorial.Rdmacm05.Common.{Connection, Leftover}
use rdma_tutorial.Rdmacm05.Server.{echo}
use rdma_tutorial.Rdmacm03.Common.{setup_connection}
use rdma_tutorial.Rdmacm03.Server.Defs.{
  serve_opcode, serve_completion, serve_once, serve_loop, main,
}

serve_opcode-Halts :
    (op : WcOpcode) (nc : Connection) (i : ℕ) (rs : List Reply) (t : Trace)
    → Halts rs (serve_opcode op nc i (rs, t))
unfolding serve_opcode echo
serve_opcode-Halts wc_send nc i rs t = search halting
serve_opcode-Halts wc_recv nc i rs t = search halting depth 20
serve_opcode-Halts (wc_other _) nc i rs t = search halting

pub serve_completion-Halts :
    (nc : Connection) (i : ℕ) (wc : Wc) (rs : List Reply) (t : Trace)
    → Halts rs (serve_completion nc i wc (rs, t))
unfolding serve_completion
serve_completion-Halts nc i wc rs t = search (halting, serve_opcode-Halts) depth 20

serve_once-Halts :
    (nc : Connection) (i : ℕ) (rs : List Reply) (t : Trace) → Halts rs (serve_once nc i (rs, t))
unfolding serve_once
serve_once-Halts nc i rs t = search (halting, serve_completion-Halts) depth 20

serve_once-Uses :
    (nc : Connection) (i : ℕ) (rs : List Reply) (t : Trace)
    → Uses (length rs) (serve_once nc i (rs, t))
unfolding serve_once
serve_once-Uses nc i rs t =
    seq-Uses (length rs) _ _ (poll-Uses rs t (Call.poll_cq nc.cq 1))
      λ got s u. search (halting, serve_completion-Halts) depth 20

next_round :
    (once : ℕ → Prog (Option ℕ)) (fuel : ℕ) (next : Option ℕ) (rs : List Reply) (u : Trace)
    → ((j : ℕ) → Halts rs (serve_loop once fuel j (rs, u)))
    → Halts rs (
        (elim next as (λ _. Prog (Unit {0})) [ none ↦ pure tt | some i ↦ serve_loop once fuel i ])
          (rs, u))
next_round once fuel none rs u h = ok-Halts _ rs u
next_round once fuel (some i) rs u h = h i

-- The loop ends with more fuel than replies, if each of its rounds ends and uses a reply.
pub serve_loop-Halts :
    (once : ℕ → Prog (Option ℕ)) (fuel i : ℕ) (rs : List Reply) (t : Trace)
    → ((j : ℕ) (ss : List Reply) (u : Trace) → Halts ss (once j (ss, u)))
    → ((j : ℕ) (ss : List Reply) (u : Trace) → Uses (length ss) (once j (ss, u)))
    → length rs < fuel
    → Halts rs (serve_loop once fuel i (rs, t))
unfolding serve_loop
serve_loop-Halts once zero i rs t ends uses enough = absurd (omega arith)
serve_loop-Halts once (suc fuel) i rs t ends uses enough = elim (Bool-cases (ltb i 10)) [
  | inr y ↦ rw (y, serve_loop) (ok-Halts _ rs t)
  | inl y ↦
      rw (y, serve_loop)
        (round-Halts rs _ _ (ends i rs t) (uses i rs t) λ next s u l.
          next_round once fuel next s u
            (λ j. serve_loop-Halts once fuel j s u ends uses (omega (arith, l))))
]

-- The server for one client ends, whatever the libraries reply: with more fuel than replies, `main`
-- returns, dies, waits or faults, and never runs out of the fuel of its loop.
pub main03-Halts :
    (fuel : ℕ) (m : Leftover) (rs : List Reply) (t : Trace)
    → length rs < fuel
    → Halts rs (main fuel m (rs, t))
unfolding main setup_connection
main03-Halts fuel m rs t enough = bind-Halts rs _ _ (listen_for_clients-Halts rs t) λ l s1 u1 p1.
    bind-Halts s1 _ _ (accept_client-Halts _ l s1 u1) λ a s2 u2 p2.
      bind-Halts s2 _ _
        (serve_loop-Halts (serve_once a.nc) fuel 0 s2 u2 (serve_once-Halts a.nc)
          (serve_once-Uses a.nc)
          (omega (arith, enough, rest-length s1 rs p1, rest-length s2 s1 p2)))
        λ _ s3 u3 p3. close_server-Halts a s3 u3
