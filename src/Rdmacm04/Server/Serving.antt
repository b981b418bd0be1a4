-- ===== src/Rdmacm04/Server/Serving.antt =====
-- The loop of handle_request: what a thread posts and sends for what it receives.
use rdma_tutorial.Prelude.{ℕ, ◌≡◌, ◌<◌, ◌≤◌, true, List, length, All, arith, Bool-cases, inl, inr}
use rdma_tutorial.External.{Reply, Trace, is_negative}
use rdma_tutorial.Machine.Observe.{completions, recvs_among}
use rdma_tutorial.Machine.Finishes.{Finishes, ok-Finishes, map-Finishes, poll-Finishes}
use rdma_tutorial.Rdmacm.Echoes.{Answered, Answered-refl, Served}
use rdma_tutorial.Rdmacm05.Common.{Connection}
use rdma_tutorial.Rdmacm03.Server.Serving.{
  Fits, After, serve_completion-Served, keep_polling, serve_loop-Served, unanswered,
}
use rdma_tutorial.Rdmacm04.Server.Defs.{serve_once, serve}

no_recv : (r : Reply) → is_negative r.code ≡ true → recvs_among (completions 1 r) ≤ 1
no_recv r n = ground arith

serve_once-Served :
    (nc : Connection) (j : ℕ) (ss : List Reply) (u : Trace)
    → All Fits ss
    → Finishes (After ss u) (serve_once nc j (ss, u))
unfolding serve_once
serve_once-Served nc j ss u good =
    poll-Finishes _ Fits (Answered 0 u) _ _ _ _ (keep_polling nc.cq u) good (Answered-refl u)
      λ r s1 u1 z q good1 l1. elim (Bool-cases (is_negative r.code)) [
        | inl n ↦ rw n (ok-Finishes _ _ _ _ (good1, l1, unanswered nc.cq r u u1 q (no_recv r n)))
        | inr n ↦ rw n (
            map-Finishes _ _ _ (λ _ _ _ (g, l, w). (g, omega arith, w))
              (serve_completion-Served nc j r s1 u u1 q n z good1))
      ]

-- The loop of handle_request, if every string that is received fits the send buffer and the fuel is
-- more than the replies: it comes to its end, or waits or dies; when it ends, every string that was
-- heard was sent back, in order, with one receive posted for each, and all receives that completed
-- but one at most were answered so.
pub serve-Served :
    (fuel : ℕ) (nc : Connection) (i : ℕ) (rs : List Reply) (t : Trace)
    → All Fits rs
    → length rs < fuel
    → Finishes (λ _ rest u. All Fits rest × Served 1 t u) (serve fuel nc i (rs, t))
unfolding serve
serve-Served fuel nc i rs t good enough =
    serve_loop-Served (serve_once nc) fuel i rs t (serve_once-Served nc) good enough
