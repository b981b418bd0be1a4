-- ===== src/Tests/Progress.antt =====
-- The server for one client that answers ten messages.
use rdma_tutorial.Prelude.{ℕ, zero, suc, ◌≡◌, refl, List, [], ◌∷◌, ◌++◌, codes, arith}
use rdma_tutorial.External.{Reply}
use rdma_tutorial.Machine.Reaches.{Reaches, arrived}
use rdma_tutorial.Machine.Observe.{sent}
use rdma_tutorial.Rdmacm03.Server.{serve_once, serve_loop}
use rdma_tutorial.Rdmacm03.Server.Progress.{Brought, all_done, newest_first, serve_loop-Reaches}
use rdma_tutorial.Tests.Scripts.{done, reads}
use rdma_tutorial.Tests.Rdmacm05.{conn, request_trace, send_done, recv_done}

abbrev hello : List ℕ
hello = codes "hello"

abbrev hellos : ℕ → List (List ℕ)
hellos zero = []
hellos (suc n) = hello ∷ hellos n

abbrev rounds : ℕ → List Reply
rounds zero = []
rounds (suc n) = recv_done ∷ reads hello ∷ done ∷ done ∷ done ∷ send_done ∷ done ∷ rounds n

brought : (n : ℕ) → Brought (hellos n) (rounds n) []
brought zero = all_done []
brought (suc n) =
    Brought.one_more (hellos n) (reads hello) done done done done _ _ (rounds n) []
      (arrived _ _ refl refl refl refl) (omega arith) refl refl refl
      (arrived _ _ refl refl refl refl) refl (brought n)

serve_loop-Reaches_example :
    Reaches []
      (λ _ u. sent u ≡ newest_first (hellos 10) ++ sent request_trace)
      (serve_loop (serve_once conn) 30 0 (rounds 10, request_trace))
serve_loop-Reaches_example =
    serve_loop-Reaches 30 0 conn (hellos 10) (rounds 10) [] request_trace (brought 10) refl
      (omega arith)
