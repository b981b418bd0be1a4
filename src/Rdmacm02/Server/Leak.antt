-- ===== src/Rdmacm02/Server/Leak.antt =====
-- What a thread of src/rdmacm02/server.c leaves behind.
use rdma_tutorial.Prelude.{ℕ, suc, ◌≡◌, some, List, ◌++◌, arith}
use rdma_tutorial.External.{Reply, Trace}
use rdma_tutorial.Machine.Ends.{
  Ends, bind-Ends, weaken-Ends, ignore-Ends, nzero-Ends, tell-Ends, tell-last,
}
use rdma_tutorial.Machine.Observe.{posted, sent}
use rdma_tutorial.Resources.{Entry, settle}
use rdma_tutorial.Rdmacm.Opened.{Never}
use rdma_tutorial.Rdmacm05.Common.{Connection, Leftover}
use rdma_tutorial.Rdmacm05.Common.Setup.{entries_of, build_connection-IsReady}
use rdma_tutorial.Rdmacm02.Common.{variant, setup_connection}
use rdma_tutorial.Rdmacm02.Server.{handle_request}

-- A connection was opened over the live objects `l` and closed without a message: its nine objects
-- are still live.
pub record HasLeaked (l : List Entry) (t u : Trace) : Type 0 where
  pub nc : Connection
  pub owned : settle u ≡ some (entries_of nc ++ l)
  pub silent : sent u ≡ sent t
  pub armed : posted u ≡ suc (posted t)

-- A thread that returns has released nothing of its connection: the nine objects of
-- setup_connection are still live after its last call, beside all that was live before, one receive
-- is posted, and no message was sent. It returns, dies or waits, and meets no fault.
pub handle_request-HasLeaked :
    (m : Leftover) (id index : ℕ) (rs : List Reply) (t : Trace) (l : List Entry)
    → settle t ≡ some l
    → Ends (λ _ u. HasLeaked l t u) Never (handle_request m id index (rs, t))
unfolding handle_request setup_connection
handle_request-HasLeaked m id index rs t l h =
    bind-Ends _ _ _ _ _
      (weaken-Ends _ _ _ _ (λ _ _ _. tt) (build_connection-IsReady (variant m) id rs t l h))
      λ nc s1 u1 ready.
        nzero-Ends _ _ _ _ _ _ _ (λ _ _. tt)
          λ a s2 h2. ignore-Ends _ _ _ _ _ _ λ w s3. ignore-Ends _ _ _ _ _ _ λ d s4.
            ignore-Ends _ _ _ _ _ _ λ e s5. tell-Ends _ _ _ _ _ _ (
              tell-last _ _ _ _ _ (record {
                nc = nc;
                owned = ground arith;
                silent = ready.said.0;
                armed = ready.counted.0;
              }))
