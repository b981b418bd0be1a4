-- ===== src/Rdmacm04/Server/Teardown.antt =====
-- The order in which a thread releases its connection.
use rdma_tutorial.Prelude.{◌≡◌, none, some, List, ◌++◌, arith}
use rdma_tutorial.External.{Reply, Trace}
use rdma_tutorial.Machine.Ends.{Ends, ignore_if-Ends, tell_if-Ends, tell-last}
use rdma_tutorial.Resources.{Entry, settle}
use rdma_tutorial.Rdmacm05.Common.{Connection}
use rdma_tutorial.Rdmacm05.Common.Setup.{entries_of}
use rdma_tutorial.Rdmacm05.Server.Teardown.{IsWhole}
use rdma_tutorial.Rdmacm04.Server.Defs.{close_connection}

-- The releases of a complete connection destroy its completion channel while its completion queue
-- is still built on it, which the lifetime contract does not allow, whatever else is live.
pub close_connection-settle :
    (nc : Connection) (l : List Entry) (rs : List Reply) (t : Trace)
    → IsWhole nc
    → settle t ≡ some (entries_of nc ++ l)
    → Ends (λ _ u. settle u ≡ none) (λ _ _. ⊥) (close_connection nc (rs, t))
unfolding close_connection
close_connection-settle nc l rs t (hq, hc, hs, hr, hsb, hrb, hcc, hp) h =
    ignore_if-Ends _ _ _ _ _ _ _ hcc λ r0 s0. ignore_if-Ends _ _ _ _ _ _ _ hq λ r1 s1.
      ignore_if-Ends _ _ _ _ _ _ _ hc λ r2 s2. ignore_if-Ends _ _ _ _ _ _ _ hs λ r3 s3.
        ignore_if-Ends _ _ _ _ _ _ _ hr λ r4 s4. tell_if-Ends _ _ _ _ _ _ _ hsb (
          tell_if-Ends _ _ _ _ _ _ _ hrb
            (ignore_if-Ends _ _ _ _ _ _ _ hp λ r5 s5. tell-last _ _ _ _ _ (ground arith)))
