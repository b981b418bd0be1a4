-- ===== src/Rdmacm01/Ended.antt =====
-- What the mains of src/rdmacm01/server.c and src/rdmacm01/client.c have done when they return.
use rdma_tutorial.Prelude.{ℕ, suc, ◌≡◌, ◌∙◌, ap, ◌==◌, ◌&&◌, some, List, ◌++◌}
use rdma_tutorial.External.{Reply, Trace}
use rdma_tutorial.Machine.Ends.{Ends, bind-Ends, map-Ends, die_if-Ends}
use rdma_tutorial.Machine.Observe.{posted, sent, completed, chains_end}
use rdma_tutorial.Resources.{Entry, settle}
use rdma_tutorial.Rdmacm05.Common.{Connection, Leftover}
use rdma_tutorial.Rdmacm05.Common.Setup.{entries_of}
use rdma_tutorial.Rdmacm.Opened.{
  Never, IsQuiet, IsOpen, connect_server-IsOpen, listen_for_clients-IsQuiet, accept_client-IsOpen,
}
use rdma_tutorial.Rdmacm.Closed.{close_client-IsQuiet, close_server-IsQuiet}
use rdma_tutorial.Rdmacm01.Common.{variant, setup_connection}
use rdma_tutorial.Rdmacm01.Client
use rdma_tutorial.Rdmacm01.Server

-- After a run that began at `t`: the int it returned, the connection it has left, and whether every
-- request that was posted ends its chain of requests.
pub record HasEnded (m : Leftover) (l : List Entry) (t : Trace) (n : ℕ) (u : Trace) : Type 0 where
  pub status : n ≡ 0
  pub nc : Connection
  pub owned : settle u ≡ some (entries_of nc ++ l)
  pub counted : (posted u ≡ suc (posted t)) × (completed u ≡ completed t)
  pub silent : sent u ≡ sent t
  pub ended : chains_end u ≡ ((m.recv_next == 0) && chains_end t)

ended_quietly :
    (m : Leftover) (l : List Entry) (t u w : Trace) (nc : Connection) (n : ℕ)
    → IsOpen (variant m) l t nc u
    → (n ≡ 0) × IsQuiet u w
    → HasEnded m l t n w
ended_quietly m l t u w nc n o q = record {
  status = q.0;
  nc = nc;
  owned = q.1.live ∙ o.owned;
  counted = (q.1.counted.0 ∙ o.counted.0, q.1.counted.1 ∙ o.counted.1);
  silent = q.1.said.0 ∙ o.said.0;
  ended = q.1.ended ∙ o.ended;
}

-- If the server for one client returns, it returns 0 with the nine objects of the connection still
-- live, one receive posted that is not completed, and nothing sent; and the receive that it posted
-- ends its chain of requests exactly if the memory that malloc gave held NULL at the `next`, which
-- no one assigns. It may also die or wait, and meets no fault.
pub main01-HasEnded :
    (m : Leftover) (rs : List Reply) (t : Trace) (l : List Entry)
    → settle t ≡ some l
    → Ends (λ n u. HasEnded m l t n u) Never (Server.main m (rs, t))
unfolding Server.main setup_connection
main01-HasEnded m rs t l h =
    bind-Ends _ _ _ _ _ (listen_for_clients-IsQuiet rs t l h) λ listener s1 u1 q1.
      bind-Ends _ _ _ _ _ (accept_client-IsOpen (variant m) listener s1 u1 l (q1.live ∙ h))
        λ a s2 u2 o.
          map-Ends _ _ _ _
            (λ n u q.
              ended_quietly m l t u2 u a.nc n
                (record {
                  owned = o.owned;
                  said = (o.said.0 ∙ q1.said.0, o.said.1 ∙ q1.said.1);
                  counted = (o.counted.0 ∙ ap suc q1.counted.0, o.counted.1 ∙ q1.counted.1);
                  ended = o.ended ∙ ap (λ b. (m.recv_next == 0) && b) q1.ended;
                  chained = o.chained;
                })
                q)
            (close_server-IsQuiet a s2 u2)

-- The same of the client, on every list of arguments.
pub client01-HasEnded :
    (m : Leftover) (argv : List (List ℕ)) (rs : List Reply) (t : Trace) (l : List Entry)
    → settle t ≡ some l
    → Ends (λ n u. HasEnded m l t n u) Never (Client.main m argv (rs, t))
unfolding Client.main setup_connection
client01-HasEnded m argv rs t l h =
    die_if-Ends _ _ rs t _ _ _ (λ _. tt)
      λ _. bind-Ends _ _ _ _ _ (connect_server-IsOpen (variant m) rs t l h) λ c s1 u1 o.
        map-Ends _ _ _ _ (λ n u q. ended_quietly m l t u1 u c.nc n o q)
          (close_client-IsQuiet c s1 u1)
