-- ===== src/Rdmacm05/Server/Teardown.antt =====
-- The releases of a connection in src/rdmacm05/server.c against the lifetime of the objects.
use rdma_tutorial.Prelude.{◌≡◌, ap, ◌∙◌, false, some, List, [], ◌∷◌, ◌++◌, ◌==◌, All, arith}
use rdma_tutorial.External.{Reply, Trace}
use rdma_tutorial.Machine.Ends.{Ends, ignore_if-Ends, tell_if-Ends, tell-last, map-Ends}
use rdma_tutorial.Resources.{Key, Entry, pd, mr, cq, qp, channel, block, settle, in_use}
use rdma_tutorial.Resources.Releases.{releases, IsForeign, releases-append, behind}
use rdma_tutorial.Rdmacm05.Common.{Connection}
use rdma_tutorial.Rdmacm05.Common.Setup.{entries_of}
use rdma_tutorial.Rdmacm05.Server.Defs.{destroy_connection}

-- No pointer of the connection is NULL.
abbrev pub IsWhole : Connection → Type 0
IsWhole nc =
    ((nc.qp == 0) ≡ false)
    × ((nc.cq == 0) ≡ false)
    × ((nc.send_mr == 0) ≡ false)
    × ((nc.recv_mr == 0) ≡ false)
    × ((nc.send_buff == 0) ≡ false)
    × ((nc.recv_buff == 0) ≡ false)
    × ((nc.cc == 0) ≡ false)
    × ((nc.pd == 0) ≡ false)

-- what is released, in the order of the source
abbrev pub released_keys : Connection → List Key
released_keys nc =
    (qp, nc.qp)
    ∷ (cq, nc.cq)
    ∷ (mr, nc.send_mr)
    ∷ (mr, nc.recv_mr)
    ∷ (block, nc.send_buff)
    ∷ (block, nc.recv_buff)
    ∷ (channel, nc.cc)
    ∷ (pd, nc.pd)
    ∷ (block, nc.self)
    ∷ []

destroy_connection-releases :
    (nc : Connection) (rs : List Reply) (t : Trace)
    → IsWhole nc
    → Ends
        (λ _ u. settle u ≡ releases (released_keys nc) (settle t))
        (λ _ _. ⊥)
        (destroy_connection nc (rs, t))
unfolding destroy_connection
destroy_connection-releases nc rs t (hq, hc, hs, hr, hsb, hrb, hcc, hp) =
    ignore_if-Ends _ _ _ _ _ _ _ hq λ r0 s0. ignore_if-Ends _ _ _ _ _ _ _ hc λ r1 s1.
      ignore_if-Ends _ _ _ _ _ _ _ hs λ r2 s2. ignore_if-Ends _ _ _ _ _ _ _ hr λ r3 s3.
        tell_if-Ends _ _ _ _ _ _ _ hsb (
          tell_if-Ends _ _ _ _ _ _ _ hrb (
            ignore_if-Ends _ _ _ _ _ _ _ hcc
              λ r4 s4. ignore_if-Ends _ _ _ _ _ _ _ hp λ r5 s5. tell-last _ _ _ _ _ (ground arith)))

-- Nothing that is not the connection's is built on an object of the connection, or is one.
pub record IsApart (front back : List Entry) (nc : Connection) : Type 0 where
  pub before : All (IsForeign front) (released_keys nc)
  pub behind : All (λ k. in_use k back ≡ false) (released_keys nc)

released_keys-own :
    (nc : Connection) (back : List Entry)
    → All (λ k. in_use k back ≡ false) (released_keys nc)
    → releases (released_keys nc) (some (entries_of nc ++ back)) ≡ some back
released_keys-own nc back h = ground arith

pub destroy_connection-settle :
    (nc : Connection) (front back : List Entry) (rs : List Reply) (t : Trace)
    → IsWhole nc
    → IsApart front back nc
    → settle t ≡ some (front ++ (entries_of nc ++ back))
    → Ends (λ _ u. settle u ≡ some (front ++ back)) (λ _ _. ⊥) (destroy_connection nc (rs, t))
destroy_connection-settle nc front back rs t w a h =
    map-Ends _ _ _ _
      (λ _ u e.
        e
        ∙ ap (releases (released_keys nc)) h
        ∙ releases-append (released_keys nc) front (some (entries_of nc ++ back)) a.before
        ∙ ap (behind front) (released_keys-own nc back a.behind))
      (destroy_connection-releases nc rs t w)
