-- ===== src/Example03/Handshake/Connected.antt =====
-- The queue pairs of the client and the server of src/example03 after both handshakes.
use mathlib.Core.Option
use rdma_tutorial.Prelude.{ℕ, ◌<◌, ◌≡◌, refl, some, List, [], ◌++◌, length, arith}
use rdma_tutorial.External.{Reply, Trace}
use rdma_tutorial.Machine.{ok}
use rdma_tutorial.Machine.Ends.{
  Ends, call-Ends, die_if-Ends, bind-Ends, ok-Ends, ignore-Ends, weaken-Ends, Ends-ok,
}
use rdma_tutorial.Machine.Observe.{received, written, own_qp_num}
use rdma_tutorial.Wire.{ByteOrder, QpConnInfo, info_bytes, info_of_bytes, local_info, to_host}
use rdma_tutorial.Wire.Exchange.{exchange}
use rdma_tutorial.Resources.{Entry, settle}
use rdma_tutorial.QueuePair.{view, fresh}
use rdma_tutorial.Example03.Common.{RdmaContext}
use rdma_tutorial.Example03.Common.Lifetime.{
  IsBuilt, IsFilled, entries_of, build_rdma_resources-IsBuilt,
}
use rdma_tutorial.Example03.Common.Qp.{connected_to, setup_qp_state-IsRaised}
use rdma_tutorial.Example03.Client
use rdma_tutorial.Example03.Server
use rdma_tutorial.Example03.Handshake.Parts.{Never, read_info-HasRead, write_info-HasWritten}

-- A context whose queue pair is ready to send to `peer`, the struct that was read, and whose own
-- number, LID and GID are the struct that was written; `l` was live before.
pub record HasPeer (o : ByteOrder) (l : List Entry) (res : RdmaContext) (u : Trace) : Type 0 where
  pub owned : settle u ≡ some (entries_of res ++ l)
  pub filled : IsFilled res
  pub bytes : List ℕ
  pub heard : received u ≡ some bytes
  pub peer : QpConnInfo
  pub told : Option.map (to_host o) (info_of_bytes o bytes) ≡ some peer
  pub raised : view res.qp u ≡ some (connected_to peer)
  pub num : ℕ
  pub asked : own_qp_num u ≡ some num
  pub said : written u ≡ some (info_bytes o (local_info o num res.port_attr.lid res.gid))

pub client-HasPeer :
    (o : ByteOrder) (rs : List Reply) (t : Trace) (l : List Entry)
    → settle t ≡ some l
    → Ends (HasPeer o l) Never (Client.open_connection o (rs, t))
unfolding Client.open_connection
client-HasPeer o rs t l h =
    bind-Ends _ _ (IsBuilt l 1) _ _
      (weaken-Ends _ _ _ _ (λ _ _ _. tt) (build_rdma_resources-IsBuilt _ rs t l h))
      λ res s1 u1 built. call-Ends _ _ _ _ _ _ λ sock s2.
        die_if-Ends _ _ _ _ _ _ _ (λ _. tt)
          λ h2. call-Ends _ _ _ _ _ _ λ addr s3.
            die_if-Ends _ _ _ _ _ _ _ (λ _. tt)
              λ h3.
                die_if-Ends _ _ _ _ _ _ _ (λ _. tt)
                  λ h3'. call-Ends _ _ _ _ _ _ λ conn s4.
                    die_if-Ends _ _ _ _ _ _ _ (λ _. tt)
                      λ h4. bind-Ends _ _ _ _ _ (read_info-HasRead o _ res.qp _ _) λ info s5 u5 got.
                        bind-Ends _ _ _ _ _ (write_info-HasWritten o _ res _ _) λ _ s6 u6 put.
                          bind-Ends _ _ _ _ _
                            (weaken-Ends _ _ _ _ (λ _ _ _. tt)
                              (setup_qp_state-IsRaised res info s6 u6 fresh (ground arith) refl))
                            λ ret s7 u7 up.
                              die_if-Ends _ _ _ _ _ _ _ (λ _. tt)
                                λ h7. ignore-Ends _ _ _ _ _ _ λ closed s8.
                                  ok-Ends _ _ _ _ _ (record {
                                    owned = ground arith;
                                    filled = built.filled;
                                    bytes = got.bytes;
                                    heard = ground arith;
                                    peer = info;
                                    told = got.told;
                                    raised = up.raised;
                                    num = put.num;
                                    asked = ground arith;
                                    said = ground arith;
                                  })

pub server-HasPeer :
    (o : ByteOrder) (rs : List Reply) (t : Trace) (l : List Entry)
    → settle t ≡ some l
    → Ends (HasPeer o l) Never (Server.open_connection o (rs, t))
unfolding Server.open_connection
server-HasPeer o rs t l h =
    bind-Ends _ _ (IsBuilt l 1) _ _
      (weaken-Ends _ _ _ _ (λ _ _ _. tt) (build_rdma_resources-IsBuilt _ rs t l h))
      λ res s1 u1 built. call-Ends _ _ _ _ _ _ λ sock s2.
        die_if-Ends _ _ _ _ _ _ _ (λ _. tt)
          λ h2. call-Ends _ _ _ _ _ _ λ bound s3.
            die_if-Ends _ _ _ _ _ _ _ (λ _. tt)
              λ h3. call-Ends _ _ _ _ _ _ λ heard s4.
                die_if-Ends _ _ _ _ _ _ _ (λ _. tt)
                  λ h4. call-Ends _ _ _ _ _ _ λ client s5.
                    die_if-Ends _ _ _ _ _ _ _ (λ _. tt)
                      λ h5. bind-Ends _ _ _ _ _ (write_info-HasWritten o _ res _ _) λ _ s6 u6 put.
                        bind-Ends _ _ _ _ _ (read_info-HasRead o _ res.qp _ _) λ info s7 u7 got.
                          bind-Ends _ _ _ _ _
                            (weaken-Ends _ _ _ _ (λ _ _ _. tt)
                              (setup_qp_state-IsRaised res info s7 u7 fresh (ground arith) refl))
                            λ ret s8 u8 up.
                              die_if-Ends _ _ _ _ _ _ _ (λ _. tt)
                                λ h8. ignore-Ends _ _ _ _ _ _ λ c1 s9.
                                  ignore-Ends _ _ _ _ _ _ λ c2 s10. ok-Ends _ _ _ _ _ (record {
                                    owned = ground arith;
                                    filled = built.filled;
                                    bytes = got.bytes;
                                    heard = ground arith;
                                    peer = info;
                                    told = got.told;
                                    raised = up.raised;
                                    num = put.num;
                                    asked = ground arith;
                                    said = ground arith;
                                  })

-- What the GID, the LID and the queue pair number of a side are, and their ranges.
pub record Is (qp_num lid : ℕ) (gid : List ℕ) (res : RdmaContext) (u : Trace) : Type 0 where
  pub numbered : own_qp_num u ≡ some qp_num
  pub lid_of : res.port_attr.lid ≡ lid
  pub gid_of : res.gid ≡ gid
  pub small_qp_num : qp_num < 4294967296
  pub small_lid : lid < 65536
  pub whole_gid : length gid ≡ 16

HasPeer-connected :
    (ours theirs : ByteOrder) (l l' : List Entry) (res res' : RdmaContext) (u u' : Trace)
    (qp_num lid : ℕ) (gid : List ℕ)
    → HasPeer ours l res u
    → HasPeer theirs l' res' u'
    → Is qp_num lid gid res' u'
    → received u ≡ written u'
    → view res.qp u ≡ some (connected_to (record { qp_num = qp_num; lid = lid; gid = gid }))
HasPeer-connected ours theirs l l' res res' u u' qp_num lid gid a b is wire =
    ground (arith, exchange theirs ours qp_num lid gid is.small_qp_num is.small_lid is.whole_gid)

-- A client and a server, of whatever byte orders, that each start with no live object and both
-- return from their handshake: if TCP has delivered to each what the other wrote, and the numbers
-- of both are in range, then each queue pair is in the state RTS with the other one as its peer.
pub handshake :
    (co so : ByteOrder) (crs srs crs' srs' : List Reply) (c s : RdmaContext) (cu su : Trace)
    (cn cl sn sl : ℕ) (cg sg : List ℕ)
    → Client.open_connection co (crs, []) ≡ (ok c, (crs', cu))
    → Server.open_connection so (srs, []) ≡ (ok s, (srs', su))
    → received cu ≡ written su
    → received su ≡ written cu
    → Is cn cl cg c cu
    → Is sn sl sg s su
    → (view c.qp cu ≡ some (connected_to (record { qp_num = sn; lid = sl; gid = sg })))
      × (view s.qp su ≡ some (connected_to (record { qp_num = cn; lid = cl; gid = cg })))
handshake co so crs srs crs' srs' c s cu su cn cl sn sl cg sg hc hs down up ic is = (
  HasPeer-connected co so [] [] c s cu su sn sl sg a b is down,
  HasPeer-connected so co [] [] s c su cu cn cl cg b a ic up,
)
  where
    a : HasPeer co [] c cu
    a = Ends-ok _ _ _ _ _ _ (client-HasPeer co crs [] [] refl) hc

    b : HasPeer so [] s su
    b = Ends-ok _ _ _ _ _ _ (server-HasPeer so srs [] [] refl) hs
