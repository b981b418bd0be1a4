-- ===== src/Rdmacm05/Common/Setup.antt =====
-- setup_connection of src/rdmacm05/common.c against the lifetime of the objects.
use rdma_tutorial.Prelude.{suc, ◌==◌, ◌&&◌, arith, refl, ◌≢◌, ℕ, ◌≡◌, some, List, [], ◌∷◌, ◌++◌}
use rdma_tutorial.External.{Call, Reply, Trace}
use rdma_tutorial.Machine.Ends.{Ends, Refused, ok-Ends, call-Ends, null-step, nzero-step}
use rdma_tutorial.Machine.Observe.{posted, sent, completed, heard, chains_end}
use rdma_tutorial.Resources.{Entry, entry, device, pd, mr, cq, qp, channel, block, settle}
use rdma_tutorial.Rdmacm05.Common.{
  Connection, Variant, own_variant, build_connection, setup_connection,
}

abbrev pub entries_of : Connection → List Entry
entries_of nc =
    entry (mr, nc.send_mr) ((pd, nc.pd) ∷ (block, nc.send_buff) ∷ [])
    ∷ entry (mr, nc.recv_mr) ((pd, nc.pd) ∷ (block, nc.recv_buff) ∷ [])
    ∷ entry (block, nc.send_buff) []
    ∷ entry (block, nc.recv_buff) []
    ∷ entry (qp, nc.qp) ((pd, nc.pd) ∷ (cq, nc.cq) ∷ (cq, nc.cq) ∷ [])
    ∷ entry (cq, nc.cq) ((device, nc.ctx) ∷ (channel, nc.cc) ∷ [])
    ∷ entry (channel, nc.cc) ((device, nc.ctx) ∷ [])
    ∷ entry (pd, nc.pd) ((device, nc.ctx) ∷ [])
    ∷ entry (block, nc.self) []
    ∷ []

-- What a connection that was set up over the live objects `l` looks like.
pub record IsReady (v : Variant) (l : List Entry) (t : Trace) (nc : Connection) (u : Trace)
    : Type 0 where
  -- its nine objects are live, and nothing else has changed
  pub owned : settle u ≡ some (entries_of nc ++ l)
  -- no pointer of the struct is NULL
  pub buffers : (nc.recv_buff ≢ 0) × (nc.send_buff ≢ 0) × (nc.recv_mr ≢ 0) × (nc.send_mr ≢ 0)
  pub handles : (nc.self ≢ 0) × (nc.pd ≢ 0) × (nc.cc ≢ 0) × (nc.cq ≢ 0)
  -- one receive more is posted than before; nothing was sent or heard, and no completion taken
  pub counted : (posted u ≡ suc (posted t)) × (completed u ≡ completed t)
  pub said : (sent u ≡ sent t) × (heard u ≡ heard t)
  -- the requests carry the `wr_id` of the variant, and lead to its `next`
  pub named : (nc.recv_wr.wr_id ≡ v.recv_wr_id nc.self) × (nc.send_wr.wr_id ≡ v.send_wr_id nc.self)
  pub chained : (nc.recv_wr.next ≡ v.recv_next) × (nc.send_wr.next ≡ v.send_next)
  pub ended : chains_end u ≡ ((v.recv_next == 0) && chains_end t)
  -- the receive into the receive buffer is the last thing done
  pub armed : (r : Reply) × (rest : Trace) × (u ≡ (Call.post_recv nc.qp nc.recv_wr, r) ∷ rest)

pub build_connection-IsReady :
    (v : Variant) (cm_id : ℕ) (rs : List Reply) (t : Trace) (l : List Entry)
    → settle t ≡ some l
    → Ends (IsReady v l t) Refused (build_connection v cm_id (rs, t))
unfolding build_connection
build_connection-IsReady v cm_id rs t l h = null-step _ _ _ _ _ _ λ nc s0 h0.
    call-Ends _ _ _ _ _ _ λ verbs s1. null-step _ _ _ _ _ _ λ pd s2 h2.
      null-step _ _ _ _ _ _ λ cc s3 h3. null-step _ _ _ _ _ _ λ cq s4 h4.
        nzero-step _ _ _ _ _ _ λ notify s5 h5. nzero-step _ _ _ _ _ _ λ qp s6 h6.
          null-step _ _ _ _ _ _ λ rb s7 h7. null-step _ _ _ _ _ _ λ sb s8 h8.
            null-step _ _ _ _ _ _ λ rm s9 h9. null-step _ _ _ _ _ _ λ sm s10 h10.
              call-Ends _ _ _ _ _ _ λ rk s11. call-Ends _ _ _ _ _ _ λ sk s12.
                nzero-step _ _ _ _ _ _ λ post s13 h13. ok-Ends _ _ _ _ _ (record {
                  owned = ground arith;
                  buffers = ground arith;
                  handles = ground arith;
                  counted = ground arith;
                  said = (refl, refl);
                  named = (refl, refl);
                  chained = (refl, refl);
                  ended = refl;
                  armed = (_, _, refl);
                })

-- setup_connection, over any live objects `l` and whatever the libraries reply: it returns a
-- connection that owns exactly nine new live objects, with no NULL among its buffers, regions and
-- handles but the QP, and one receive more is posted than before; its requests carry its address as
-- `wr_id`, and lead to no further request; or it dies on the call that was refused, or waits for a
-- reply.
pub setup_connection-IsReady :
    (cm_id : ℕ) (rs : List Reply) (t : Trace) (l : List Entry)
    → settle t ≡ some l
    → Ends (IsReady own_variant l t) Refused (setup_connection cm_id (rs, t))
unfolding setup_connection
setup_connection-IsReady cm_id rs t l h = build_connection-IsReady own_variant cm_id rs t l h
