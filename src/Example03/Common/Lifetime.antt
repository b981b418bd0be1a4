-- ===== src/Example03/Common/Lifetime.antt =====
-- build_rdma_resources and cleanup_resources against the lifetime of the objects.
use rdma_tutorial.Prelude.{
  ℕ, ◌≡◌, refl, false, ◌⊎◌, inl, inr, some, List, [], ◌∷◌, ◌++◌, ◌==◌, arith,
}
use rdma_tutorial.External.{Reply, Trace}
use rdma_tutorial.Machine.{Reason, reason}
use rdma_tutorial.Machine.Ends.{
  Ends, Refused, ok-Ends, call-Ends, tell-Ends, die_if-Ends, null-Ends, nzero-Ends, ignore_if-Ends,
  tell_if-last,
}
use rdma_tutorial.Resources.{Entry, entry, device, pd, mr, cq, qp, channel, block, settle, in_use}
use rdma_tutorial.QueuePair.{view, fresh}
use rdma_tutorial.Example03.Common.{RdmaContext, build_rdma_resources, cleanup_resources}

abbrev pub entries_of : RdmaContext → List Entry
entries_of res =
    entry (qp, res.qp) ((pd, res.pd) ∷ (cq, res.cq) ∷ (cq, res.cq) ∷ [])
    ∷ entry (cq, res.cq) ((device, res.ctx) ∷ (channel, 0) ∷ [])
    ∷ entry (mr, res.mr) ((pd, res.pd) ∷ (block, res.buf) ∷ [])
    ∷ entry (block, res.buf) []
    ∷ entry (pd, res.pd) ((device, res.ctx) ∷ [])
    ∷ entry (device, res.ctx) []
    ∷ []

-- No handle of the context is NULL.
abbrev pub IsFilled : RdmaContext → Type 0
IsFilled res =
    ((res.ctx == 0) ≡ false)
    × ((res.pd == 0) ≡ false)
    × ((res.mr == 0) ≡ false)
    × ((res.cq == 0) ≡ false)
    × ((res.qp == 0) ≡ false)
    × ((res.buf == 0) ≡ false)

-- The context, once it is built over the live objects `l` for port `port`.
pub record IsBuilt (l : List Entry) (port : ℕ) (res : RdmaContext) (u : Trace) : Type 0 where
  pub owned : settle u ≡ some (entries_of res ++ l)
  pub filled : IsFilled res
  pub idle : view res.qp u ≡ some fresh
  pub kept : res.ib_port ≡ port

abbrev pub BuildFails : Reason → Trace → Type 0
BuildFails e u = Refused e u ⊎ (e ≡ reason "No IB devices found")

-- build_rdma_resources, whatever the library replies: it returns with six new live objects, which
-- the context names by handles that are not NULL, with a new queue pair in the state RESET and the
-- port it was given; or it dies, on a refused call or for want of a device, or waits for a reply.
pub build_rdma_resources-IsBuilt :
    (res : RdmaContext) (rs : List Reply) (t : Trace) (l : List Entry)
    → settle t ≡ some l
    → Ends (IsBuilt l res.ib_port) BuildFails (build_rdma_resources res (rs, t))
unfolding build_rdma_resources
build_rdma_resources-IsBuilt res rs t l h = call-Ends _ _ _ _ _ _ λ devices s0.
    die_if-Ends _ _ _ _ _ _ _ (λ z. inl (ground arith))
      λ h0.
        die_if-Ends _ _ _ _ _ _ _ (λ z. inr refl)
          λ h1.
            null-Ends _ _ _ _ _ _ _ (λ r z. inl (ground arith))
              λ ctx s2 h2. tell-Ends _ _ _ _ _ _ (
                nzero-Ends _ _ _ _ _ _ _ (λ r z. inl (ground arith))
                  λ port s3 h3.
                    nzero-Ends _ _ _ _ _ _ _ (λ r z. inl (ground arith))
                      λ gid s4 h4.
                        null-Ends _ _ _ _ _ _ _ (λ r z. inl (ground arith))
                          λ pd s5 h5.
                            null-Ends _ _ _ _ _ _ _ (λ r z. inl (ground arith))
                              λ buf s6 h6.
                                null-Ends _ _ _ _ _ _ _ (λ r z. inl (ground arith))
                                  λ mr s7 h7.
                                    null-Ends _ _ _ _ _ _ _ (λ r z. inl (ground arith))
                                      λ cq s8 h8.
                                        null-Ends _ _ _ _ _ _ _ (λ r z. inl (ground arith))
                                          λ qp s9 h9. ok-Ends _ _ _ _ _ (record {
                                            owned = ground arith;
                                            filled = (h2, h5, h7, h8, h9, h6);
                                            idle = ground arith;
                                            kept = refl;
                                          }))

-- No object that was live before is built on one of the context.
abbrev pub Apart : RdmaContext → List Entry → Type 0
Apart res l =
    (in_use (qp, res.qp) l ≡ false)
    × (in_use (cq, res.cq) l ≡ false)
    × (in_use (mr, res.mr) l ≡ false)
    × (in_use (pd, res.pd) l ≡ false)
    × (in_use (device, res.ctx) l ≡ false)
    × (in_use (block, res.buf) l ≡ false)

-- cleanup_resources of a full context whose objects are live and not in use by others: no object is
-- destroyed while another one is built on it, and exactly those objects are gone when it returns.
-- It never dies.
pub cleanup_resources-settle :
    (res : RdmaContext) (rs : List Reply) (t : Trace) (l : List Entry)
    → IsFilled res
    → Apart res l
    → settle t ≡ some (entries_of res ++ l)
    → Ends (λ _ u. settle u ≡ some l) (λ _ _. ⊥) (cleanup_resources res (rs, t))
unfolding cleanup_resources
cleanup_resources-settle res rs t l (hx, hp, hm, hc, hq, hb) a h =
    ignore_if-Ends _ _ _ _ _ _ _ hq λ r0 s0. ignore_if-Ends _ _ _ _ _ _ _ hc λ r1 s1.
      ignore_if-Ends _ _ _ _ _ _ _ hm λ r2 s2.
        ignore_if-Ends _ _ _ _ _ _ _ hp λ r3 s3.
          ignore_if-Ends _ _ _ _ _ _ _ hx λ r4 s4. tell_if-last _ _ _ _ _ _ hb (ground arith)
