-- ===== src/Rdmacm/Opened.antt =====
-- What a client or a server has done when its connection is open.
use rdma_tutorial.Prelude.{
  ◌==◌, ◌&&◌, Bool, ℕ, suc, ◌≡◌, refl, ap, ◌∙◌, some, List, ◌++◌, Bool-cases, inl, inr, arith,
}
use rdma_tutorial.External.{Reply, Trace, CmEventType}
use rdma_tutorial.Machine.{Reason}
use rdma_tutorial.Machine.Ends.{
  Ends, ok-Ends, died-Ends, nzero-Ends, null-Ends, bind-Ends, weaken-Ends, ignore-Ends, tell-Ends,
}
use rdma_tutorial.Machine.Observe.{posted, sent, completed, heard, chains_end}
use rdma_tutorial.Resources.{Entry, settle}
use rdma_tutorial.Rdmacm05.Common.{
  Connection, Variant, build_connection, check_cm_event, same_event,
}
use rdma_tutorial.Rdmacm05.Common.Setup.{entries_of, build_connection-IsReady}
use rdma_tutorial.Rdmacm.Active.{await_event, connect_server}
use rdma_tutorial.Rdmacm.Passive.{Listener, listen_for_clients, accept_client}

abbrev pub Never : Reason → Trace → Type 0
Never _ _ = Unit

-- A part of a run in which nothing was posted, sent, heard or completed, and no object changed.
pub record IsQuiet (t u : Trace) : Type 0 where
  pub live : settle u ≡ settle t
  pub said : (sent u ≡ sent t) × (heard u ≡ heard t)
  pub counted : (posted u ≡ posted t) × (completed u ≡ completed t)
  pub ended : chains_end u ≡ chains_end t

pub IsQuiet-refl : (t : Trace) → IsQuiet t t
IsQuiet-refl t = record { live = refl; said = (refl, refl); counted = (refl, refl); ended = refl }

pub await_event-IsQuiet :
    (ec : ℕ) (exp : CmEventType) (rs : List Reply) (t : Trace)
    → Ends (λ _ u. IsQuiet t u) Never (await_event ec exp (rs, t))
unfolding await_event check_cm_event
await_event-IsQuiet ec exp rs t =
    nzero-Ends _ _ _ _ _ _ _ (λ _ _. tt)
      λ r s1 z1. elim (Bool-cases (same_event r.event.event exp)) [
        | inl y ↦ rw y (
            ignore-Ends _ _ _ _ _ _ λ q rest. ok-Ends _ _ _ _ _ (record {
              live = ground arith;
              said = (refl, refl);
              counted = (refl, refl);
              ended = refl;
            }))
        | inr y ↦ rw y (died-Ends _ _ _ _ _ tt)
      ]

-- The connection of a client or a server is open: its nine objects are live beside `l`, its
-- requests are those of the variant, and one receive is posted.
pub record IsOpen (v : Variant) (l : List Entry) (t : Trace) (nc : Connection) (u : Trace)
    : Type 0 where
  pub owned : settle u ≡ some (entries_of nc ++ l)
  pub said : (sent u ≡ sent t) × (heard u ≡ heard t)
  pub counted : (posted u ≡ suc (posted t)) × (completed u ≡ completed t)
  pub ended : chains_end u ≡ ((v.recv_next == 0) && chains_end t)
  pub chained : (nc.recv_wr.next ≡ v.recv_next) × (nc.send_wr.next ≡ v.send_next)

ended_after : (b : Bool) {x y z w : Bool} → x ≡ y → y ≡ (b && z) → z ≡ w → x ≡ (b && w)
ended_after b p q r = p ∙ q ∙ ap (λ c. b && c) r

pub connect_server-IsOpen :
    (v : Variant) (rs : List Reply) (t : Trace) (l : List Entry)
    → settle t ≡ some l
    → Ends (λ c u. IsOpen v l t c.nc u) Never (connect_server (build_connection v) (rs, t))
unfolding connect_server
connect_server-IsOpen v rs t l h =
    null-Ends _ _ _ _ _ _ _ (λ _ _. tt)
      λ ec s1 h1.
        nzero-Ends _ _ _ _ _ _ _ (λ _ _. tt)
          λ conn s2 h2.
            nzero-Ends _ _ _ _ _ _ _ (λ _ _. tt)
              λ ai s3 h3.
                nzero-Ends _ _ _ _ _ _ _ (λ _ _. tt)
                  λ ra s4 h4. tell-Ends _ _ _ _ _ _ (
                    bind-Ends _ _ _ _ _ (await_event-IsQuiet _ _ _ _) λ _ s5 u5 q5.
                      nzero-Ends _ _ _ _ _ _ _ (λ _ _. tt)
                        λ rr s6 h6. bind-Ends _ _ _ _ _ (await_event-IsQuiet _ _ _ _) λ _ s7 u7 q7.
                          bind-Ends _ _ _ _ _
                            (weaken-Ends _ _ _ _ (λ _ _ _. tt)
                              (build_connection-IsReady v _ s7 u7 l (ground arith)))
                            λ nc s8 u8 ready.
                              nzero-Ends _ _ _ _ _ _ _ (λ _ _. tt)
                                λ rc s9 h9.
                                  bind-Ends _ _ _ _ _ (await_event-IsQuiet _ _ _ _) λ _ s10 u10 q10.
                                    ok-Ends _ _ _ _ _ (record {
                                      owned = ground arith;
                                      said = (
                                        q10.said.0 ∙ ready.said.0 ∙ q7.said.0 ∙ q5.said.0,
                                        q10.said.1 ∙ ready.said.1 ∙ q7.said.1 ∙ q5.said.1,
                                      );
                                      counted = (
                                        q10.counted.0
                                            ∙ ready.counted.0
                                            ∙ ap suc (q7.counted.0 ∙ q5.counted.0),
                                        q10.counted.1 ∙ ready.counted.1 ∙ q7.counted.1
                                            ∙ q5.counted.1,
                                      );
                                      ended =
                                          ended_after (v.recv_next == 0) q10.ended ready.ended
                                            (q7.ended ∙ q5.ended);
                                      chained = ready.chained;
                                    }))

pub listen_for_clients-IsQuiet :
    (rs : List Reply) (t : Trace) (l : List Entry)
    → settle t ≡ some l
    → Ends (λ _ u. IsQuiet t u) Never (listen_for_clients (rs, t))
unfolding listen_for_clients
listen_for_clients-IsQuiet rs t l h =
    null-Ends _ _ _ _ _ _ _ (λ _ _. tt)
      λ ec s1 h1.
        nzero-Ends _ _ _ _ _ _ _ (λ _ _. tt)
          λ id s2 h2.
            nzero-Ends _ _ _ _ _ _ _ (λ _ _. tt)
              λ ai s3 h3.
                nzero-Ends _ _ _ _ _ _ _ (λ _ _. tt)
                  λ b s4 h4.
                    nzero-Ends _ _ _ _ _ _ _ (λ _ _. tt)
                      λ k s5 h5. tell-Ends _ _ _ _ _ _ (
                        ok-Ends _ _ _ _ _ (record {
                          live = ground arith;
                          said = (refl, refl);
                          counted = (refl, refl);
                          ended = refl;
                        }))

pub accept_client-IsOpen :
    (v : Variant) (listener : Listener) (rs : List Reply) (t : Trace) (l : List Entry)
    → settle t ≡ some l
    → Ends (λ a u. IsOpen v l t a.nc u) Never (accept_client (build_connection v) listener (rs, t))
unfolding accept_client
accept_client-IsOpen v listener rs t l h =
    bind-Ends _ _ _ _ _ (await_event-IsQuiet _ _ _ _) λ id s1 u1 q1.
      bind-Ends _ _ _ _ _
        (weaken-Ends _ _ _ _ (λ _ _ _. tt) (build_connection-IsReady v id s1 u1 l (q1.live ∙ h)))
        λ nc s2 u2 ready.
          nzero-Ends _ _ _ _ _ _ _ (λ _ _. tt)
            λ rc s3 h3. bind-Ends _ _ _ _ _ (await_event-IsQuiet _ _ _ _) λ _ s4 u4 q4.
              ok-Ends _ _ _ _ _ (record {
                owned = ground arith;
                said = (q4.said.0 ∙ ready.said.0 ∙ q1.said.0, q4.said.1 ∙ ready.said.1 ∙ q1.said.1);
                counted = (
                  q4.counted.0 ∙ ready.counted.0 ∙ ap suc q1.counted.0,
                  q4.counted.1 ∙ ready.counted.1 ∙ q1.counted.1,
                );
                ended = ended_after (v.recv_next == 0) q4.ended ready.ended q1.ended;
                chained = ready.chained;
              })
