-- ===== src/Rdmacm05/Server/Loop.antt =====
-- The main loop of src/rdmacm05/server.c from its two event handlers: what both keep, it keeps.
use rdma_tutorial.Prelude.{ℕ, zero, suc, List, [], ◌∷◌, ◌==◌, Bool-cases, inl, inr}
use rdma_tutorial.External.{Reply, Trace, Call, is_zero, is_negative}
use rdma_tutorial.Machine.Leaves.{Leaves, ok-Leaves, stop-Leaves, bind-Leaves, call-Leaves}
use rdma_tutorial.Rdmacm05.Server.Defs.{
  Store, handle_cm_event, handle_cq_event, handle_events, main_loop, max_events, eintr,
}

-- `P` of the store and the trace, which the two calls of a round and the two handlers keep
module _ (P : Store → Trace → Type 0)
    (load : (st : Store) (t : Trace) (r : Reply) → P st t → P st ((Call.load_keep_running, r) ∷ t))
    (wait : (st : Store) (t : Trace) (r : Reply)
      → P st t
      → P st ((Call.epoll_wait max_events 1000, r) ∷ t))
    (on_cm : (fd ec : ℕ) (st : Store) (rs : List Reply) (t : Trace)
      → P st t
      → Leaves (λ r u. P r.1 u) (handle_cm_event fd ec st (rs, t)))
    (on_cq : (fuel cc : ℕ) (st : Store) (rs : List Reply) (t : Trace)
      → P st t
      → Leaves (λ _ u. P st u) (handle_cq_event fuel cc st (rs, t))) where
  -- the events of one epoll_wait
  handle_events-Leaves :
      (fuel fd ec : ℕ) (ps : List ℕ) (st : Store) (rs : List Reply) (t : Trace)
      → P st t
      → Leaves P (handle_events fuel fd ec ps st (rs, t))
  unfolding handle_events
  handle_events-Leaves fuel fd ec [] st rs t b = ok-Leaves P st rs t b
  handle_events-Leaves fuel fd ec (p ∷ ps) st rs t b = elim (Bool-cases (p == ec)) [
    | inl e ↦ rw e (
        bind-Leaves P P _ _
          (bind-Leaves P (λ r u. P r.1 u) _ _ (on_cm fd ec st rs t b)
            λ r s u g. ok-Leaves P _ s u g)
          λ st' s u g. handle_events-Leaves fuel fd ec ps st' s u g)
    | inr e ↦ rw e (
        bind-Leaves P P _ _
          (bind-Leaves P _ _ _ (on_cq fuel p st rs t b) λ _ s u g. ok-Leaves P st s u g)
          λ st' s u g. handle_events-Leaves fuel fd ec ps st' s u g)
  ]

  pub main_loop-Leaves :
      (fuel fd ec : ℕ) (st : Store) (rs : List Reply) (t : Trace)
      → P st t
      → Leaves P (main_loop fuel fd ec st (rs, t))
  unfolding main_loop
  main_loop-Leaves zero fd ec st rs t b = stop-Leaves P _
  main_loop-Leaves (suc fuel) fd ec st rs t b = call-Leaves P rs t _ _ λ k s1.
      elim (Bool-cases (is_zero k.code)) [
        | inl p ↦ rw p (ok-Leaves P st s1 _ (load st t k b))
        | inr p ↦ rw p (
            call-Leaves P s1 _ _ _ λ r s.
              let now : P st
                  ((Call.epoll_wait max_events 1000, r) ∷ (Call.load_keep_running, k) ∷ t) =
                wait st _ r (load st t k b) in
              elim (Bool-cases (is_negative r.code)) [
                | inl q ↦ elim (Bool-cases (r.value == eintr)) [
                  | inl e ↦ rw (q, e) (main_loop-Leaves fuel fd ec st s _ now)
                  | inr e ↦ rw (q, e) (ok-Leaves P st s _ now)
                ]
                | inr q ↦ elim (Bool-cases (is_zero r.code)) [
                  | inl e ↦ rw (q, e) (main_loop-Leaves fuel fd ec st s _ now)
                  | inr e ↦
                      rw (q, e)
                        (bind-Leaves P P _ _ (handle_events-Leaves fuel fd ec r.ptrs st s _ now)
                          λ st' s2 u2 g. main_loop-Leaves fuel fd ec st' s2 u2 g)
                ]
              ])
      ]
