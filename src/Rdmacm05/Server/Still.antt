-- ===== src/Rdmacm05/Server/Still.antt =====
-- What the handlers of the server leave of the live objects and of the open ids.
use rdma_tutorial.Prelude.{
  ℕ, zero, suc, ◌≡◌, refl, ◌∙◌, some, List, [], ◌∷◌, ◌==◌, Bool-cases, inl, inr, arith,
}
use rdma_tutorial.External.{
  no_reply, Reply, Trace, Call, Wc, WcOpcode, wc_send, wc_recv, wc_other, is_zero, is_negative,
}
use rdma_tutorial.Machine.{Prog, and_then, ignore_if, tell_if, tell}
use rdma_tutorial.Machine.Observe.{open_ids, without}
use rdma_tutorial.Machine.Leaves.{
  Leaves, ok-Leaves, stop-Leaves, bind-Leaves, call-Leaves, tell-Leaves, ignore-Leaves,
  die_if-Leaves, fault_if-Leaves, or_fault-Leaves, strcpy-Leaves, null-Leaves, nzero-Leaves,
  ignore_if-Leaves,
}
use rdma_tutorial.Resources.{Entry, settle}
use rdma_tutorial.Rdmacm05.Common.{Connection, build_connection, setup_connection}
use rdma_tutorial.Rdmacm05.Server.Defs.{
  Store, Slot, find, handle_new_request, destroy_connection, drop_connection, on_connect_request,
  on_disconnected, echo, dispatch_opcode, handle_wc, handle_wcs, drain_cq, handle_cq_event,
}

-- the live objects and the open ids
abbrev pub Holds : List Entry → List ℕ → Trace → Type 0
Holds l ids t = (settle t ≡ some l) × (open_ids t ≡ ids)

module _ (l : List Entry) (ids : List ℕ) where
  abbrev Kept : {A : Type 0} → A → Trace → Type 0
  Kept _ u = Holds l ids u

  echo-Holds :
      (nc : Connection) (rs : List Reply) (t : Trace)
      → Holds l ids t
      → Leaves Kept (echo nc (rs, t))
  unfolding echo
  echo-Holds nc rs t h = call-Leaves _ _ _ _ _ λ r s1. strcpy-Leaves _ _ _ _ _ _ (
      nzero-Leaves _ _ _ _ _ _
        λ p s2. nzero-Leaves _ _ _ _ _ _ λ q s3. ok-Leaves _ _ _ _ (ground arith))

  dispatch_opcode-Holds :
      (op : WcOpcode) (p : ℕ) (st : Store) (rs : List Reply) (t : Trace)
      → Holds l ids t
      → Leaves Kept (dispatch_opcode op p st (rs, t))
  unfolding dispatch_opcode
  dispatch_opcode-Holds wc_send p st rs t h = ok-Leaves _ _ _ _ h
  dispatch_opcode-Holds wc_recv p st rs t h = or_fault-Leaves _ _ _ _ _ λ nc. echo-Holds nc rs t h
  dispatch_opcode-Holds (wc_other _) p st rs t h = ok-Leaves _ _ _ _ h

  handle_wcs-Holds :
      (st : Store) (wcs : List Wc) (rs : List Reply) (t : Trace)
      → Holds l ids t
      → Leaves Kept (handle_wcs st wcs (rs, t))
  unfolding handle_wcs handle_wc
  handle_wcs-Holds st [] rs t h = ok-Leaves _ _ _ _ h
  handle_wcs-Holds st (wc ∷ wcs) rs t h =
      bind-Leaves _ Kept _ _
        (die_if-Leaves _ _ _ _ _ _ (dispatch_opcode-Holds wc.opcode wc.wr_id st rs t h))
        λ _ s u g. handle_wcs-Holds st wcs s u g

  drain_cq-Holds :
      (fuel cq : ℕ) (st : Store) (rs : List Reply) (t : Trace)
      → Holds l ids t
      → Leaves Kept (drain_cq fuel cq st (rs, t))
  unfolding drain_cq
  drain_cq-Holds zero cq st rs t h = stop-Leaves _ _
  drain_cq-Holds (suc fuel) cq st rs t h = call-Leaves _ _ _ _ _ λ r s.
      elim (Bool-cases (is_negative r.code)) [
        | inl p ↦ rw p (ok-Leaves _ _ _ _ (ground arith))
        | inr p ↦ elim (Bool-cases (is_zero r.code)) [
          | inl q ↦ rw (p, q) (ok-Leaves _ _ _ _ (ground arith))
          | inr q ↦
              rw (p, q)
                (bind-Leaves _ Kept _ _ (handle_wcs-Holds st r.wcs s _ (ground arith))
                  λ _ s2 u2 g. drain_cq-Holds fuel cq st s2 u2 g)
        ]
      ]

  pub handle_cq_event-Holds :
      (fuel cc : ℕ) (st : Store) (rs : List Reply) (t : Trace)
      → Holds l ids t
      → Leaves Kept (handle_cq_event fuel cc st (rs, t))
  unfolding handle_cq_event
  handle_cq_event-Holds fuel cc st rs t h = call-Leaves _ _ _ _ _ λ e s1.
      elim (Bool-cases (is_zero e.code)) [
        | inr p ↦ rw p (ok-Leaves _ _ _ _ (ground arith))
        | inl p ↦ rw p (
            tell-Leaves _ _ _ _ _ (
              call-Leaves _ _ _ _ _ λ n s2. elim (Bool-cases (is_zero n.code)) [
                | inr q ↦ rw q (ok-Leaves _ _ _ _ (ground arith))
                | inl q ↦ rw q (
                    bind-Leaves _ Kept _ _ (drain_cq-Holds fuel e.ptr st s2 _ (ground arith))
                      λ _ s u g. ok-Leaves _ _ _ _ g)
              ]))
      ]

-- the ids alone
abbrev Ids : {A : Type 0} → List ℕ → A → Trace → Type 0
Ids ids _ u = open_ids u ≡ ids

setup_connection-Ids :
    (ids : List ℕ) (id : ℕ) (rs : List Reply) (t : Trace)
    → open_ids t ≡ ids
    → Leaves (Ids ids) (setup_connection id (rs, t))
unfolding setup_connection build_connection
setup_connection-Ids ids id rs t h = null-Leaves _ _ _ _ _ _ λ a s0. call-Leaves _ _ _ _ _ λ b s1.
    null-Leaves _ _ _ _ _ _ λ c s2. null-Leaves _ _ _ _ _ _ λ d s3. null-Leaves _ _ _ _ _ _ λ e s4.
      nzero-Leaves _ _ _ _ _ _ λ f s5. nzero-Leaves _ _ _ _ _ _ λ g s6.
        null-Leaves _ _ _ _ _ _ λ i s7. null-Leaves _ _ _ _ _ _ λ j s8.
          null-Leaves _ _ _ _ _ _ λ k s9. null-Leaves _ _ _ _ _ _ λ m s10.
            call-Leaves _ _ _ _ _ λ n s11.
              call-Leaves _ _ _ _ _ λ o s12. nzero-Leaves _ _ _ _ _ _ λ p s13. ok-Leaves _ _ _ _ h

pub on_connect_request-Ids :
    (ids : List ℕ) (fd id : ℕ) (st : Store) (rs : List Reply) (t : Trace)
    → open_ids t ≡ ids
    → Leaves (Ids ids) (on_connect_request fd id st (rs, t))
unfolding on_connect_request handle_new_request
on_connect_request-Ids ids fd id st rs t h = call-Leaves _ _ _ _ _ λ m s1.
    elim (Bool-cases (m.ptr == 0)) [
      | inl z ↦ rw z (ignore-Leaves _ _ _ _ _ λ _ s2. ok-Leaves _ _ _ _ h)
      | inr z ↦ rw z (
          bind-Leaves _ (Ids ids) _ _ (setup_connection-Ids ids id s1 _ h) λ nc s2 u2 g.
            call-Leaves _ _ _ _ _ λ a s3. call-Leaves _ _ _ _ _ λ b s4.
              die_if-Leaves _ _ _ _ _ _ (nzero-Leaves _ _ _ _ _ _ λ c s5. ok-Leaves _ _ _ _ g))
    ]

-- a release that the test of a pointer guards
module _ (ids : List ℕ) (p : ℕ) (c : ℕ → Call) (k : Unit {0} → Prog (Unit {0})) (rs : List Reply)
    (t : Trace) (same : (r : Reply) (u : Trace) → open_ids ((c p, r) ∷ u) ≡ open_ids u)
    (h : open_ids t ≡ ids)
    (next : (rest : List Reply) (u : Trace)
      → open_ids u ≡ ids
      → Leaves (Ids ids) (k tt (rest, u))) where
  ignore_if-Ids : Leaves (Ids ids) (and_then (ignore_if p c (rs, t)) k)
  ignore_if-Ids =
      ignore_if-Leaves _ rs t p c k (λ rest. next rest t h) λ r rest. next rest _ (same r t ∙ h)

  tell_if-Ids : Leaves (Ids ids) (and_then (tell_if p c (rs, t)) k)
  unfolding tell_if
  tell_if-Ids = elim (Bool-cases (p == 0)) [
    | inl z ↦ rw z (next rs t h)
    | inr z ↦ rw z (tell-Leaves _ rs t (c p) k (next rs _ (same no_reply t ∙ h)))
  ]

destroy_connection-Ids :
    (ids : List ℕ) (nc : Connection) (rs : List Reply) (t : Trace)
    → open_ids t ≡ ids
    → Leaves (Ids ids) (destroy_connection nc (rs, t))
unfolding destroy_connection Leaves tell
destroy_connection-Ids ids nc rs t h =
    ignore_if-Ids ids _ _ _ rs t (λ _ _. refl) h
      λ r1 u1 h1.
        ignore_if-Ids ids _ _ _ r1 u1 (λ _ _. refl) h1
          λ r2 u2 h2.
            ignore_if-Ids ids _ _ _ r2 u2 (λ _ _. refl) h2
              λ r3 u3 h3.
                ignore_if-Ids ids _ _ _ r3 u3 (λ _ _. refl) h3
                  λ r4 u4 h4.
                    tell_if-Ids ids _ _ _ r4 u4 (λ _ _. refl) h4
                      λ r5 u5 h5.
                        tell_if-Ids ids _ _ _ r5 u5 (λ _ _. refl) h5
                          λ r6 u6 h6.
                            ignore_if-Ids ids _ _ _ r6 u6 (λ _ _. refl) h6
                              λ r7 u7 h7.
                                ignore_if-Ids ids _ _ _ r7 u7 (λ _ _. refl) h7 λ r8 u8 h8. h8

pub on_disconnected-Ids :
    (ids : List ℕ) (id : ℕ) (st : Store) (s : Slot) (rs : List Reply) (t : Trace)
    → find id st ≡ some s
    → s.cctx.id ≡ id
    → open_ids t ≡ ids
    → Leaves (Ids (without id ids)) (on_disconnected id st (rs, t))
unfolding on_disconnected drop_connection
on_disconnected-Ids ids id st s rs t found own h =
    rw (found, on_disconnected)
      (ignore-Leaves _ _ _ _ _ λ _ s1. call-Leaves _ _ _ _ _ λ _ s2. or_fault-Leaves _ _ _ _ _ λ nc.
        call-Leaves _ _ _ _ _ λ _ s3. ignore-Leaves _ _ _ _ _ λ _ s4.
          bind-Leaves _ (Ids (without id ids)) _ _
            (destroy_connection-Ids (without id ids) nc s4 _ (ground arith))
            λ _ s5 u5 g. fault_if-Leaves _ _ _ _ _ λ _. tell-Leaves _ _ _ _ _ (ok-Leaves _ _ _ _ g))
