-- ===== src/Rdmacm04/Server/Thread.antt =====
-- A whole thread of src/rdmacm04/server.c, from setup_connection to the releases.
use rdma_tutorial.Prelude.{
  ℕ, suc, ◌+◌, ◌<◌, ◌≤◌, ◌≡◌, some, refl, ap, ◌∙◌, List, ◌∷◌, ◌++◌, ◌==◌, length, All, Bool-cases,
  inl, inr, arith,
}
use rdma_tutorial.External.{Reply, no_reply, Trace, Call}
use rdma_tutorial.Machine.{Prog, and_then, ignore_if, tell_if}
use rdma_tutorial.Machine.Ends.{
  Ends, ignore-Ends, tell-Ends, bind-Ends, tell-last, tell-Ends, weaken-Ends,
}
use rdma_tutorial.Machine.Finishes.{
  Finishes, Ends-Finishes, bind-Finishes, map-Finishes, nzero-Finishes, ignore-Finishes,
}
use rdma_tutorial.Machine.Halts.{halting}
use rdma_tutorial.Machine.Observe.{posted, sent, heard, completed}
use rdma_tutorial.Resources.{Entry, settle}
use rdma_tutorial.Rdmacm.Opened.{Never}
use rdma_tutorial.Rdmacm.Echoes.{Served}
use rdma_tutorial.Rdmacm.Halting.{build_connection-Halts}
use rdma_tutorial.Rdmacm05.Common.{Connection, Leftover}
use rdma_tutorial.Rdmacm05.Common.Setup.{IsReady, build_connection-IsReady}
use rdma_tutorial.Rdmacm03.Server.Serving.{Fits}
use rdma_tutorial.Rdmacm04.Server.Defs.{variant, setup_connection, close_connection, handle_request}
use rdma_tutorial.Rdmacm04.Server.Serving.{serve-Served}
use rdma_tutorial.Rdmacm04.Server.Halting.{close_connection-Halts}

-- What was sent, read, posted and completed is as it was.
abbrev Spoken : Trace → Trace → Type 0
Spoken t u =
    (sent u ≡ sent t) × (heard u ≡ heard t) × (posted u ≡ posted t) × (completed u ≡ completed t)

-- a release that the test of a pointer guards
module _ (t₀ : Trace) (p : ℕ) (c : ℕ → Call) (k : Unit {0} → Prog (Unit {0})) (rs : List Reply)
    (t : Trace) (keep : (r : Reply) (u : Trace) → Spoken t₀ u → Spoken t₀ ((c p, r) ∷ u))
    (h : Spoken t₀ t)
    (next : (rest : List Reply) (u : Trace)
      → Spoken t₀ u
      → Ends (λ _ v. Spoken t₀ v) Never (k tt (rest, u))) where
  ignore_if-Spoken : Ends (λ _ v. Spoken t₀ v) Never (and_then (ignore_if p c (rs, t)) k)
  unfolding ignore_if
  ignore_if-Spoken = elim (Bool-cases (p == 0)) [
    | inl z ↦ rw z (next rs t h)
    | inr z ↦ rw z (ignore-Ends _ _ rs t (c p) k λ r rest. next rest _ (keep r t h))
  ]

  tell_if-Spoken : Ends (λ _ v. Spoken t₀ v) Never (and_then (tell_if p c (rs, t)) k)
  unfolding tell_if
  tell_if-Spoken = elim (Bool-cases (p == 0)) [
    | inl z ↦ rw z (next rs t h)
    | inr z ↦ rw z (tell-Ends _ _ rs t (c p) k (next rs _ (keep no_reply t h)))
  ]

close_connection-Spoken :
    (t₀ : Trace) (nc : Connection) (rs : List Reply) (t : Trace)
    → Spoken t₀ t
    → Ends (λ _ v. Spoken t₀ v) Never (close_connection nc (rs, t))
unfolding close_connection
close_connection-Spoken t₀ nc rs t h =
    ignore_if-Spoken t₀ _ _ _ rs t (λ _ _ g. g) h
      λ r1 u1 h1.
        ignore_if-Spoken t₀ _ _ _ r1 u1 (λ _ _ g. g) h1
          λ r2 u2 h2.
            ignore_if-Spoken t₀ _ _ _ r2 u2 (λ _ _ g. g) h2
              λ r3 u3 h3.
                ignore_if-Spoken t₀ _ _ _ r3 u3 (λ _ _ g. g) h3
                  λ r4 u4 h4.
                    ignore_if-Spoken t₀ _ _ _ r4 u4 (λ _ _ g. g) h4
                      λ r5 u5 h5.
                        tell_if-Spoken t₀ _ _ _ r5 u5 (λ _ _ g. g) h5
                          λ r6 u6 h6.
                            tell_if-Spoken t₀ _ _ _ r6 u6 (λ _ _ g. g) h6
                              λ r7 u7 h7.
                                ignore_if-Spoken t₀ _ _ _ r7 u7 (λ _ _ g. g) h7
                                  λ r8 u8 h8. tell-last _ _ _ _ _ h8

-- What a thread has done when it returns.
pub record HasServed (t u : Trace) : Type 0 where
  pub texts : List (List ℕ)
  pub replied : sent u ≡ texts ++ sent t
  pub told : heard u ≡ texts ++ heard t
  pub reposted : posted u ≡ posted t + suc (length texts)
  pub caused : completed t + length texts ≤ completed u
  pub answered : completed u ≤ suc (completed t + length texts)

whole_thread :
    (m : Leftover) (l : List Entry) (nc : Connection) (t t1 u1 u v : Trace)
    → IsReady (variant m) l t nc t1
    → Spoken t1 u1
    → Served 1 u1 u
    → Spoken u v
    → HasServed t v
whole_thread m l nc t t1 u1 u v ready before s after = record {
  texts = s.texts;
  replied = after.0 ∙ s.echoed.replied ∙ ap (λ x. s.texts ++ x) (before.0 ∙ ready.said.0);
  told = after.1 ∙ s.echoed.told ∙ ap (λ x. s.texts ++ x) (before.1 ∙ ready.said.1);
  reposted = omega (arith, after.2, s.echoed.reposted, before.2, ready.counted.0);
  caused = omega (arith, after.3, s.caused, before.3, ready.counted.1);
  answered = omega (arith, after.3, s.answered, before.3, ready.counted.1);
}

-- A thread of the server of rdmacm04 from its start to its last call, if every string that is
-- received fits the send buffer, there is more fuel than replies, and the lifetime contract was
-- kept before it: it returns, dies or waits, and neither faults nor runs out of fuel. When it
-- returns, it has sent back every string that it read, once and in order, posted one receive for
-- each and one at the start, and answered every receive that completed but one at most.
pub handle_request-HasServed :
    (fuel : ℕ) (m : Leftover) (id index : ℕ) (rs : List Reply) (t : Trace) (l : List Entry)
    → All Fits rs
    → length rs < fuel
    → settle t ≡ some l
    → Finishes (λ _ _ u. HasServed t u) (handle_request fuel m id index (rs, t))
unfolding handle_request setup_connection
handle_request-HasServed fuel m id index rs t l good enough kept =
    bind-Finishes _ _ _ _
      (Ends-Finishes _ Never Fits rs _
        (weaken-Ends _ _ _ _ (λ _ _ _. tt) (build_connection-IsReady (variant m) id rs t l kept))
        (build_connection-Halts _ id rs t) good)
      λ nc s1 u1 (ready, g1, l1). nzero-Finishes _ Fits s1 u1 g1 _ _ _ λ a s2 z2 g2 l2.
        ignore-Finishes _ Fits s2 _ g2 _ _ λ w s3 g3 l3.
          bind-Finishes _ _ _ _ (serve-Served fuel nc 0 s3 _ g3 (omega arith))
            λ _ s4 u4 (g4, served).
              map-Finishes _ _ _
                (λ _ _ v h.
                  whole_thread m l nc t u1 _ u4 v ready (refl, refl, refl, refl) served h.0)
                (Ends-Finishes (λ _ v. Spoken u4 v) Never Fits s4 _
                  (ignore-Ends _ _ _ _ _ _ λ r5 s5. ignore-Ends _ _ _ _ _ _ λ r6 s6.
                    bind-Ends _ _ _ _ _
                      (close_connection-Spoken u4 nc s6 _ (refl, refl, refl, refl))
                      λ _ s7 u7 h. tell-Ends _ _ _ _ _ _ (tell-last _ _ _ _ _ h))
                  (search (halting, close_connection-Halts) depth 20) g4)
