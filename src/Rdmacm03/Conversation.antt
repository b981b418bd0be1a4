-- ===== src/Rdmacm03/Conversation.antt =====
-- A whole run of src/rdmacm03/server.c, and of both programs together.
use mathlib.Core.List.{append-nil}
use rdma_tutorial.Prelude.{
  ℕ, suc, ◌<◌, ◌≤◌, ◌≡◌, refl, sym, ap, ◌∙◌, List, [], ◌++◌, length, All, arith,
}
use rdma_tutorial.External.{Reply, Trace}
use rdma_tutorial.Machine.{ok}
use rdma_tutorial.Machine.Ends.{Ends, Ends-ok, die_if-Ends, ignore-Ends, tell-Ends, ok-Ends}
use rdma_tutorial.Machine.Finishes.{
  Finishes, Finishes-ok, Ends-Finishes, bind-Finishes, map-Finishes,
}
use rdma_tutorial.Machine.Observe.{posted, sent, heard, completed}
use rdma_tutorial.Rdmacm.{Accepted, close_server, close_listener}
use rdma_tutorial.Rdmacm.Opened.{
  Never, IsQuiet, IsOpen, listen_for_clients-IsQuiet, accept_client-IsOpen,
}
use rdma_tutorial.Rdmacm.Halting.{listen_for_clients-Halts, accept_client-Halts, close_server-Halts}
use rdma_tutorial.Rdmacm.Echoes.{Served}
use rdma_tutorial.Rdmacm05.Common.{Leftover, Variant, Connection}
use rdma_tutorial.Rdmacm05.Client.Rounds.{messages}
use rdma_tutorial.Rdmacm04.Client.{message_count}
use rdma_tutorial.Rdmacm04.Client.Sends.{HasTalked, talk-HasTalked}
use rdma_tutorial.Rdmacm03.Common.{variant, setup_connection}
use rdma_tutorial.Rdmacm03.Client
use rdma_tutorial.Rdmacm03.Server.{serve_once, main}
use rdma_tutorial.Rdmacm03.Server.Serving.{Fits, serve_loop-Served, serve_once-Served}

-- What a server for one client has done when it returns: every string that it heard it has sent
-- back, in the same order, with one receive posted for each beside the first, and every receive
-- that completed, but one at most, was such a string.
pub record HasServed (ret : ℕ) (u : Trace) : Type 0 where
  pub returned : ret ≡ 0
  pub replied : sent u ≡ heard u
  pub reposted : posted u ≡ suc (length (heard u))
  pub caused : length (heard u) ≤ completed u
  pub answered : completed u ≤ suc (length (heard u))

-- The end of the programs changes nothing of that.
close_server-HasServed :
    (a : Accepted) (rs : List Reply) (u : Trace)
    → HasServed 0 u
    → Ends HasServed Never (close_server a (rs, u))
unfolding close_server close_listener
close_server-HasServed a rs u h = ignore-Ends _ _ _ _ _ _ λ d s1. ignore-Ends _ _ _ _ _ _ λ e s2.
    ignore-Ends _ _ _ _ _ _ λ f s3. tell-Ends _ _ _ _ _ _ (
      ok-Ends _ _ _ _ _ (record {
        returned = refl;
        replied = h.replied;
        reposted = h.reposted;
        caused = h.caused;
        answered = h.answered;
      }))

whole_run :
    (v : Variant) (nc : Connection) (t u w : Trace)
    → IsQuiet [] t
    → IsOpen v [] t nc u
    → Served 1 u w
    → HasServed 0 w
whole_run v nc t u w q o s =
    let told : heard w ≡ s.texts =
      s.echoed.told ∙ ap (λ l. s.texts ++ l) (o.said.1 ∙ q.said.1) ∙ append-nil s.texts in
    let replied : sent w ≡ s.texts =
      s.echoed.replied ∙ ap (λ l. s.texts ++ l) (o.said.0 ∙ q.said.0) ∙ append-nil s.texts in
    let count : length (heard w) ≡ length s.texts = ap length told in
    record {
      returned = refl;
      replied = replied ∙ sym told;
      reposted = omega (arith, count, s.echoed.reposted, o.counted.0, q.counted.0);
      caused = omega (arith, count, s.caused, o.counted.1, q.counted.1);
      answered = omega (arith, count, s.answered, o.counted.1, q.counted.1);
    }

-- The server for one client, if every string that is received fits the send buffer and the fuel is
-- more than the replies: when it returns, it returns 0, and it has sent back every string that it
-- heard, in the same order, with one receive posted for each beside the first; every string was a
-- receive that completed, and at most one receive that completed was not answered. It may also die
-- or wait.
pub main03-HasServed :
    (fuel : ℕ) (m : Leftover) (rs : List Reply)
    → All Fits rs
    → length rs < fuel
    → Finishes (λ ret _ u. HasServed ret u) (main fuel m (rs, []))
unfolding main setup_connection
main03-HasServed fuel m rs good enough =
    bind-Finishes _ _ _ _
      (Ends-Finishes _ _ Fits rs _ (listen_for_clients-IsQuiet rs [] [] refl)
        (listen_for_clients-Halts rs []) good)
      λ l s1 u1 (q, g1, l1).
        bind-Finishes _ _ _ _
          (Ends-Finishes _ _ Fits s1 _ (accept_client-IsOpen (variant m) l s1 u1 [] q.live)
            (accept_client-Halts _ l s1 u1) g1)
          λ a s2 u2 (o, g2, l2).
            bind-Finishes _ _ _ _
              (serve_loop-Served (serve_once a.nc) fuel 0 s2 u2 (serve_once-Served a.nc) g2
                (omega arith))
              λ _ s3 u3 (g3, w).
                map-Finishes _ _ _ (λ _ _ _ h. h.0)
                  (Ends-Finishes _ _ Fits s3 _
                    (close_server-HasServed a s3 u3 (whole_run _ a.nc u1 u2 u3 q o w))
                    (close_server-Halts a s3 u3) g3)

pub client03-HasTalked :
    (m : Leftover) (argv : List (List ℕ)) (rs : List Reply)
    → Ends (HasTalked 2 argv message_count) Never (Client.main m argv (rs, []))
unfolding Client.main setup_connection
client03-HasTalked m argv rs =
    die_if-Ends _ _ _ _ _ _ _ (λ _. tt) λ two. talk-HasTalked (variant m) argv rs (ground arith)

-- The client and the server of src/rdmacm03 together, when both return, every string that the
-- server receives fits its buffer, and what it heard is what the client sent: both return 0, and
-- what the server has sent back are the messages 0 to `n - 1` in order, `n` at most ten.
pub conversation :
    (m m' : Leftover) (fuel c s : ℕ) (argv : List (List ℕ)) (crs srs crs' srs' : List Reply)
    (cu su : Trace)
    → All Fits srs
    → length srs < fuel
    → Client.main m argv (crs, []) ≡ (ok c, (crs', cu))
    → main fuel m' (srs, []) ≡ (ok s, (srs', su))
    → heard su ≡ sent cu
    → (c ≡ 0) × (s ≡ 0) × ((n : ℕ) × (n ≤ message_count) × (sent su ≡ messages 0 n))
conversation m m' fuel c s argv crs srs crs' srs' cu su good enough hc hs wire =
    let talked : HasTalked 2 argv message_count c cu =
      Ends-ok _ _ _ _ _ _ (client03-HasTalked m argv crs) hc in
    let served : HasServed s su = Finishes-ok _ _ (main03-HasServed fuel m' srs good enough) hs in
    (
      talked.returned,
      served.returned,
      (talked.n, talked.within, served.replied ∙ wire ∙ talked.texts),
    )
