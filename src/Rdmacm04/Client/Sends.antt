-- ===== src/Rdmacm04/Client/Sends.antt =====
-- What the loop of the client sends.
use rdma_tutorial.Prelude.{ℕ, zero, suc, ◌+◌, refl, List, Bool-cases, inl, inr, arith}
use rdma_tutorial.External.{Reply, no_reply, Trace}
use rdma_tutorial.Machine.Ends.{Ends, ok-Ends, bind-Ends, map-Ends}
use rdma_tutorial.Rdmacm05.Common.{Connection}
use rdma_tutorial.Rdmacm05.Client.Rounds.{Never, HasSent, one_more, exchange_message-Half}
use mathlib.Core.List.{append-nil}
use rdma_tutorial.Prelude.{◌≤◌, ◌≡◌, ap, ◌∙◌, ◌++◌, [], length}
use rdma_tutorial.Machine.Ends.{die_if-Ends, ignore-Ends, tell-Ends}
use rdma_tutorial.Machine.Observe.{sent}
use rdma_tutorial.Rdmacm.{close_client}
use rdma_tutorial.Rdmacm.Opened.{connect_server-IsOpen}
use rdma_tutorial.Rdmacm05.Common.{Variant, Leftover, build_connection}
use rdma_tutorial.Rdmacm05.Client.Rounds.{messages}
use rdma_tutorial.Rdmacm04.Server.{setup_connection, variant}
use rdma_tutorial.Rdmacm04.Client.{send_messages, message_count, talk, main}

-- The loop of the client from message `i` on with `left` rounds to go: when it returns it has sent
-- the messages from `i` on, each once and in order, at most `left`; either it ran to its end, with
-- one receive completed and one posted for each message, or its last round broke off on a
-- completion with an error or on a refused request for notification.
pub send_messages-HasSent :
    (left i : ℕ) (nc : Connection) (rs : List Reply) (t : Trace)
    → Ends (λ _ u. HasSent i left t u) Never (send_messages left i nc (rs, t))
unfolding send_messages
send_messages-HasSent zero i nc rs t = ok-Ends _ _ _ _ _ (record {
  n = 0;
  within = omega arith;
  texts = refl;
  ending = inl (refl, omega arith, omega arith);
})
send_messages-HasSent (suc left) i nc rs t =
    bind-Ends _ _ _ _ _ (exchange_message-Half nc i rs t) λ go s1 u1 a. elim (Bool-cases go) [
      | inl y ↦ rw y (
          map-Ends _ _ _ _
            (λ _ u h.
              one_more i left no_reply a y
                (record { n = h.n; within = h.within; texts = h.texts; ending = h.ending }))
            (send_messages-HasSent left (i + 1) nc s1 u1))
      | inr y ↦ rw y (
          ok-Ends _ _ _ _ _
            (record { n = 1; within = omega arith; texts = a.said; ending = inr (a.breaks y) }))
    ]

-- The arguments and the end of a client that sends at most `count` messages.
pub record HasTalked (args : ℕ) (argv : List (List ℕ)) (count ret : ℕ) (u : Trace) : Type 0 where
  pub returned : ret ≡ 0
  pub given : length argv ≡ args
  pub n : ℕ
  pub within : n ≤ count
  pub texts : sent u ≡ messages 0 n

pub talk-HasTalked :
    (v : Variant) (argv : List (List ℕ)) (rs : List Reply)
    → length argv ≡ 2
    → Ends (HasTalked 2 argv message_count) Never (talk (build_connection v) (rs, []))
unfolding talk close_client
talk-HasTalked v argv rs two =
    bind-Ends _ _ _ _ _ (connect_server-IsOpen v rs [] [] refl) λ c s1 u1 open_.
      bind-Ends _ _ _ _ _ (send_messages-HasSent message_count 0 c.nc s1 u1) λ _ s2 u2 done.
        ignore-Ends _ _ _ _ _ _ λ d s3. ignore-Ends _ _ _ _ _ _ λ e s4. tell-Ends _ _ _ _ _ _ (
          ok-Ends _ _ _ _ _ (record {
            returned = refl;
            given = two;
            n = done.n;
            within = done.within;
            texts =
                done.texts
                ∙ ap (λ l. messages 0 done.n ++ l) open_.said.0
                ∙ append-nil (messages 0 done.n);
          }))

-- The client of src/rdmacm04, whatever its arguments and the replies: when it returns, it had two
-- arguments, it returns 0, and it has sent the messages 0 to `n - 1` in order, `n` at most ten.
pub main04-HasTalked :
    (m : Leftover) (argv : List (List ℕ)) (rs : List Reply)
    → Ends (HasTalked 2 argv message_count) Never (main m argv (rs, []))
unfolding main setup_connection
main04-HasTalked m argv rs =
    die_if-Ends _ _ _ _ _ _ _ (λ _. tt) λ two. talk-HasTalked (variant m) argv rs (ground arith)
