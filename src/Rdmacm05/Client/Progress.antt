-- ===== src/Rdmacm05/Client/Progress.antt =====
-- The loop of the client on replies that let every round through.
use mathlib.Core.List.{append_assoc}
use rdma_tutorial.Prelude.{ℕ, suc, ◌+◌, ◌≡◌, refl, ap, sym, ◌∙◌, true, List, [], ◌∷◌, ◌++◌, arith}
use rdma_tutorial.External.{Reply, Trace, Call, is_zero, is_send, is_recv}
use rdma_tutorial.Machine.Reaches.{
  Reaches, Polled, ok-Reaches, bind-Reaches, map-Reaches, nzero-Reaches, die_if-Reaches,
  poll-Reaches,
}
use rdma_tutorial.Machine.{call, ignore, die_if, zero_or_die}
use rdma_tutorial.Machine.Observe.{sent}
use rdma_tutorial.Rdmacm05.Common.{Connection}
use rdma_tutorial.Rdmacm05.Client.Defs.{
  message, send_message, receive_echo, exchange_message, exchange_messages,
}
use rdma_tutorial.Rdmacm05.Client.Rounds.{messages}

-- The replies to `n` rounds: the send is taken and completes, the echo arrives, its buffer is
-- posted again, and each request for notification succeeds.
pub data Granted : ℕ → List Reply → List Reply → Type 0 where
  finished : (rs : List Reply) → Granted 0 rs rs
  round :
      (n : ℕ) (send notify post again sleep : Reply) (r1 r2 r3 rest : List Reply)
      → is_zero send.code ≡ true
      → Polled is_send r1 (notify ∷ r2)
      → is_zero notify.code ≡ true
      → Polled is_recv r2 (post ∷ again ∷ sleep ∷ r3)
      → is_zero post.code ≡ true
      → is_zero again.code ≡ true
      → Granted n r3 rest
      → Granted (suc n) (send ∷ r1) rest

send_message-Reaches :
    (nc : Connection) (i : ℕ) (send notify : Reply) (r1 r2 : List Reply) (t : Trace)
    → is_zero send.code ≡ true
    → Polled is_send r1 (notify ∷ r2)
    → is_zero notify.code ≡ true
    → Reaches r2
        (λ go u. (go ≡ true) × (sent u ≡ message i ∷ sent t))
        (send_message nc i (send ∷ r1, t))
unfolding send_message Reaches call die_if
send_message-Reaches nc i send notify r1 r2 t z p y = nzero-Reaches _ _ _ _ _ _ _ _ z (
    poll-Reaches _ _ is_send (λ u. sent u ≡ message i ∷ sent t) _ _ _ _ _ p (λ r u e c. c)
      (ground arith) λ r u n s o c. die_if-Reaches _ _ _ _ _ _ _ n (rw (s, o) (refl, (y, c))))

receive_echo-Reaches :
    (nc : Connection) (post again : Reply) (r1 r2 : List Reply) (t : Trace) (texts : List (List ℕ))
    → Polled is_recv r1 (post ∷ again ∷ r2)
    → is_zero post.code ≡ true
    → is_zero again.code ≡ true
    → sent t ≡ texts
    → Reaches r2 (λ go u. (go ≡ true) × (sent u ≡ texts)) (receive_echo nc (r1, t))
unfolding receive_echo Reaches call die_if zero_or_die
receive_echo-Reaches nc post again r1 r2 t texts p z y h =
    poll-Reaches _ _ is_recv (λ u. sent u ≡ texts) _ _ _ _ _ p (λ r u e c. c) h
      λ r u n s o c. die_if-Reaches _ _ _ _ _ _ _ n (rw (s, o, z) (refl, (y, c)))

-- one round
exchange_message-Reaches :
    (nc : Connection) (i : ℕ) (send notify post again : Reply) (r1 r2 r3 : List Reply) (t : Trace)
    → is_zero send.code ≡ true
    → Polled is_send r1 (notify ∷ r2)
    → is_zero notify.code ≡ true
    → Polled is_recv r2 (post ∷ again ∷ r3)
    → is_zero post.code ≡ true
    → is_zero again.code ≡ true
    → Reaches r3
        (λ go u. (go ≡ true) × (sent u ≡ message i ∷ sent t))
        (exchange_message nc i (send ∷ r1, t))
unfolding exchange_message
exchange_message-Reaches nc i send notify post again r1 r2 r3 t a p b q c d =
    bind-Reaches _ _ _ _ _ _ (send_message-Reaches nc i send notify r1 r2 t a p b)
      λ go u h. rw h.0 (receive_echo-Reaches nc post again r2 r3 u _ q c d h.1)

texts_after :
    (i n : ℕ) (u t : Trace) (v : List (List ℕ))
    → v ≡ messages (i + 1) n ++ sent u
    → sent u ≡ message i ∷ sent t
    → v ≡ messages i (suc n) ++ sent t
texts_after i n u t v p h =
    p
    ∙ ap (λ l. messages (i + 1) n ++ l) h
    ∙ sym (append_assoc (messages (i + 1) n) (message i ∷ []) (sent t))

-- The client makes progress: on replies that let `left` rounds through, the loop from message `i`
-- returns with the rest of the replies left, and it has sent the messages `i` to `i + left - 1`,
-- each once and in order.
pub exchange_messages-Reaches :
    (left i : ℕ) (nc : Connection) (rs rest : List Reply) (t : Trace)
    → Granted left rs rest
    → Reaches rest (λ _ u. sent u ≡ messages i left ++ sent t) (exchange_messages left i nc (rs, t))
unfolding exchange_messages ignore
exchange_messages-Reaches _ i nc _ _ t (finished rs) = ok-Reaches _ _ _ _ refl
exchange_messages-Reaches _ i nc _ _ t
      (round n send notify post again sleep r1 r2 r3 rest a p b q c d g) =
    bind-Reaches _ _ _ _ _ _
      (exchange_message-Reaches nc i send notify post again r1 r2 (sleep ∷ r3) t a p b q c d)
      λ go u h. rw h.0 (
        map-Reaches _ _ _ _ (λ _ v e. texts_after i n u t (sent v) e h.1)
          (exchange_messages-Reaches n (i + 1) nc r3 rest ((Call.sleep 1, sleep) ∷ u) g))
