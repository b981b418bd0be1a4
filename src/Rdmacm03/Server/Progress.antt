-- ===== src/Rdmacm03/Server/Progress.antt =====
-- The server for one client on replies that bring ten messages and let every echo through.
use mathlib.Core.List.{append_assoc}
use rdma_tutorial.Prelude.{
  ℕ, zero, suc, ◌+◌, ◌*◌, ◌<◌, ◌≡◌, refl, ap, sym, ◌∙◌, true, false, some, List, [], ◌∷◌, ◌++◌,
  length, ltb, arith,
}
use rdma_tutorial.External.{Reply, Trace, WcOpcode, wc_send, wc_recv, is_zero, is_send, is_recv}
use rdma_tutorial.Machine.{call, die_if, zero_or_die, strcpy}
use rdma_tutorial.Machine.Reaches.{
  Reaches, Polled, ok-Reaches, bind-Reaches, map-Reaches, die_if-Reaches, poll-Reaches,
}
use rdma_tutorial.Machine.Observe.{sent}
use rdma_tutorial.Rdmacm05.Common.{Connection, buffer_size}
use rdma_tutorial.Rdmacm05.Server.{echo}
use rdma_tutorial.Rdmacm03.Server.Defs.{serve_opcode, serve_completion, serve_once, serve_loop}

-- The replies that bring the messages of a list, in their order: a message arrives and fits, its
-- buffer is posted again, its echo is taken and completes, and each request for notification
-- succeeds.
pub data Brought : List (List ℕ) → List Reply → List Reply → Type 0 where
  all_done : (rs : List Reply) → Brought [] rs rs
  one_more :
      (texts : List (List ℕ)) (text post send again notify : Reply) (r1 r2 r3 rest : List Reply)
      → Polled is_recv r1 (text ∷ post ∷ send ∷ again ∷ r2)
      → length text.bytes < buffer_size
      → is_zero post.code ≡ true
      → is_zero send.code ≡ true
      → is_zero again.code ≡ true
      → Polled is_send r2 (notify ∷ r3)
      → is_zero notify.code ≡ true
      → Brought texts r3 rest
      → Brought (text.bytes ∷ texts) r1 rest

is_recv-only : (op : WcOpcode) → is_recv op ≡ true → op ≡ wc_recv
is_recv-only op h = ground arith

is_send-only : (op : WcOpcode) → is_send op ≡ true → op ≡ wc_send
is_send-only op h = ground arith

-- the round in which a message arrives
receive_round :
    (nc : Connection) (i : ℕ) (text post send again : Reply) (r1 r2 : List Reply) (t : Trace)
    → Polled is_recv r1 (text ∷ post ∷ send ∷ again ∷ r2)
    → length text.bytes < buffer_size
    → is_zero post.code ≡ true
    → is_zero send.code ≡ true
    → is_zero again.code ≡ true
    → Reaches r2
        (λ next u. (next ≡ some i) × (sent u ≡ text.bytes ∷ sent t))
        (serve_once nc i (r1, t))
unfolding serve_once serve_completion serve_opcode echo Reaches call die_if zero_or_die strcpy
receive_round nc i text post send again r1 r2 t p fits a b c =
    poll-Reaches _ _ is_recv (λ u. sent u ≡ sent t) _ _ _ _ _ p (λ r u e h. h) refl
      λ r u n s o h. die_if-Reaches _ _ _ _ _ _ _ n (
        let small : ltb (length text.bytes) buffer_size ≡ true = ground arith in
        rw (s, is_recv-only r.wc.opcode o, small, a, b, c)
          (refl, (refl, rw b (ap (λ l. text.bytes ∷ l) h))))

-- the round in which an echo has been sent
send_round :
    (nc : Connection) (i : ℕ) (notify : Reply) (r1 r2 : List Reply) (t : Trace)
    (texts : List (List ℕ))
    → Polled is_send r1 (notify ∷ r2)
    → is_zero notify.code ≡ true
    → sent t ≡ texts
    → Reaches r2 (λ next u. (next ≡ some (i + 1)) × (sent u ≡ texts)) (serve_once nc i (r1, t))
unfolding serve_once serve_completion serve_opcode Reaches call die_if
send_round nc i notify r1 r2 t texts p a g =
    poll-Reaches _ _ is_send (λ u. sent u ≡ texts) _ _ _ _ _ p (λ r u e h. h) g
      λ r u n s o h.
        die_if-Reaches _ _ _ _ _ _ _ n (rw (s, is_send-only r.wc.opcode o, a) (refl, (refl, h)))

-- a list from its end
abbrev pub newest_first : List (List ℕ) → List (List ℕ)
newest_first [] = []
newest_first (x ∷ xs) = newest_first xs ++ x ∷ []

texts_after :
    (texts : List (List ℕ)) (x : List ℕ) (t u : Trace) (v : List (List ℕ))
    → v ≡ newest_first texts ++ sent u
    → sent u ≡ x ∷ sent t
    → v ≡ newest_first (x ∷ texts) ++ sent t
texts_after texts x t u v p h =
    p
    ∙ ap (λ l. newest_first texts ++ l) h
    ∙ sym (append_assoc (newest_first texts) (x ∷ []) (sent t))

-- The server makes progress: on replies that bring messages which make up ten with the `i` that it
-- has answered, with more than two rounds of fuel for each, the loop returns with the rest of the
-- replies left, and has sent the messages back, each once and in order.
pub serve_loop-Reaches :
    (fuel i : ℕ) (nc : Connection) (texts : List (List ℕ)) (rs rest : List Reply) (t : Trace)
    → Brought texts rs rest
    → i + length texts ≡ 10
    → 2 * length texts < fuel
    → Reaches rest
        (λ _ u. sent u ≡ newest_first texts ++ sent t)
        (serve_loop (serve_once nc) fuel i (rs, t))
unfolding serve_loop
serve_loop-Reaches zero i nc texts rs rest t b ten enough = absurd (omega arith)
serve_loop-Reaches (suc fuel) i nc _ _ _ t (all_done rs) ten enough =
    let e : ltb i 10 ≡ false = ground arith in rw (e, serve_loop) (ok-Reaches _ _ _ _ refl)
serve_loop-Reaches (suc zero) i nc _ _ _ t (one_more texts _ _ _ _ _ _ _ _ _ _ _ _ _ _ _ _ _) ten
      enough =
    absurd (omega arith)
serve_loop-Reaches (suc (suc fuel)) i nc _ _ _ t
      (one_more texts text post send again notify r1 r2 r3 rest p fits a b c q d g) ten enough =
    let e : ltb i 10 ≡ true = ground arith in
    rw (e, serve_loop)
      (bind-Reaches _ _ _ _ _ _ (receive_round nc i text post send again r1 r2 t p fits a b c)
        λ next u h.
          rw (h.0, e, serve_loop)
            (bind-Reaches _ _ _ _ _ _ (send_round nc i notify r2 r3 u _ q d h.1) λ next' v k.
              rw k.0 (
                map-Reaches _ _ _ _ (λ _ w m. texts_after texts text.bytes t v (sent w) m k.1)
                  (serve_loop-Reaches fuel (i + 1) nc texts r3 rest v g (omega (arith, ten))
                    (omega (arith, enough))))))
