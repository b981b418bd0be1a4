-- ===== src/Rdmacm05/Server/Echo.antt =====
-- The completion side of src/rdmacm05/server.c: the receives that complete, the requests posted,
-- and the texts sent.
use rdma_tutorial.Prelude.{
  ◌++◌, ℕ, zero, suc, ◌<◌, ◌≤◌, ◌≡◌, refl, ◌||◌, true, some, List, [], ◌∷◌, length, ltb, All, arith,
  if◌then◌else◌,
}
use rdma_tutorial.External.{
  ℤ, pos, negsuc, Reply, Trace, Wc, Call, WcOpcode, is_recv, is_zero, is_negative,
}
use rdma_tutorial.Machine.{ok, fault, call, strcpy, zero_or_die}
use rdma_tutorial.Machine.Observe.{posted, sent, posted_on, sent_on, heard_in, recv_ids}
use rdma_tutorial.Machine.Finishes.{
  Finishes, ok-Finishes, call-Finishes, nzero-Finishes, strcpy-Finishes,
}
use rdma_tutorial.Rdmacm.Echoes.{Answered}
use rdma_tutorial.Rdmacm05.Common.{Connection, buffer_size}
use rdma_tutorial.Rdmacm05.Server.Defs.{Store, deref, echo}

-- A receive completion carries the address of a connection of the store.
abbrev pub IsKnown : Store → Wc → Type 0
IsKnown st wc = is_recv wc.opcode ≡ true → (nc : Connection) × (deref wc.wr_id st ≡ some nc)

-- What the server relies on in a reply: the string that a client has sent fits the buffer, and the
-- completions are of connections of the store.
abbrev pub IsServable : Store → Reply → Type 0
IsServable st r = (length r.bytes < buffer_size) × All (IsKnown st) r.wcs

abbrev Rest : Store → List Reply → List Reply → Type 0
Rest st rs rest = All (IsServable st) rest × (length rest ≤ length rs)

-- The echo of a string that fits, whatever else is assumed of the replies.
pub echo-Answered :
    (R : Reply → Type 0) (nc : Connection) (rs : List Reply) (t : Trace)
    → ((r : Reply) → R r → length r.bytes < buffer_size)
    → All R rs
    → Finishes
        (λ _ rest u. All R rest × (length rest ≤ length rs) × Answered 1 t u)
        (echo nc (rs, t))
unfolding echo
echo-Answered R nc rs t fits good = call-Finishes _ R _ _ good _ _ λ m s1 ok1 good1 l1.
    strcpy-Finishes _ _ _ _ _ _ (fits m ok1) (
      nzero-Finishes _ R _ _ good1 _ _ _ λ p s2 z2 good2 l2.
        nzero-Finishes _ R _ _ good2 _ _ _ λ q s3 z3 good3 l3. ok-Finishes _ _ _ _ (
          good3,
          omega arith,
          record {
            texts = m.bytes ∷ [];
            count = refl;
            echoed = record { replied = ground arith; told = refl; reposted = ground arith };
            polled = refl;
          },
        ))

-- a message that was echoed, and the connection that it came on
abbrev pub Message : Type 0
Message = Connection × List ℕ

abbrev pub each : {A : Type 0} → (Message → A) → List Message → List A
each f [] = []
each f (x ∷ xs) = f x ∷ each f xs

-- Since `t` each message was read in the buffer of its connection, a receive was posted again
-- there, and the message was sent back on the queue pair of the same connection.
pub record Echoes (es : List Message) (t u : Trace) : Type 0 where
  pub reads : heard_in u ≡ each (λ e. (e.0.recv_buff, e.1)) es ++ heard_in t
  pub sends : sent_on u ≡ each (λ e. (e.0.qp, e.1)) es ++ sent_on t
  pub posts : posted_on u ≡ each (λ e. e.0.qp) es ++ posted_on t

-- The messages of some completions: each on the connection that its completion names, `recv_ids`
-- aside.
pub record Answers (ids : List ℕ) (t u : Trace) : Type 0 where
  pub messages : List Message
  pub echoes : Echoes messages t u
  pub named : each (λ e. e.0.self) messages ≡ ids
  pub polled : recv_ids u ≡ recv_ids t

-- the ids of one completion
abbrev own_ids : WcOpcode → ℕ → List ℕ
own_ids op wr_id = if is_recv op then wr_id ∷ [] else []

-- Since `t` every receive that completed was answered on its own connection; the last poll found
-- the queue empty, or failed.
pub record IsDrained (cq : ℕ) (t u : Trace) : Type 0 where
  pub messages : List Message
  pub echoes : Echoes messages t u
  pub taken : recv_ids u ≡ each (λ e. e.0.self) messages ++ recv_ids t
  pub last : Reply
  pub earlier : Trace
  pub ended : u ≡ (Call.poll_cq cq 16, last) ∷ earlier
  pub empty : (is_negative last.code || is_zero last.code) ≡ true

-- What handle_cq_event has done when it returns `ret`.
abbrev pub Handled : ℤ → Trace → Trace → Type 0
Handled (pos zero) t u = (cq : ℕ) × IsDrained cq t u
Handled (pos (suc _)) t u = ⊥
Handled (negsuc _) t u = (posted u ≡ posted t) × (sent u ≡ sent t)

-- The echo of a received string, if the libraries accept the receive and the send: a string that
-- fits the send buffer with its NUL is sent back as it is, after the receive has been posted again;
-- any other string overruns the buffer, and nothing is posted.
pub echo_lem :
    (nc : Connection) (m p s : Reply) (rs : List Reply) (t : Trace)
    → is_zero p.code ≡ true
    → is_zero s.code ≡ true
    → echo nc (m ∷ p ∷ s ∷ rs, t) ≡ (
        if ltb (length m.bytes) buffer_size
        then (
          ok tt,
          (
            rs,
            (Call.post_send nc.qp nc.send_wr m.bytes, s)
                ∷ (Call.post_recv nc.qp nc.recv_wr, p)
                ∷ (Call.load_string nc.recv_buff, m)
                ∷ t,
          ),
        )
        else (fault, (p ∷ s ∷ rs, (Call.load_string nc.recv_buff, m) ∷ t)))
unfolding echo call strcpy zero_or_die
echo_lem nc m p s rs t hp hs = ground arith
