-- ===== src/Rdmacm05/Client/Rounds.antt =====
-- What the loop of the client sends, and the receives that it keeps posted.
use mathlib.Core.List.{append_assoc}
use rdma_tutorial.Prelude.{
  ℕ, zero, suc, ◌+◌, ◌≤◌, ◌≡◌, refl, ap, sym, ◌∙◌, ◌⊎◌, true, false, Bool, List, [], ◌∷◌, ◌++◌,
  Bool-cases, inl, inr, arith,
}
use rdma_tutorial.External.{Reply, Trace, Call, is_zero, is_success}
use rdma_tutorial.Machine.{Reason}
use rdma_tutorial.Machine.Ends.{
  Ends, ok-Ends, call-Ends, nzero-Ends, poll-Ends, die_if-Ends, bind-Ends, map-Ends, ignore-Ends,
}
use rdma_tutorial.Machine.Observe.{posted, sent, completed}
use rdma_tutorial.Rdmacm05.Common.{Connection}
use rdma_tutorial.Rdmacm05.Client.Defs.{
  message, send_message, receive_echo, exchange_message, exchange_messages,
}

abbrev pub Never : Reason → Trace → Type 0
Never _ _ = Unit

-- The messages `i` to `i + n - 1`, the newest first.
abbrev pub messages : ℕ → ℕ → List (List ℕ)
messages i zero = []
messages i (suc n) = messages (i + 1) n ++ message i ∷ []

-- The three counts of a trace.
abbrev pub Counts : Trace → List (List ℕ) → ℕ → ℕ → Type 0
Counts u texts posts completions =
    (sent u ≡ texts) × (posted u ≡ posts) × (completed u ≡ completions)

-- A trace that ends in a completion with an error, or in a failed request for notification.
abbrev pub Broken : Trace → Type 0
Broken ((Call.poll_cq _ _, r) ∷ _) = is_success r.wc.status ≡ false
Broken ((Call.req_notify_cq _, r) ∷ _) = is_zero r.code ≡ false
Broken _ = ⊥

-- half a round: the counts that it leaves if the loop goes on, and why it does not
pub record Half (t : Trace) (texts : List (List ℕ)) (posts completions : ℕ) (go : Bool) (u : Trace)
    : Type 0 where
  pub said : sent u ≡ texts
  pub goes_on : go ≡ true → Counts u texts posts completions
  pub breaks : go ≡ false → Broken u

send_message-Half :
    (nc : Connection) (i : ℕ) (rs : List Reply) (t : Trace)
    → Ends (Half t (message i ∷ sent t) (posted t) (completed t)) Never (send_message nc i (rs, t))
unfolding send_message
send_message-Half nc i rs t =
    nzero-Ends _ _ _ _ _ _ _ (λ _ _. tt)
      λ s s1 z1.
        poll-Ends _ _ (λ u. Counts u (message i ∷ sent t) (posted t) (completed t)) _ _ _ _
          (λ r u z c. ground arith) (ground arith)
          λ d s2 u2 z2 c2.
            die_if-Ends _ _ _ _ _ _ _ (λ _. tt)
              λ n2. elim (Bool-cases (is_success d.wc.status)) [
                | inl y ↦ rw y (
                    die_if-Ends _ _ _ _ _ _ _ (λ _. tt)
                      λ h. call-Ends _ _ _ _ _ _ λ n s3. ok-Ends _ _ _ _ _ (record {
                        said = ground arith;
                        goes_on = λ _. ground arith;
                        breaks = λ z. z;
                      }))
                | inr y ↦
                    rw y (
                      ok-Ends _ _ _ _ _
                        (record { said = c2.0; goes_on = λ e. cc; breaks = λ _. y }))
              ]

receive_echo-Half :
    (nc : Connection) (rs : List Reply) (t : Trace)
    → Ends (Half t (sent t) (suc (posted t)) (suc (completed t))) Never (receive_echo nc (rs, t))
unfolding receive_echo
receive_echo-Half nc rs t =
    poll-Ends _ _ (λ u. Counts u (sent t) (posted t) (completed t)) _ _ _ _
      (λ r u z c. ground arith) (refl, refl, refl)
      λ d s2 u2 z2 c2.
        die_if-Ends _ _ _ _ _ _ _ (λ _. tt)
          λ n2. elim (Bool-cases (is_success d.wc.status)) [
            | inl y ↦ rw y (
                die_if-Ends _ _ _ _ _ _ _ (λ _. tt)
                  λ h.
                    nzero-Ends _ _ _ _ _ _ _ (λ _ _. tt)
                      λ p s3 z3. call-Ends _ _ _ _ _ _ λ n s4. ok-Ends _ _ _ _ _ (record {
                        said = ground arith;
                        goes_on = λ _. ground arith;
                        breaks = λ z. z;
                      }))
            | inr y ↦
                rw y
                  (ok-Ends _ _ _ _ _ (record { said = c2.0; goes_on = λ e. cc; breaks = λ _. y }))
          ]

pub exchange_message-Half :
    (nc : Connection) (i : ℕ) (rs : List Reply) (t : Trace)
    → Ends
        (Half t (message i ∷ sent t) (suc (posted t)) (suc (completed t)))
        Never
        (exchange_message nc i (rs, t))
unfolding exchange_message
exchange_message-Half nc i rs t = bind-Ends _ _ _ _ _ (send_message-Half nc i rs t) λ go s1 u1 a.
    elim (Bool-cases go) [
      | inl y ↦ rw y (
          map-Ends _ _ _ _
            (λ g u h.
              let c : Counts u1 (message i ∷ sent t) (posted t) (completed t) = a.goes_on y in
              record {
                said = h.said ∙ c.0;
                goes_on = λ z.
                    let d : Counts u (sent u1) (suc (posted u1)) (suc (completed u1)) =
                      h.goes_on z in
                    (d.0 ∙ c.0, d.1 ∙ ap suc c.1, d.2 ∙ ap suc c.2);
                breaks = h.breaks;
              })
            (receive_echo-Half nc s1 u1))
      | inr y ↦ rw y (
          ok-Ends _ _ _ _ _ (record { said = a.said; goes_on = λ e. cc; breaks = λ _. a.breaks y }))
    ]

-- The loop from message `i` with `left` rounds to go has sent the messages from `i` on, each once
-- and in order. Either it ran to its end, and every receive that completed was posted again, or its
-- last round broke off.
pub record HasSent (i left : ℕ) (t u : Trace) : Type 0 where
  pub n : ℕ
  pub within : n ≤ left
  pub texts : sent u ≡ messages i n ++ sent t
  pub ending : ((n ≡ left) × (posted u ≡ posted t + n) × (completed u ≡ completed t + n)) ⊎ Broken u

pub one_more :
    (i left : ℕ) (r : Reply) {t u1 u : Trace} {go : Bool}
    → Half t (message i ∷ sent t) (suc (posted t)) (suc (completed t)) go u1
    → go ≡ true
    → HasSent (i + 1) left ((Call.sleep 1, r) ∷ u1) u
    → HasSent i (suc left) t u
one_more i left r {t} {u1} {u} a y h = record {
  n = suc h.n;
  within = omega (arith, h.within);
  texts =
      h.texts
      ∙ ap (λ l. messages (i + 1) h.n ++ l) c.0
      ∙ sym (append_assoc (messages (i + 1) h.n) (message i ∷ []) (sent t));
  ending = elim h.ending [
    | inl e ↦ inl (ap suc e.0, omega (arith, c.1, e.1), omega (arith, c.2, e.2))
    | inr b ↦ inr b
  ];
}
  where
    c : Counts u1 (message i ∷ sent t) (suc (posted t)) (suc (completed t))
    c = a.goes_on y

-- The loop of the client from message `i` on with `left` rounds to go: when it returns it has sent
-- the messages from `i` on, each once and in order, at most `left`; either it ran to its end, with
-- one receive completed and one posted for each message, or its last round broke off on a
-- completion with an error or on a refused request for notification.
pub exchange_messages-HasSent :
    (left i : ℕ) (nc : Connection) (rs : List Reply) (t : Trace)
    → Ends (λ _ u. HasSent i left t u) Never (exchange_messages left i nc (rs, t))
unfolding exchange_messages
exchange_messages-HasSent zero i nc rs t = ok-Ends _ _ _ _ _ (record {
  n = 0;
  within = omega arith;
  texts = refl;
  ending = inl (refl, omega arith, omega arith);
})
exchange_messages-HasSent (suc left) i nc rs t =
    bind-Ends _ _ _ _ _ (exchange_message-Half nc i rs t) λ go s1 u1 a. elim (Bool-cases go) [
      | inl y ↦ rw y (
          ignore-Ends _ _ _ _ _ _ λ r s2.
            map-Ends _ _ _ _ (λ _ u h. one_more i left r a y h)
              (exchange_messages-HasSent left (i + 1) nc s2 _))
      | inr y ↦ rw y (
          ok-Ends _ _ _ _ _
            (record { n = 1; within = omega arith; texts = a.said; ending = inr (a.breaks y) }))
    ]
