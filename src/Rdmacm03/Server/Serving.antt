-- ===== src/Rdmacm03/Server/Serving.antt =====
-- What a server posts and sends for what it receives, in the loop that src/rdmacm03/server.c and
-- src/rdmacm04/server.c share.
use rdma_tutorial.Prelude.{◌∷◌, length-append}
use mathlib.Core.Path.{subst}
use rdma_tutorial.Prelude.{
  sym, ℕ, zero, suc, ◌≡◌, ◌<◌, ◌≤◌, Bool, true, false, Option, none, some, List, ◌++◌, length, ltb,
  All, arith, if◌then◌else◌, Bool-cases, inl, inr,
}
use rdma_tutorial.External.{
  Reply, Trace, WcOpcode, wc_send, wc_recv, wc_other, is_zero, is_negative, is_success, is_recv,
}
use rdma_tutorial.Machine.{Prog, pure}
use rdma_tutorial.External.{Call}
use rdma_tutorial.Machine.Observe.{completions, recvs_among}
use rdma_tutorial.Machine.Finishes.{
  Finishes, ok-Finishes, bind-Finishes, map-Finishes, call-Finishes, die_if-Finishes, poll-Finishes,
}
use rdma_tutorial.Rdmacm.Echoes.{
  Echoed, Echoed-trans, Answered, Answered-refl, Served, Served-refl, Served-trans,
}
use rdma_tutorial.Rdmacm05.Common.{Connection, buffer_size}
use rdma_tutorial.Rdmacm05.Server.Echo.{echo-Answered}
use rdma_tutorial.Rdmacm03.Server.Defs.{serve_opcode, serve_completion, serve_once, serve_loop}

-- The string that a client has sent fits the send buffer with its NUL.
abbrev pub Fits : Reply → Type 0
Fits r = length r.bytes < buffer_size

serve_opcode-Answered :
    (op : WcOpcode) (nc : Connection) (i : ℕ) (rs : List Reply) (t : Trace)
    → All Fits rs
    → Finishes
        (λ _ rest u.
          All Fits rest × (length rest ≤ length rs) × Answered (if is_recv op then 1 else 0) t u)
        (serve_opcode op nc i (rs, t))
unfolding serve_opcode
serve_opcode-Answered wc_send nc i rs t good =
    ok-Finishes _ _ _ _ (good, omega arith, Answered-refl t)
serve_opcode-Answered (wc_other _) nc i rs t good =
    ok-Finishes _ _ _ _ (good, omega arith, Answered-refl t)
serve_opcode-Answered wc_recv nc i rs t good =
    bind-Finishes _ _ _ _ (echo-Answered Fits nc rs t (λ r h. h) good)
      λ _ s1 u1 h. ok-Finishes _ _ _ _ h

-- the receives among the completions of a poll with room for one
one_recv :
    (r : Reply)
    → is_negative r.code ≡ false
    → is_zero r.code ≡ false
    → recvs_among (completions 1 r) ≡ (if is_recv r.wc.opcode then 1 else 0)
one_recv r n z = ground arith

at_most_one : (b : Bool) → (if b then 1 else 0) ≤ 1
at_most_one true = omega arith
at_most_one false = omega arith

-- What a round leaves behind: nothing unanswered if the loop goes on, one receive at most if not.
abbrev pub After : List Reply → Trace → Option ℕ → List Reply → Trace → Type 0
After rs t next rest u =
    All Fits rest × (length rest < length rs) × Served (elim next [ none ↦ 1 | some _ ↦ 0 ]) t u

-- a receive that completed last, and is not answered
pub unanswered :
    (cq : ℕ) (r : Reply) (t u : Trace)
    → Answered 0 t u
    → recvs_among (completions 1 r) ≤ 1
    → Served 1 t ((Call.poll_cq cq 1, r) ∷ u)
unanswered cq r t u q one = record {
  texts = q.texts;
  echoed = record {
    replied = q.echoed.replied;
    told = q.echoed.told;
    reposted = q.echoed.reposted;
  };
  caused = omega (arith, q.count, q.polled);
  answered = omega (arith, q.count, q.polled, one);
}

-- the completion of a poll has been answered, and the next notification requested
reply_now :
    (left cq : ℕ) (r f : Reply) (t u v : Trace)
    → Answered 0 t u
    → Answered (recvs_among (completions 1 r)) ((Call.poll_cq cq 1, r) ∷ u) v
    → Served left t ((Call.req_notify_cq cq, f) ∷ v)
reply_now left cq r f t u v q e =
    let over : Echoed e.texts u v = record {
      replied = e.echoed.replied;
      told = e.echoed.told;
      reposted = e.echoed.reposted;
    } in
    let all : Echoed (e.texts ++ q.texts) t v = Echoed-trans q.texts e.texts t u v q.echoed over in
    record {
      texts = e.texts ++ q.texts;
      echoed = record { replied = all.replied; told = all.told; reposted = all.reposted };
      caused = omega (arith, q.count, q.polled, e.count, e.polled, length-append e.texts q.texts);
      answered = omega (arith, q.count, q.polled, e.count, e.polled, length-append e.texts q.texts);
    }

pub serve_completion-Served :
    (nc : Connection) (i : ℕ) (r : Reply) (rs : List Reply) (t u : Trace)
    → Answered 0 t u
    → is_negative r.code ≡ false
    → is_zero r.code ≡ false
    → All Fits rs
    → Finishes
        (λ next rest v.
          All Fits rest
          × (length rest ≤ length rs)
          × Served (elim next [ none ↦ 1 | some _ ↦ 0 ]) t v)
        (serve_completion nc i r.wc (rs, (Call.poll_cq nc.cq 1, r) ∷ u))
unfolding serve_completion
serve_completion-Served nc i r rs t u q n z good =
    let k : recvs_among (completions 1 r) ≡ (if is_recv r.wc.opcode then 1 else 0) =
      one_recv r n z in
    elim (Bool-cases (is_success r.wc.status)) [
      | inr y ↦ rw y (
          ok-Finishes _ _ _ _ (
            good,
            omega arith,
            unanswered nc.cq r t u q (omega (arith, k, at_most_one (is_recv r.wc.opcode))),
          ))
      | inl y ↦ rw y (
          bind-Finishes _ _ _ _ (serve_opcode-Answered r.wc.opcode nc i rs _ good)
            λ i' s2 u2 (g2, l2, e). call-Finishes _ Fits _ _ g2 _ _ λ f s3 _ good3 l3.
              let e' : Answered (recvs_among (completions 1 r)) ((Call.poll_cq nc.cq 1, r) ∷ u) u2 =
                subst (λ m. Answered m ((Call.poll_cq nc.cq 1, r) ∷ u) u2) (sym k) e in
              elim (Bool-cases (is_zero f.code)) [
                | inl w ↦
                    rw w
                      (ok-Finishes _ _ _ _ (good3, omega arith, reply_now 0 nc.cq r f t u u2 q e'))
                | inr w ↦
                    rw w
                      (ok-Finishes _ _ _ _ (good3, omega arith, reply_now 1 nc.cq r f t u u2 q e'))
              ])
    ]

-- polls that give nothing
pub keep_polling :
    (cq : ℕ) (t : Trace) (r : Reply) (u : Trace)
    → is_zero r.code ≡ true
    → Answered 0 t u
    → Answered 0 t ((Call.poll_cq cq 1, r) ∷ u)
keep_polling cq t r u z q = record {
  texts = q.texts;
  count = q.count;
  echoed = record {
    replied = q.echoed.replied;
    told = q.echoed.told;
    reposted = q.echoed.reposted;
  };
  polled = ground (arith, q.polled);
}

-- what is left of the loop after a round
after_round :
    (once : ℕ → Prog (Option ℕ)) (fuel : ℕ) (t : Trace) (next : Option ℕ) (rs : List Reply)
    (u : Trace)
    → All Fits rs
    → Served (elim next [ none ↦ 1 | some _ ↦ 0 ]) t u
    → ((i : ℕ)
        → Finishes (λ _ rest v. All Fits rest × Served 1 u v) (serve_loop once fuel i (rs, u)))
    → Finishes
        (λ _ rest v. All Fits rest × Served 1 t v)
        ((elim next as (λ _. Prog (Unit {0})) [ none ↦ pure tt | some i ↦ serve_loop once fuel i ])
          (rs, u))
after_round once fuel t none rs u g h rest = ok-Finishes _ _ _ _ (g, h)
after_round once fuel t (some i) rs u g h rest =
    map-Finishes _ _ _ (λ _ _ v w. (w.0, Served-trans 1 t u v h w.1)) (rest i)

-- The loop, if every round that starts with servable replies uses one and serves what it polls.
pub serve_loop-Served :
    (once : ℕ → Prog (Option ℕ)) (fuel i : ℕ) (rs : List Reply) (t : Trace)
    → ((j : ℕ) (ss : List Reply) (u : Trace) → All Fits ss → Finishes (After ss u) (once j (ss, u)))
    → All Fits rs
    → length rs < fuel
    → Finishes (λ _ rest u. All Fits rest × Served 1 t u) (serve_loop once fuel i (rs, t))
unfolding serve_loop
serve_loop-Served once zero i rs t step good enough = absurd (omega arith)
serve_loop-Served once (suc fuel) i rs t step good enough = elim (Bool-cases (ltb i 10)) [
  | inr y ↦ rw (y, serve_loop) (ok-Finishes _ _ _ _ (good, Served-refl 1 t))
  | inl y ↦
      rw (y, serve_loop)
        (bind-Finishes _ _ _ _ (step i rs t good) λ next s1 u1 h.
          after_round once fuel t next s1 u1 h.0 h.2
            (λ j. serve_loop-Served once fuel j s1 u1 step h.0 (omega (arith, h.1))))
]

pub serve_once-Served :
    (nc : Connection) (j : ℕ) (ss : List Reply) (u : Trace)
    → All Fits ss
    → Finishes (After ss u) (serve_once nc j (ss, u))
unfolding serve_once
serve_once-Served nc j ss u good =
    poll-Finishes _ Fits (Answered 0 u) _ _ _ _ (keep_polling nc.cq u) good (Answered-refl u)
      λ r s1 u1 z q good1 l1. die_if-Finishes _ _ _ _ _ _ λ n.
        map-Finishes _ _ _ (λ _ _ _ (g, l, w). (g, omega arith, w))
          (serve_completion-Served nc j r s1 u u1 q n z good1)
