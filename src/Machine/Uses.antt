-- ===== src/Machine/Uses.antt =====
-- A run that uses a reply, as each round of a loop does: then a loop ends that has more fuel than
-- replies.
use rdma_tutorial.Prelude.{ℕ, ◌<◌, ◌≤◌, List, [], ◌∷◌, length, Bool-cases, inl, inr, arith}
use rdma_tutorial.External.{Call, Reply, Trace, is_zero}
use rdma_tutorial.Machine.Defs.{
  World, Outcome, ok, died, waiting, fault, out_of_fuel, Reason, Prog, and_then, call, poll,
  zero_or_die,
}
use rdma_tutorial.Machine.Halts.{Halts, rest-length, rest-Halts}

-- What `m` leaves of the script, if it returns, is shorter than `n`: a round of a loop uses a
-- reply.
unfoldable pub Uses : {A : Type 0} → ℕ → Outcome A × World → Type 0
Uses n (ok a, (rest, t)) = length rest < n
Uses n (died _, _) = Unit
Uses n (waiting, _) = Unit
Uses n (fault, _) = Unit
Uses n (out_of_fuel, _) = Unit

after_Uses :
    {A : Type 0} (n : ℕ) (s : List Reply) (o : Outcome A × World)
    → length s < n
    → Halts s o
    → Uses n o
unfolding Uses Halts
after_Uses n s (ok a, (rest, u)) h p = omega (arith, h, rest-length rest s p)
after_Uses n s (died e, _) h p = tt
after_Uses n s (waiting, _) h p = tt
after_Uses n s (fault, _) h p = tt
after_Uses n s (out_of_fuel, _) h p = tt

pub seq-Uses :
    {A B : Type 0} (n : ℕ) (m : Outcome B × World) (k : B → Prog A)
    → Uses n m
    → ((b : B) (rest : List Reply) (u : Trace) → Halts rest (k b (rest, u)))
    → Uses n (and_then m k)
unfolding Uses Halts
seq-Uses n (ok b, (s, t)) k h g = after_Uses n s (k b (s, t)) h (g b s t)
seq-Uses n (died e, (s, t)) k h g = tt
seq-Uses n (waiting, (s, t)) k h g = tt
seq-Uses n (fault, (s, t)) k h g = tt
seq-Uses n (out_of_fuel, (s, t)) k h g = tt

more_Uses : {A : Type 0} (m n : ℕ) (o : Outcome A × World) → m ≤ n → Uses m o → Uses n o
unfolding Uses
more_Uses m n (ok a, (rest, t)) h p = omega (arith, h, p)
more_Uses m n (died e, _) h p = tt
more_Uses m n (waiting, _) h p = tt
more_Uses m n (fault, _) h p = tt
more_Uses m n (out_of_fuel, _) h p = tt

pub poll-Uses : (rs : List Reply) (t : Trace) (c : Call) → Uses (length rs) (poll c (rs, t))
unfolding Uses poll
poll-Uses [] t c = tt
poll-Uses (r ∷ rs) t c = elim (Bool-cases (is_zero r.code)) [
  | inl p ↦
      rw p (more_Uses _ _ (poll c (rs, (c, r) ∷ t)) (omega arith) (poll-Uses rs ((c, r) ∷ t) c))
  | inr p ↦ rw p (omega arith)
]

pub nzero-Uses :
    (rs : List Reply) (t : Trace) (e : Reason) (c : Call)
    → Uses (length rs) (zero_or_die e c (rs, t))
unfolding Uses zero_or_die call
nzero-Uses [] t e c = tt
nzero-Uses (r ∷ rs) t e c = elim (Bool-cases (is_zero r.code)) [
  | inl p ↦ rw p (omega arith)
  | inr p ↦ rw p tt
]

-- A round that ends and uses a reply, and then the rest of a loop.
pub round-Halts :
    {A B : Type 0} (rs : List Reply) (m : Outcome B × World) (k : B → Prog A)
    → Halts rs m
    → Uses (length rs) m
    → ((b : B) (rest : List Reply) (u : Trace)
        → length rest < length rs
        → Halts rest (k b (rest, u)))
    → Halts rs (and_then m k)
unfolding Halts Uses
round-Halts rs (ok b, (s, t)) k h w g = rest-Halts rs s (k b (s, t)) h (g b s t w)
round-Halts rs (died e, (s, t)) k h w g = tt
round-Halts rs (waiting, (s, t)) k h w g = tt
round-Halts rs (fault, (s, t)) k h w g = tt
round-Halts rs (out_of_fuel, (s, t)) k h w g = absurd h
