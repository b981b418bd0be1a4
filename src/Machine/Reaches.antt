-- ===== src/Machine/Reaches.antt =====
-- A run that returns, on a script that has the replies for it, and what it leaves of the script.
use mathlib.Core.Path.{subst}
use rdma_tutorial.Prelude.{◌≡◌, refl, sym, true, false, Bool, List, ◌∷◌}
use rdma_tutorial.External.{Call, Reply, Trace, WcOpcode, is_zero, is_negative, is_success}
use rdma_tutorial.Machine.Defs.{
  World, Outcome, ok, died, waiting, fault, out_of_fuel, Reason, Prog, and_then, call, die_if, poll,
  zero_or_die,
}

-- A run returns, leaves `rest`, and has `P` of its result and the trace.
unfoldable pub Reaches :
    {A : Type 0} → List Reply → (A → Trace → Type 0) → Outcome A × World → Type 0
Reaches rest P (ok a, (s, t)) = (s ≡ rest) × P a t
Reaches rest P (died _, _) = ⊥
Reaches rest P (waiting, _) = ⊥
Reaches rest P (fault, _) = ⊥
Reaches rest P (out_of_fuel, _) = ⊥

-- The replies to a loop that polls: empty polls, and then a successful completion of the right
-- kind.
pub data Polled (kind : WcOpcode → Bool) : List Reply → List Reply → Type 0 where
  arrived :
      (r : Reply) (rest : List Reply)
      → is_zero r.code ≡ false
      → is_negative r.code ≡ false
      → is_success r.wc.status ≡ true
      → kind r.wc.opcode ≡ true
      → Polled kind (r ∷ rest) rest
  empty_poll :
      (r : Reply) (rs rest : List Reply)
      → is_zero r.code ≡ true
      → Polled kind rs rest
      → Polled kind (r ∷ rs) rest

module _ {A : Type 0} (rest : List Reply) (P : A → Trace → Type 0) where
  pub ok-Reaches : (a : A) (t : Trace) → P a t → Reaches rest P (ok a, (rest, t))
  unfolding Reaches
  ok-Reaches a t h = (refl, h)

  pub bind-Reaches :
      {B : Type 0} (s : List Reply) (Q : B → Trace → Type 0) (m : Outcome B × World)
      (k : B → Prog A)
      → Reaches s Q m
      → ((b : B) (u : Trace) → Q b u → Reaches rest P (k b (s, u)))
      → Reaches rest P (and_then m k)
  unfolding Reaches
  bind-Reaches s Q (ok b, (x, t)) k h g =
      subst (λ y. Reaches rest P (k b (y, t))) (sym h.0) (g b t h.1)
  bind-Reaches s Q (died e, _) k h g = absurd h
  bind-Reaches s Q (waiting, _) k h g = absurd h
  bind-Reaches s Q (fault, _) k h g = absurd h
  bind-Reaches s Q (out_of_fuel, _) k h g = absurd h

  pub nzero-Reaches :
      (e : Reason) (c : Call) (k : Reply → Prog A) (r : Reply) (s : List Reply) (t : Trace)
      → is_zero r.code ≡ true
      → Reaches rest P (k r (s, (c, r) ∷ t))
      → Reaches rest P (and_then (zero_or_die e c (r ∷ s, t)) k)
  unfolding zero_or_die call
  nzero-Reaches e c k r s t z h = rw z h

  pub die_if-Reaches :
      (b : Bool) (e : Reason) (k : Unit {0} → Prog A) (s : List Reply) (t : Trace)
      → b ≡ false
      → Reaches rest P (k tt (s, t))
      → Reaches rest P (and_then (die_if b e (s, t)) k)
  unfolding die_if
  die_if-Reaches b e k s t n h = rw n h

  -- A poll that is answered, with what stays true of the trace at an empty poll.
  pub poll-Reaches :
      (kind : WcOpcode → Bool) (I : Trace → Type 0) (c : Call) (k : Reply → Prog A)
      (rs s : List Reply) (t : Trace)
      → Polled kind rs s
      → ((r : Reply) (u : Trace) → is_zero r.code ≡ true → I u → I ((c, r) ∷ u))
      → I t
      → ((r : Reply) (u : Trace)
          → is_negative r.code ≡ false
          → is_success r.wc.status ≡ true
          → kind r.wc.opcode ≡ true
          → I u
          → Reaches rest P (k r (s, (c, r) ∷ u)))
      → Reaches rest P (and_then (poll c (rs, t)) k)
  unfolding poll
  poll-Reaches kind I c k _ _ t (arrived r s z n y o) keep i h = rw z (h r t n y o i)
  poll-Reaches kind I c k _ _ t (empty_poll r rs s z p) keep i h =
      rw z (poll-Reaches kind I c k rs s ((c, r) ∷ t) p keep (keep r t z i) h)

pub map-Reaches :
    {A : Type 0} (rest : List Reply) (P Q : A → Trace → Type 0) (m : Outcome A × World)
    → ((a : A) (u : Trace) → P a u → Q a u)
    → Reaches rest P m
    → Reaches rest Q m
unfolding Reaches
map-Reaches rest P Q (ok a, (s, t)) f h = (h.0, f a t h.1)
map-Reaches rest P Q (died e, _) f h = absurd h
map-Reaches rest P Q (waiting, _) f h = absurd h
map-Reaches rest P Q (fault, _) f h = absurd h
map-Reaches rest P Q (out_of_fuel, _) f h = absurd h
