-- ===== src/Machine/Ruins.antt =====
-- As `Ends`, for programs that may fault: what holds of the trace where they do.
use rdma_tutorial.Prelude.{
  ◌≡◌, refl, Bool, true, false, Option, some, List, [], ◌∷◌, Bool-cases, inl, inr,
}
use rdma_tutorial.External.{Call, Reply, no_reply, Trace, is_zero}
use rdma_tutorial.Machine.Defs.{
  World, Outcome, ok, died, waiting, fault, out_of_fuel, Reason, Prog, and_then, call, tell, die_if,
  fault_if, or_fault, ignore, poll,
}
use rdma_tutorial.Machine.Ends.{Ends}
use rdma_tutorial.Machine.Follows.{Follows}
use rdma_tutorial.Machine.Grows.{Grows}
use rdma_tutorial.Machine.Leaves.{Leaves}

-- A run returns with `P`, dies with `D`, or faults with `F` of the trace, or waits with the script
-- used up.
unfoldable pub Ruins :
    {A : Type 0}
    → (A → Trace → Type 0)
    → (Reason → Trace → Type 0)
    → (Trace → Type 0)
    → Outcome A × World
    → Type 0
Ruins P D F (ok a, (_, t)) = P a t
Ruins P D F (died e, (_, t)) = D e t
Ruins P D F (waiting, (rs, _)) = rs ≡ []
Ruins P D F (fault, (_, t)) = F t
Ruins P D F (out_of_fuel, _) = ⊥

module _ {A : Type 0} (P : A → Trace → Type 0) (D : Reason → Trace → Type 0)
    (F : Trace → Type 0) where
  pub ok-Ruins : (a : A) (rs : List Reply) (t : Trace) → P a t → Ruins P D F (ok a, (rs, t))
  unfolding Ruins
  ok-Ruins a rs t h = h

  -- a part that meets no fault
  pub then-Ruins :
      {B : Type 0} (Q : B → Trace → Type 0) (m : Outcome B × World) (k : B → Prog A)
      → Ends Q D m
      → ((b : B) (rest : List Reply) (u : Trace) → Q b u → Ruins P D F (k b (rest, u)))
      → Ruins P D F (and_then m k)
  unfolding Ruins Ends
  then-Ruins Q (ok b, (rs, t)) k h g = g b rs t h
  then-Ruins Q (died e, (rs, t)) k h g = h
  then-Ruins Q (waiting, (rs, t)) k h g = h
  then-Ruins Q (fault, (rs, t)) k h g = absurd h
  then-Ruins Q (out_of_fuel, (rs, t)) k h g = absurd h

  -- a part that may fault itself
  pub bind-Ruins :
      {B : Type 0} (Q : B → Trace → Type 0) (m : Outcome B × World) (k : B → Prog A)
      → Ruins Q D F m
      → ((b : B) (rest : List Reply) (u : Trace) → Q b u → Ruins P D F (k b (rest, u)))
      → Ruins P D F (and_then m k)
  unfolding Ruins
  bind-Ruins Q (ok b, (rs, t)) k h g = g b rs t h
  bind-Ruins Q (died e, (rs, t)) k h g = h
  bind-Ruins Q (waiting, (rs, t)) k h g = h
  bind-Ruins Q (fault, (rs, t)) k h g = h
  bind-Ruins Q (out_of_fuel, (rs, t)) k h g = absurd h

  pub Ends-Ruins : (m : Outcome A × World) → Ends P D m → Ruins P D F m
  unfolding Ruins Ends
  Ends-Ruins (ok b, (rs, t)) h = h
  Ends-Ruins (died e, (rs, t)) h = h
  Ends-Ruins (waiting, (rs, t)) h = h
  Ends-Ruins (fault, (rs, t)) h = absurd h
  Ends-Ruins (out_of_fuel, (rs, t)) h = absurd h

  pub poll-Ruins :
      (I : Trace → Type 0) (rs : List Reply) (t : Trace) (c : Call) (k : Reply → Prog A)
      → ((r : Reply) (u : Trace) → is_zero r.code ≡ true → I u → I ((c, r) ∷ u))
      → I t
      → ((r : Reply) (rest : List Reply) (u : Trace)
          → is_zero r.code ≡ false
          → I u
          → Ruins P D F (k r (rest, (c, r) ∷ u)))
      → Ruins P D F (and_then (poll c (rs, t)) k)
  unfolding Ruins poll
  poll-Ruins I [] t c k keep i h = refl
  poll-Ruins I (r ∷ rs) t c k keep i h = elim (Bool-cases (is_zero r.code)) [
    | inl p ↦ rw p (poll-Ruins I rs ((c, r) ∷ t) c k keep (keep r t p i) h)
    | inr p ↦ rw p (h r rs t p i)
  ]

  module _ (rs : List Reply) (t : Trace) where
    pub call-Ruins :
        (c : Call) (k : Reply → Prog A)
        → ((r : Reply) (rest : List Reply) → Ruins P D F (k r (rest, (c, r) ∷ t)))
        → Ruins P D F (and_then (call c (rs, t)) k)
    unfolding Ruins call
    call-Ruins c k h = elim rs as (λ xs. Ruins P D F (and_then (call c (xs, t)) k)) [
      | [] ↦ refl
      | r ∷ rest ↦ h r rest
    ]

    pub ignore-Ruins :
        (c : Call) (k : Unit {0} → Prog A)
        → ((r : Reply) (rest : List Reply) → Ruins P D F (k tt (rest, (c, r) ∷ t)))
        → Ruins P D F (and_then (ignore c (rs, t)) k)
    unfolding Ruins ignore
    ignore-Ruins c k h = elim rs as (λ xs. Ruins P D F (and_then (ignore c (xs, t)) k)) [
      | [] ↦ refl
      | r ∷ rest ↦ h r rest
    ]

    pub tell-Ruins :
        (c : Call) (k : Unit {0} → Prog A)
        → Ruins P D F (k tt (rs, (c, no_reply) ∷ t))
        → Ruins P D F (and_then (tell c (rs, t)) k)
    unfolding tell
    tell-Ruins c k h = h

    pub die_if-Ruins :
        (b : Bool) (e : Reason) (k : Unit {0} → Prog A)
        → (b ≡ true → D e t)
        → (b ≡ false → Ruins P D F (k tt (rs, t)))
        → Ruins P D F (and_then (die_if b e (rs, t)) k)
    unfolding Ruins die_if
    die_if-Ruins b e k d h = elim (Bool-cases b) [ inl p ↦ rw p (d p) | inr p ↦ rw p (h p) ]

    pub fault_if-Ruins :
        (b : Bool) (k : Unit {0} → Prog A)
        → (b ≡ true → F t)
        → (b ≡ false → Ruins P D F (k tt (rs, t)))
        → Ruins P D F (and_then (fault_if b (rs, t)) k)
    unfolding Ruins fault_if
    fault_if-Ruins b k d h = elim (Bool-cases b) [ inl p ↦ rw p (d p) | inr p ↦ rw p (h p) ]

    pub or_fault-Ruins :
        {B : Type 0} (o : Option B) (k : B → Prog A) (b : B)
        → o ≡ some b
        → Ruins P D F (k b (rs, t))
        → Ruins P D F (and_then (or_fault o (rs, t)) k)
    unfolding or_fault
    or_fault-Ruins o k b e h = rw e h

pub Ruins-Leaves :
    {A : Type 0} (P : A → Trace → Type 0) (D : Reason → Trace → Type 0) (F : Trace → Type 0)
    (m : Outcome A × World)
    → Ruins P D F m
    → Leaves P m
unfolding Leaves Ruins
Ruins-Leaves P D F (ok a, (_, t)) h = h
Ruins-Leaves P D F (died e, _) h = tt
Ruins-Leaves P D F (waiting, _) h = tt
Ruins-Leaves P D F (fault, _) h = tt
Ruins-Leaves P D F (out_of_fuel, _) h = tt

-- a part that ends, and the calls that it adds to the trace
pub Ends-Follows :
    {A : Type 0} (P : A → Trace → Type 0) (D : Reason → Trace → Type 0) (Q : Call → Type 0)
    (t : Trace) (m : Outcome A × World)
    → Ends P D m
    → Grows Q t m
    → Ends (λ a u. P a u × Follows Q t u) D m
unfolding Ends Grows
Ends-Follows P D Q t (ok a, (_, u)) h g = (h, g)
Ends-Follows P D Q t (died e, _) h g = h
Ends-Follows P D Q t (waiting, _) h g = h
Ends-Follows P D Q t (fault, _) h g = h
Ends-Follows P D Q t (out_of_fuel, _) h g = h
