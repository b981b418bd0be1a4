-- ===== src/Machine/Leaves.antt =====
-- What holds of the result and of the trace of a run that returns; a run that does not return is
-- left open. These are partial statements, and are put beside those of Halts.
use rdma_tutorial.Prelude.{
  ◌≡◌, refl, ℕ, Bool, true, false, Option, none, some, List, [], ◌∷◌, ◌==◌, Bool-cases, inl, inr,
  length, ltb,
}
use rdma_tutorial.External.{Call, Reply, no_reply, Trace, is_zero}
use rdma_tutorial.Machine.Follows.{Follows}
use rdma_tutorial.Machine.Defs.{
  World, Outcome, ok, died, waiting, fault, out_of_fuel, Reason, Prog, and_then, call, tell, die_if,
  fault_if, or_fault, ignore, ignore_if, nonnull, zero_or_die, strcpy,
}
use rdma_tutorial.Machine.Ends.{Ends}
use rdma_tutorial.Machine.Grows.{Grows}
use rdma_tutorial.Machine.Yields.{Yields}

unfoldable pub Leaves : {A : Type 0} → (A → Trace → Type 0) → Outcome A × World → Type 0
Leaves P (ok a, (_, t)) = P a t
Leaves P (died _, _) = Unit
Leaves P (waiting, _) = Unit
Leaves P (fault, _) = Unit
Leaves P (out_of_fuel, _) = Unit

module _ {A : Type 0} where
  pub Ends-Leaves :
      (P : A → Trace → Type 0) (D : Reason → Trace → Type 0) (m : Outcome A × World)
      → Ends P D m
      → Leaves P m
  unfolding Leaves Ends
  Ends-Leaves P D (ok a, (_, t)) h = h
  Ends-Leaves P D (died e, _) h = tt
  Ends-Leaves P D (waiting, _) h = tt
  Ends-Leaves P D (fault, _) h = tt
  Ends-Leaves P D (out_of_fuel, _) h = tt

  pub Grows-Leaves :
      (Q : Call → Type 0) (t : Trace) (m : Outcome A × World)
      → Grows Q t m
      → Leaves (λ _ u. Follows Q t u) m
  unfolding Leaves Grows
  Grows-Leaves Q t (ok a, (_, u)) h = h
  Grows-Leaves Q t (died e, _) h = tt
  Grows-Leaves Q t (waiting, _) h = tt
  Grows-Leaves Q t (fault, _) h = tt
  Grows-Leaves Q t (out_of_fuel, _) h = tt

  -- a statement about the result alone
  pub Yields-Leaves :
      (P : A → Type 0) (F : Type 0) (m : Outcome A × World) → Yields P F m → Leaves (λ a _. P a) m
  unfolding Leaves Yields
  Yields-Leaves P F (ok a, _) h = h
  Yields-Leaves P F (died e, _) h = tt
  Yields-Leaves P F (waiting, _) h = tt
  Yields-Leaves P F (fault, _) h = tt
  Yields-Leaves P F (out_of_fuel, _) h = tt

  pub Leaves-Yields :
      (P : A → Type 0) (m : Outcome A × World) → Leaves (λ a _. P a) m → Yields P Unit m
  unfolding Leaves Yields
  Leaves-Yields P (ok a, _) h = h
  Leaves-Yields P (died e, _) h = tt
  Leaves-Yields P (waiting, _) h = tt
  Leaves-Yields P (fault, _) h = tt
  Leaves-Yields P (out_of_fuel, _) h = tt

  -- every run returns something or nothing
  pub any-Leaves : (m : Outcome A × World) → Leaves (λ _ _. Unit) m
  unfolding Leaves
  any-Leaves (ok a, _) = tt
  any-Leaves (died e, _) = tt
  any-Leaves (waiting, _) = tt
  any-Leaves (fault, _) = tt
  any-Leaves (out_of_fuel, _) = tt

  pub both-Leaves :
      (P Q R : A → Trace → Type 0) (m : Outcome A × World)
      → ((a : A) (u : Trace) → P a u → Q a u → R a u)
      → Leaves P m
      → Leaves Q m
      → Leaves R m
  unfolding Leaves
  both-Leaves P Q R (ok a, (_, u)) f p q = f a u p q
  both-Leaves P Q R (died e, _) f p q = tt
  both-Leaves P Q R (waiting, _) f p q = tt
  both-Leaves P Q R (fault, _) f p q = tt
  both-Leaves P Q R (out_of_fuel, _) f p q = tt

  pub map-Leaves :
      (P Q : A → Trace → Type 0) (m : Outcome A × World)
      → ((a : A) (u : Trace) → P a u → Q a u)
      → Leaves P m
      → Leaves Q m
  map-Leaves P Q m f h = both-Leaves P P Q m (λ a u p _. f a u p) h h

  -- a hypothesis under which the run is looked at
  pub under-Leaves :
      (H : Type 0) (P : A → Trace → Type 0) (m : Outcome A × World)
      → (H → Leaves P m)
      → Leaves (λ a u. H → P a u) m
  unfolding Leaves
  under-Leaves H P (ok a, (_, u)) f = f
  under-Leaves H P (died e, _) f = tt
  under-Leaves H P (waiting, _) f = tt
  under-Leaves H P (fault, _) f = tt
  under-Leaves H P (out_of_fuel, _) f = tt

module _ {A : Type 0} (P : A → Trace → Type 0) where
  pub ok-Leaves : (a : A) (rs : List Reply) (t : Trace) → P a t → Leaves P (ok a, (rs, t))
  unfolding Leaves
  ok-Leaves a rs t h = h

  pub stop-Leaves : (w : World) → Leaves P (out_of_fuel, w)
  unfolding Leaves
  stop-Leaves w = tt

  pub bind-Leaves :
      {B : Type 0} (Q : B → Trace → Type 0) (m : Outcome B × World) (k : B → Prog A)
      → Leaves Q m
      → ((b : B) (rs : List Reply) (u : Trace) → Q b u → Leaves P (k b (rs, u)))
      → Leaves P (and_then m k)
  unfolding Leaves
  bind-Leaves Q (ok b, (rs, u)) k h g = g b rs u h
  bind-Leaves Q (died e, _) k h g = tt
  bind-Leaves Q (waiting, _) k h g = tt
  bind-Leaves Q (fault, _) k h g = tt
  bind-Leaves Q (out_of_fuel, _) k h g = tt

  module _ (rs : List Reply) (t : Trace) where
    pub call-Leaves :
        (c : Call) (k : Reply → Prog A)
        → ((r : Reply) (rest : List Reply) → Leaves P (k r (rest, (c, r) ∷ t)))
        → Leaves P (and_then (call c (rs, t)) k)
    unfolding Leaves call
    call-Leaves c k h = elim rs as (λ xs. Leaves P (and_then (call c (xs, t)) k)) [
      | [] ↦ tt
      | r ∷ rest ↦ h r rest
    ]

    pub tell-Leaves :
        (c : Call) (k : Unit {0} → Prog A)
        → Leaves P (k tt (rs, (c, no_reply) ∷ t))
        → Leaves P (and_then (tell c (rs, t)) k)
    unfolding tell
    tell-Leaves c k h = h

    pub ignore-Leaves :
        (c : Call) (k : Unit {0} → Prog A)
        → ((r : Reply) (rest : List Reply) → Leaves P (k tt (rest, (c, r) ∷ t)))
        → Leaves P (and_then (ignore c (rs, t)) k)
    unfolding Leaves ignore
    ignore-Leaves c k h = elim rs as (λ xs. Leaves P (and_then (ignore c (xs, t)) k)) [
      | [] ↦ tt
      | r ∷ rest ↦ h r rest
    ]

    pub die_if-Leaves :
        (b : Bool) (e : Reason) (k : Unit {0} → Prog A)
        → Leaves P (k tt (rs, t))
        → Leaves P (and_then (die_if b e (rs, t)) k)
    unfolding Leaves die_if
    die_if-Leaves true e k h = tt
    die_if-Leaves false e k h = h

    pub fault_if-Leaves :
        (b : Bool) (k : Unit {0} → Prog A)
        → (b ≡ false → Leaves P (k tt (rs, t)))
        → Leaves P (and_then (fault_if b (rs, t)) k)
    unfolding Leaves fault_if
    fault_if-Leaves true k h = tt
    fault_if-Leaves false k h = h refl

    pub or_fault-Leaves :
        {B : Type 0} (o : Option B) (k : B → Prog A)
        → ((b : B) → Leaves P (k b (rs, t)))
        → Leaves P (and_then (or_fault o (rs, t)) k)
    unfolding Leaves or_fault
    or_fault-Leaves none k h = tt
    or_fault-Leaves (some b) k h = h b

    pub strcpy-Leaves :
        (n : ℕ) (x : List ℕ) (k : List ℕ → Prog A)
        → Leaves P (k x (rs, t))
        → Leaves P (and_then (strcpy n x (rs, t)) k)
    unfolding Leaves strcpy
    strcpy-Leaves n x k h = elim (Bool-cases (ltb (length x) n)) [
      | inl z ↦ rw z h
      | inr z ↦ rw z tt
    ]

    pub null-Leaves :
        (e : Reason) (c : Call) (k : ℕ → Prog A)
        → ((r : Reply) (rest : List Reply) → Leaves P (k r.ptr (rest, (c, r) ∷ t)))
        → Leaves P (and_then (nonnull e c (rs, t)) k)
    unfolding Leaves nonnull call die_if
    null-Leaves e c k h = elim rs as (λ xs. Leaves P (and_then (nonnull e c (xs, t)) k)) [
      | [] ↦ tt
      | r ∷ rest ↦ elim (Bool-cases (r.ptr == 0)) [ inl z ↦ rw z tt | inr z ↦ rw z (h r rest) ]
    ]

    pub nzero-Leaves :
        (e : Reason) (c : Call) (k : Reply → Prog A)
        → ((r : Reply) (rest : List Reply) → Leaves P (k r (rest, (c, r) ∷ t)))
        → Leaves P (and_then (zero_or_die e c (rs, t)) k)
    unfolding Leaves zero_or_die call
    nzero-Leaves e c k h = elim rs as (λ xs. Leaves P (and_then (zero_or_die e c (xs, t)) k)) [
      | [] ↦ tt
      | r ∷ rest ↦ elim (Bool-cases (is_zero r.code)) [ inl z ↦ rw z (h r rest) | inr z ↦ rw z tt ]
    ]

pub ignore_if-Leaves :
    {A : Type 0} (P : A → Trace → Type 0) (rs : List Reply) (t : Trace) (p : ℕ) (c : ℕ → Call)
    (k : Unit {0} → Prog A)
    → ((rest : List Reply) → Leaves P (k tt (rest, t)))
    → ((r : Reply) (rest : List Reply) → Leaves P (k tt (rest, (c p, r) ∷ t)))
    → Leaves P (and_then (ignore_if p c (rs, t)) k)
unfolding ignore_if
ignore_if-Leaves P rs t p c k g h = elim (Bool-cases (p == 0)) [
  | inl z ↦ rw z (g rs)
  | inr z ↦ rw z (ignore-Leaves P rs t (c p) k h)
]
