-- ===== src/Machine/Finishes.antt =====
-- As `Ends`, where the result depends on the replies that are left: what is assumed of the script,
-- and how much of it a loop uses.
use rdma_tutorial.Prelude.{
  ℕ, ◌<◌, ◌≡◌, refl, Bool, true, false, Option, some, List, [], ◌∷◌, Bool-cases, inl, inr, length,
  All, arith, ltb,
}
use rdma_tutorial.External.{Call, Reply, no_reply, Trace, is_zero}
use mathlib.Core.Path.{subst}
use rdma_tutorial.Prelude.{◌≤◌}
use rdma_tutorial.Machine.Ends.{Ends}
use rdma_tutorial.Machine.Halts.{Halts, rest-All, rest-length}
use rdma_tutorial.Machine.Defs.{
  World, Outcome, ok, died, waiting, fault, out_of_fuel, Reason, Prog, and_then, call, tell, die_if,
  or_fault, strcpy, zero_or_die, poll, ignore,
}

-- A run returns with `P` of its result and the world, or dies, or waits with the script used up. It
-- meets no fault, and no loop of it runs out of fuel.
unfoldable pub Finishes :
    {A : Type 0} → (A → List Reply → Trace → Type 0) → Outcome A × World → Type 0
Finishes P (ok a, (rs, t)) = P a rs t
Finishes P (died _, _) = Unit
Finishes P (waiting, (rs, _)) = rs ≡ []
Finishes P (fault, _) = ⊥
Finishes P (out_of_fuel, _) = ⊥

module _ {A : Type 0} (P : A → List Reply → Trace → Type 0) where
  pub ok-Finishes : (a : A) (rs : List Reply) (t : Trace) → P a rs t → Finishes P (ok a, (rs, t))
  unfolding Finishes
  ok-Finishes a rs t h = h

  pub bind-Finishes :
      {B : Type 0} (Q : B → List Reply → Trace → Type 0) (m : Outcome B × World) (k : B → Prog A)
      → Finishes Q m
      → ((b : B) (rest : List Reply) (u : Trace) → Q b rest u → Finishes P (k b (rest, u)))
      → Finishes P (and_then m k)
  unfolding Finishes
  bind-Finishes Q (ok b, (rs, t)) k h g = g b rs t h
  bind-Finishes Q (died e, (rs, t)) k h g = tt
  bind-Finishes Q (waiting, (rs, t)) k h g = h
  bind-Finishes Q (fault, (rs, t)) k h g = absurd h
  bind-Finishes Q (out_of_fuel, (rs, t)) k h g = absurd h

  pub map-Finishes :
      (Q : A → List Reply → Trace → Type 0) (m : Outcome A × World)
      → ((a : A) (rest : List Reply) (u : Trace) → Q a rest u → P a rest u)
      → Finishes Q m
      → Finishes P m
  unfolding Finishes
  map-Finishes Q (ok a, (rs, t)) f h = f a rs t h
  map-Finishes Q (died e, (rs, t)) f h = tt
  map-Finishes Q (waiting, (rs, t)) f h = h
  map-Finishes Q (fault, (rs, t)) f h = absurd h
  map-Finishes Q (out_of_fuel, (rs, t)) f h = absurd h

  -- `R` holds of every reply of the script.
  module _ (R : Reply → Type 0) (rs : List Reply) (t : Trace) (good : All R rs) where
    pub call-Finishes :
        (c : Call) (k : Reply → Prog A)
        → ((r : Reply) (rest : List Reply)
            → R r
            → All R rest
            → length rest < length rs
            → Finishes P (k r (rest, (c, r) ∷ t)))
        → Finishes P (and_then (call c (rs, t)) k)
    unfolding Finishes call
    call-Finishes c k = go rs good
      where
        go :
            (xs : List Reply)
            → All R xs
            → ((r : Reply) (rest : List Reply)
                → R r
                → All R rest
                → length rest < length xs
                → Finishes P (k r (rest, (c, r) ∷ t)))
            → Finishes P (and_then (call c (xs, t)) k)
        go [] g h = refl
        go (r ∷ rest) g h = h r rest g.0 g.1 (omega arith)

    pub ignore-Finishes :
        (c : Call) (k : Unit {0} → Prog A)
        → ((r : Reply) (rest : List Reply)
            → All R rest
            → length rest < length rs
            → Finishes P (k tt (rest, (c, r) ∷ t)))
        → Finishes P (and_then (ignore c (rs, t)) k)
    unfolding Finishes ignore
    ignore-Finishes c k = go rs good
      where
        go :
            (xs : List Reply)
            → All R xs
            → ((r : Reply) (rest : List Reply)
                → All R rest
                → length rest < length xs
                → Finishes P (k tt (rest, (c, r) ∷ t)))
            → Finishes P (and_then (ignore c (xs, t)) k)
        go [] g h = refl
        go (r ∷ rest) g h = h r rest g.1 (omega arith)

    pub nzero_good-Finishes :
        (e : Reason) (c : Call) (k : Reply → Prog A)
        → ((r : Reply) (rest : List Reply)
            → R r
            → is_zero r.code ≡ true
            → All R rest
            → length rest < length rs
            → Finishes P (k r (rest, (c, r) ∷ t)))
        → Finishes P (and_then (zero_or_die e c (rs, t)) k)
    unfolding Finishes call zero_or_die
    nzero_good-Finishes e c k = go rs good
      where
        go :
            (xs : List Reply)
            → All R xs
            → ((r : Reply) (rest : List Reply)
                → R r
                → is_zero r.code ≡ true
                → All R rest
                → length rest < length xs
                → Finishes P (k r (rest, (c, r) ∷ t)))
            → Finishes P (and_then (zero_or_die e c (xs, t)) k)
        go [] g h = refl
        go (r ∷ rest) g h = elim (Bool-cases (is_zero r.code)) [
          | inl p ↦ rw p (h r rest g.0 p g.1 (omega arith))
          | inr p ↦ rw p tt
        ]

    pub nzero-Finishes :
        (e : Reason) (c : Call) (k : Reply → Prog A)
        → ((r : Reply) (rest : List Reply)
            → is_zero r.code ≡ true
            → All R rest
            → length rest < length rs
            → Finishes P (k r (rest, (c, r) ∷ t)))
        → Finishes P (and_then (zero_or_die e c (rs, t)) k)
    nzero-Finishes e c k h = nzero_good-Finishes e c k λ r rest _. h r rest

  module _ (rs : List Reply) (t : Trace) where
    pub tell-Finishes :
        (c : Call) (k : Unit {0} → Prog A)
        → Finishes P (k tt (rs, (c, no_reply) ∷ t))
        → Finishes P (and_then (tell c (rs, t)) k)
    unfolding tell
    tell-Finishes c k h = h

    pub die_if-Finishes :
        (b : Bool) (e : Reason) (k : Unit {0} → Prog A)
        → (b ≡ false → Finishes P (k tt (rs, t)))
        → Finishes P (and_then (die_if b e (rs, t)) k)
    unfolding Finishes die_if
    die_if-Finishes b e k h = elim (Bool-cases b) [ inl p ↦ rw p tt | inr p ↦ rw p (h p) ]

    pub or_fault-Finishes :
        {B : Type 0} (o : Option B) (k : B → Prog A) (b : B)
        → o ≡ some b
        → Finishes P (k b (rs, t))
        → Finishes P (and_then (or_fault o (rs, t)) k)
    unfolding or_fault
    or_fault-Finishes o k b e h = rw e h

    pub strcpy-Finishes :
        (size : ℕ) (s : List ℕ) (k : List ℕ → Prog A)
        → length s < size
        → Finishes P (k s (rs, t))
        → Finishes P (and_then (strcpy size s (rs, t)) k)
    unfolding strcpy
    strcpy-Finishes size s k short h = let e : ltb (length s) size ≡ true = ground arith in rw e h

  -- A poll: `I` is kept by every empty poll, and the rest runs after the first reply that is not 0.
  pub poll-Finishes :
      (R : Reply → Type 0) (I : Trace → Type 0) (rs : List Reply) (t : Trace) (c : Call)
      (k : Reply → Prog A)
      → ((r : Reply) (u : Trace) → is_zero r.code ≡ true → I u → I ((c, r) ∷ u))
      → All R rs
      → I t
      → ((r : Reply) (rest : List Reply) (u : Trace)
          → is_zero r.code ≡ false
          → I u
          → All R rest
          → length rest < length rs
          → Finishes P (k r (rest, (c, r) ∷ u)))
      → Finishes P (and_then (poll c (rs, t)) k)
  unfolding Finishes poll
  poll-Finishes R I [] t c k keep good i h = refl
  poll-Finishes R I (r ∷ rs) t c k keep good i h = elim (Bool-cases (is_zero r.code)) [
    | inl p ↦ rw p (
        poll-Finishes R I rs ((c, r) ∷ t) c k keep good.1 (keep r t p i)
          λ q rest u z j g l. h q rest u z j g (omega (arith, l)))
    | inr p ↦ rw p (h r rs t p i good.1 (omega arith))
  ]

-- A program whose ends do not depend on the replies left, and that ends: what is assumed of the
-- script holds of what is left.
pub Ends-Finishes :
    {A : Type 0} (P : A → Trace → Type 0) (D : Reason → Trace → Type 0) (R : Reply → Type 0)
    (rs : List Reply) (m : Outcome A × World)
    → Ends P D m
    → Halts rs m
    → All R rs
    → Finishes (λ a rest u. P a u × All R rest × (length rest ≤ length rs)) m
unfolding Finishes Ends Halts
Ends-Finishes P D R rs (ok a, (s, t)) h k g = (h, rest-All R s rs k g, rest-length s rs k)
Ends-Finishes P D R rs (died e, _) h k g = tt
Ends-Finishes P D R rs (waiting, (s, t)) h k g = h
Ends-Finishes P D R rs (fault, _) h k g = absurd h
Ends-Finishes P D R rs (out_of_fuel, _) h k g = absurd h

-- What a run that returned has established.
pub Finishes-ok :
    {A : Type 0} (P : A → List Reply → Trace → Type 0) (m : Outcome A × World) {a : A}
    {rs : List Reply} {t : Trace}
    → Finishes P m
    → m ≡ (ok a, (rs, t))
    → P a rs t
unfolding Finishes
Finishes-ok P m {a} {rs} {t} h e = subst (λ x. Finishes P x) e h
