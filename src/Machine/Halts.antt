-- ===== src/Machine/Halts.antt =====
-- A run that ends without using up the fuel of a loop, and what it leaves of the script. The rules
-- have the form of the programs, so that `search halting` takes a program apart.
use rdma_tutorial.Prelude.{
  ℕ, ◌<◌, ◌≤◌, Bool, true, false, Option, none, some, List, [], ◌∷◌, ◌==◌, length, All, inl, inr,
  if◌then◌else◌, Bool-cases, ltb, arith,
}
use rdma_tutorial.Machine.Rest.{IsRest, IsRest-refl, IsRest-trans}
use rdma_tutorial.External.{Call, Reply, no_reply, Trace, is_zero}
use rdma_tutorial.Machine.Defs.{
  World, Outcome, ok, died, waiting, fault, out_of_fuel, Reason, Prog, and_then, call, tell, die_if,
  fault_if, or_fault, ignore, ignore_if, tell_if, poll, nonnull, zero_or_die, strcpy,
}

pub rest-All : (R : Reply → Type 0) (rest rs : List Reply) → IsRest rest rs → All R rs → All R rest
rest-All R rest [] p g = rw p tt
rest-All R rest (r ∷ rs) (inl p) g = rw p g
rest-All R rest (r ∷ rs) (inr p) g = rest-All R rest rs p g.1

pub rest-length : (rest rs : List Reply) → IsRest rest rs → length rest ≤ length rs
rest-length rest [] p = rw p (omega arith)
rest-length rest (r ∷ rs) (inl p) = rw p (omega arith)
rest-length rest (r ∷ rs) (inr p) = omega (arith, rest-length rest rs p)

-- `m` ends within its fuel, and leaves a rest of `rs` if it returns.
unfoldable pub Halts : {A : Type 0} → List Reply → Outcome A × World → Type 0
Halts rs (ok a, (rest, t)) = IsRest rest rs
Halts rs (died _, _) = Unit
Halts rs (waiting, _) = Unit
Halts rs (fault, _) = Unit
Halts rs (out_of_fuel, _) = ⊥

module _ {A : Type 0} where
  pub ok-Halts : (a : A) (rs : List Reply) (t : Trace) → Halts rs (ok a, (rs, t))
  unfolding Halts
  ok-Halts a rs t = IsRest-refl rs

  -- from a rest of the script on
  pub rest-Halts :
      (rs rest : List Reply) (m : Outcome A × World) → IsRest rest rs → Halts rest m → Halts rs m
  unfolding Halts
  rest-Halts rs rest (ok a, (s, t)) p h = IsRest-trans s rest rs h p
  rest-Halts rs rest (died e, (s, t)) p h = tt
  rest-Halts rs rest (waiting, (s, t)) p h = tt
  rest-Halts rs rest (fault, (s, t)) p h = tt
  rest-Halts rs rest (out_of_fuel, (s, t)) p h = h

  pub bind-Halts :
      {B : Type 0} (rs : List Reply) (m : Outcome B × World) (k : B → Prog A)
      → Halts rs m
      → ((b : B) (rest : List Reply) (u : Trace) → IsRest rest rs → Halts rest (k b (rest, u)))
      → Halts rs (and_then m k)
  unfolding Halts
  bind-Halts rs (ok b, (s, t)) k h g = rest-Halts rs s (k b (s, t)) h (g b s t h)
  bind-Halts rs (died e, (s, t)) k h g = tt
  bind-Halts rs (waiting, (s, t)) k h g = tt
  bind-Halts rs (fault, (s, t)) k h g = tt
  bind-Halts rs (out_of_fuel, (s, t)) k h g = absurd h

  pub if-Halts :
      (b : Bool) (x y : Prog A) (rs : List Reply) (t : Trace)
      → Halts rs (x (rs, t))
      → Halts rs (y (rs, t))
      → Halts rs ((if b then x else y) (rs, t))
  if-Halts true x y rs t h g = h
  if-Halts false x y rs t h g = g

  module _ (rs : List Reply) (t : Trace) where
    pub call-Halts :
        (c : Call) (k : Reply → Prog A)
        → ((r : Reply) (rest : List Reply)
            → length rest < length rs
            → Halts rest (k r (rest, (c, r) ∷ t)))
        → Halts rs (and_then (call c (rs, t)) k)
    unfolding Halts call
    call-Halts c k h = go rs h
      where
        go :
            (xs : List Reply)
            → ((r : Reply) (rest : List Reply)
                → length rest < length xs
                → Halts rest (k r (rest, (c, r) ∷ t)))
            → Halts xs (and_then (call c (xs, t)) k)
        go [] g = tt
        go (r ∷ rest) g =
            rest-Halts (r ∷ rest) rest _ (inr (IsRest-refl rest)) (g r rest (omega arith))

    pub tell-Halts :
        (c : Call) (k : Unit {0} → Prog A)
        → Halts rs (k tt (rs, (c, no_reply) ∷ t))
        → Halts rs (and_then (tell c (rs, t)) k)
    unfolding tell
    tell-Halts c k h = h

    pub die_if-Halts :
        (b : Bool) (e : Reason) (k : Unit {0} → Prog A)
        → Halts rs (k tt (rs, t))
        → Halts rs (and_then (die_if b e (rs, t)) k)
    unfolding Halts die_if
    die_if-Halts true e k h = tt
    die_if-Halts false e k h = h

    pub fault_if-Halts :
        (b : Bool) (k : Unit {0} → Prog A)
        → Halts rs (k tt (rs, t))
        → Halts rs (and_then (fault_if b (rs, t)) k)
    unfolding Halts fault_if
    fault_if-Halts true k h = tt
    fault_if-Halts false k h = h

    pub or_fault-Halts :
        {B : Type 0} (o : Option B) (k : B → Prog A)
        → ((b : B) → Halts rs (k b (rs, t)))
        → Halts rs (and_then (or_fault o (rs, t)) k)
    unfolding Halts or_fault
    or_fault-Halts none k h = tt
    or_fault-Halts (some b) k h = h b

    pub strcpy-Halts :
        (size : ℕ) (x : List ℕ) (k : List ℕ → Prog A)
        → Halts rs (k x (rs, t))
        → Halts rs (and_then (strcpy size x (rs, t)) k)
    unfolding Halts strcpy
    strcpy-Halts size x k h = elim (Bool-cases (ltb (length x) size)) [
      | inl p ↦ rw p h
      | inr p ↦ rw p tt
    ]

    pub null-Halts :
        (e : Reason) (c : Call) (k : ℕ → Prog A)
        → ((r : Reply) (rest : List Reply)
            → length rest < length rs
            → Halts rest (k r.ptr (rest, (c, r) ∷ t)))
        → Halts rs (and_then (nonnull e c (rs, t)) k)
    unfolding Halts nonnull call die_if
    null-Halts e c k h = go rs h
      where
        go :
            (xs : List Reply)
            → ((r : Reply) (rest : List Reply)
                → length rest < length xs
                → Halts rest (k r.ptr (rest, (c, r) ∷ t)))
            → Halts xs (and_then (nonnull e c (xs, t)) k)
        go [] g = tt
        go (r ∷ rest) g = elim (Bool-cases (r.ptr == 0)) [
          | inl p ↦ rw p tt
          | inr p ↦
              rw p (rest-Halts (r ∷ rest) rest _ (inr (IsRest-refl rest)) (g r rest (omega arith)))
        ]

    pub nzero-Halts :
        (e : Reason) (c : Call) (k : Reply → Prog A)
        → ((r : Reply) (rest : List Reply)
            → length rest < length rs
            → Halts rest (k r (rest, (c, r) ∷ t)))
        → Halts rs (and_then (zero_or_die e c (rs, t)) k)
    unfolding Halts zero_or_die call
    nzero-Halts e c k h = go rs h
      where
        go :
            (xs : List Reply)
            → ((r : Reply) (rest : List Reply)
                → length rest < length xs
                → Halts rest (k r (rest, (c, r) ∷ t)))
            → Halts xs (and_then (zero_or_die e c (xs, t)) k)
        go [] g = tt
        go (r ∷ rest) g = elim (Bool-cases (is_zero r.code)) [
          | inl p ↦
              rw p (rest-Halts (r ∷ rest) rest _ (inr (IsRest-refl rest)) (g r rest (omega arith)))
          | inr p ↦ rw p tt
        ]

    pub ignore-Halts :
        (c : Call) (k : Unit {0} → Prog A)
        → ((r : Reply) (rest : List Reply)
            → length rest < length rs
            → Halts rest (k tt (rest, (c, r) ∷ t)))
        → Halts rs (and_then (ignore c (rs, t)) k)
    unfolding Halts ignore
    ignore-Halts c k h = go rs h
      where
        go :
            (xs : List Reply)
            → ((r : Reply) (rest : List Reply)
                → length rest < length xs
                → Halts rest (k tt (rest, (c, r) ∷ t)))
            → Halts xs (and_then (ignore c (xs, t)) k)
        go [] g = tt
        go (r ∷ rest) g =
            rest-Halts (r ∷ rest) rest _ (inr (IsRest-refl rest)) (g r rest (omega arith))

  pub poll-Halts :
      (rs : List Reply) (t : Trace) (c : Call) (k : Reply → Prog A)
      → ((r : Reply) (rest : List Reply) (u : Trace)
          → length rest < length rs
          → Halts rest (k r (rest, u)))
      → Halts rs (and_then (poll c (rs, t)) k)
  unfolding Halts poll
  poll-Halts [] t c k h = tt
  poll-Halts (r ∷ rs) t c k h = elim (Bool-cases (is_zero r.code)) [
    | inl p ↦ rw p (
        rest-Halts (r ∷ rs) rs _ (inr (IsRest-refl rs))
          (poll-Halts rs ((c, r) ∷ t) c k λ q rest u l. h q rest u (omega (arith, l))))
    | inr p ↦
        rw p (rest-Halts (r ∷ rs) rs _ (inr (IsRest-refl rs)) (h r rs ((c, r) ∷ t) (omega arith)))
  ]

-- calls with nothing after them
pub last_tell-Halts : (rs : List Reply) (t : Trace) (c : Call) → Halts rs (tell c (rs, t))
unfolding Halts tell
last_tell-Halts rs t c = IsRest-refl rs

pub last_ignore-Halts : (rs : List Reply) (t : Trace) (c : Call) → Halts rs (ignore c (rs, t))
unfolding Halts ignore
last_ignore-Halts [] t c = tt
last_ignore-Halts (r ∷ rs) t c = inr (IsRest-refl rs)

pub last_ignore_if-Halts :
    (p : ℕ) (c : ℕ → Call) (rs : List Reply) (t : Trace) → Halts rs (ignore_if p c (rs, t))
unfolding ignore_if
last_ignore_if-Halts p c rs t = elim (Bool-cases (p == 0)) [
  | inl e ↦ rw e (ok-Halts tt rs t)
  | inr e ↦ rw e (last_ignore-Halts rs t (c p))
]

pub last_tell_if-Halts :
    (p : ℕ) (c : ℕ → Call) (rs : List Reply) (t : Trace) → Halts rs (tell_if p c (rs, t))
unfolding tell_if
last_tell_if-Halts p c rs t = elim (Bool-cases (p == 0)) [
  | inl e ↦ rw e (ok-Halts tt rs t)
  | inr e ↦ rw e (last_tell-Halts rs t (c p))
]

pub last_die_if-Halts :
    (b : Bool) (e : Reason) (rs : List Reply) (t : Trace) → Halts rs (die_if b e (rs, t))
unfolding Halts die_if
last_die_if-Halts true e rs t = tt
last_die_if-Halts false e rs t = IsRest-refl rs

pub ignore_if-Halts :
    {A : Type 0} (p : ℕ) (c : ℕ → Call) (k : Unit {0} → Prog A) (rs : List Reply) (t : Trace)
    → ((rest : List Reply) (u : Trace) → Halts rest (k tt (rest, u)))
    → Halts rs (and_then (ignore_if p c (rs, t)) k)
unfolding ignore_if
ignore_if-Halts p c k rs t h = elim (Bool-cases (p == 0)) [
  | inl e ↦ rw e (h rs t)
  | inr e ↦ rw e (ignore-Halts rs t (c p) k λ r rest l. h rest ((c p, r) ∷ t))
]

pub tell_if-Halts :
    {A : Type 0} (p : ℕ) (c : ℕ → Call) (k : Unit {0} → Prog A) (rs : List Reply) (t : Trace)
    → ((rest : List Reply) (u : Trace) → Halts rest (k tt (rest, u)))
    → Halts rs (and_then (tell_if p c (rs, t)) k)
unfolding tell_if
tell_if-Halts p c k rs t h = elim (Bool-cases (p == 0)) [
  | inl e ↦ rw e (h rs t)
  | inr e ↦ rw e (tell-Halts rs t (c p) k (h rs ((c p, no_reply) ∷ t)))
]

pub died-Halts :
    (A : Type 0) (e : Reason) (rs : List Reply) (t : Trace) → Halts {A = A} rs (died e, (rs, t))
unfolding Halts
died-Halts A e rs t = tt

pub ruleset halting = (
  last_tell-Halts, last_ignore-Halts, last_die_if-Halts, last_ignore_if-Halts, last_tell_if-Halts,
  died-Halts, bind-Halts, poll-Halts, ok-Halts, call-Halts, tell-Halts, die_if-Halts,
  fault_if-Halts, or_fault-Halts, strcpy-Halts, null-Halts, nzero-Halts, ignore-Halts,
  ignore_if-Halts, tell_if-Halts, if-Halts,
)
