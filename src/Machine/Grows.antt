-- ===== src/Machine/Grows.antt =====
-- A run adds calls of a certain kind to the trace, and takes nothing from it, however it ends.
use rdma_tutorial.Prelude.{
  ℕ, Bool, true, false, Option, none, some, List, [], ◌∷◌, ◌==◌, Bool-cases, inl, inr, length, ltb,
  if◌then◌else◌,
}
use rdma_tutorial.External.{Call, Reply, no_reply, Trace, is_zero}
use rdma_tutorial.Machine.Follows.{Follows, Follows-refl, Follows-trans}
use rdma_tutorial.Machine.Defs.{
  World, Outcome, ok, died, waiting, fault, out_of_fuel, Reason, Prog, and_then, call, tell, die_if,
  fault_if, or_fault, ignore, ignore_if, tell_if, nonnull, zero_or_die, strcpy,
}

-- The run that starts at the trace `t`.
unfoldable pub Grows : {A : Type 0} → (Call → Type 0) → Trace → Outcome A × World → Type 0
Grows Q t (_, (_, u)) = Follows Q t u

-- A program only adds calls with `Q` to the trace.
abbrev pub IsGrowing : {A : Type 0} → (Call → Type 0) → Prog A → Type 0
IsGrowing Q m = (rs : List Reply) (t : Trace) → Grows Q t (m (rs, t))

module _ (Q : Call → Type 0) where
  module _ {A : Type 0} where
    pub stay-Grows : (o : Outcome A) (rs : List Reply) (t : Trace) → Grows Q t (o, (rs, t))
    unfolding Grows
    stay-Grows o rs t = Follows-refl Q t

    pub one-Grows :
        (o : Outcome A) (rs : List Reply) (c : Call) (r : Reply) (t : Trace)
        → Q c
        → Grows Q t (o, (rs, (c, r) ∷ t))
    unfolding Grows
    one-Grows o rs c r t q = inr (q, Follows-refl Q t)

    pub bind-Grows :
        {B : Type 0} (t : Trace) (m : Outcome B × World) (k : B → Prog A)
        → Grows Q t m
        → ((b : B) → IsGrowing Q (k b))
        → Grows Q t (and_then m k)
    unfolding Grows
    bind-Grows t (ok b, (rs, u)) k h g = later (k b (rs, u)) (g b rs u)
      where
        later : (o : Outcome A × World) → Grows Q u o → Grows Q t o
        later (o, (s, v)) p = Follows-trans Q t u v h p
    bind-Grows t (died e, (rs, u)) k h g = h
    bind-Grows t (waiting, (rs, u)) k h g = h
    bind-Grows t (fault, (rs, u)) k h g = h
    bind-Grows t (out_of_fuel, (rs, u)) k h g = h

    pub if-Grows :
        (b : Bool) (x y : Prog A) (rs : List Reply) (t : Trace)
        → Grows Q t (x (rs, t))
        → Grows Q t (y (rs, t))
        → Grows Q t ((if b then x else y) (rs, t))
    if-Grows true x y rs t h g = h
    if-Grows false x y rs t h g = g

  pub call-IsGrowing : (c : Call) → Q c → IsGrowing Q (call c)
  unfolding call
  call-IsGrowing c q [] t = stay-Grows _ _ t
  call-IsGrowing c q (r ∷ rs) t = one-Grows _ rs c r t q

  pub tell-IsGrowing : (c : Call) → Q c → IsGrowing Q (tell c)
  unfolding tell
  tell-IsGrowing c q rs t = one-Grows _ rs c no_reply t q

  pub ignore-IsGrowing : (c : Call) → Q c → IsGrowing Q (ignore c)
  unfolding ignore
  ignore-IsGrowing c q [] t = stay-Grows _ _ t
  ignore-IsGrowing c q (r ∷ rs) t = one-Grows _ rs c r t q

  pub die_if-IsGrowing : (b : Bool) (e : Reason) → IsGrowing Q (die_if b e)
  unfolding die_if
  die_if-IsGrowing true e rs t = stay-Grows _ rs t
  die_if-IsGrowing false e rs t = stay-Grows _ rs t

  pub fault_if-IsGrowing : (b : Bool) → IsGrowing Q (fault_if b)
  unfolding fault_if
  fault_if-IsGrowing true rs t = stay-Grows _ rs t
  fault_if-IsGrowing false rs t = stay-Grows _ rs t

  pub null-IsGrowing : (e : Reason) (c : Call) → Q c → IsGrowing Q (nonnull e c)
  unfolding nonnull
  null-IsGrowing e c q rs t =
      bind-Grows t _ _ (call-IsGrowing c q rs t)
        λ r s u. bind-Grows u _ _ (die_if-IsGrowing (r.ptr == 0) e s u) λ _ s u. stay-Grows _ s u

  pub nzero-IsGrowing : (e : Reason) (c : Call) → Q c → IsGrowing Q (zero_or_die e c)
  unfolding zero_or_die
  nzero-IsGrowing e c q rs t = bind-Grows t _ _ (call-IsGrowing c q rs t) λ r s u.
      elim (Bool-cases (is_zero r.code)) [
        | inl z ↦ rw z (stay-Grows _ s u)
        | inr z ↦ rw z (stay-Grows _ s u)
      ]

  pub or_fault-IsGrowing : {B : Type 0} (o : Option B) → IsGrowing Q (or_fault o)
  unfolding or_fault
  or_fault-IsGrowing none rs t = stay-Grows _ rs t
  or_fault-IsGrowing (some b) rs t = stay-Grows _ rs t

  pub strcpy-IsGrowing : (n : ℕ) (x : List ℕ) → IsGrowing Q (strcpy n x)
  unfolding strcpy
  strcpy-IsGrowing n x rs t = elim (Bool-cases (ltb (length x) n)) [
    | inl z ↦ rw z (stay-Grows _ rs t)
    | inr z ↦ rw z (stay-Grows _ rs t)
  ]

  pub ignore_if-IsGrowing : (p : ℕ) (c : ℕ → Call) → Q (c p) → IsGrowing Q (ignore_if p c)
  unfolding ignore_if
  ignore_if-IsGrowing p c q rs t = elim (Bool-cases (p == 0)) [
    | inl z ↦ rw z (stay-Grows _ rs t)
    | inr z ↦ rw z (ignore-IsGrowing (c p) q rs t)
  ]

  pub tell_if-IsGrowing : (p : ℕ) (c : ℕ → Call) → Q (c p) → IsGrowing Q (tell_if p c)
  unfolding tell_if
  tell_if-IsGrowing p c q rs t = elim (Bool-cases (p == 0)) [
    | inl z ↦ rw z (stay-Grows _ rs t)
    | inr z ↦ rw z (tell-IsGrowing (c p) q rs t)
  ]

  -- A call, and the rest of the program.
  module _ {A : Type 0} (rs : List Reply) (t : Trace) where
    pub call-Grows :
        (c : Call) (k : Reply → Prog A)
        → Q c
        → ((x : Reply) → IsGrowing Q (k x))
        → Grows Q t (and_then (call c (rs, t)) k)
    call-Grows c k q g = bind-Grows t _ k (call-IsGrowing c q rs t) g

    pub tell-Grows :
        (c : Call) (k : Unit {0} → Prog A)
        → Q c
        → ((x : Unit {0}) → IsGrowing Q (k x))
        → Grows Q t (and_then (tell c (rs, t)) k)
    tell-Grows c k q g = bind-Grows t _ k (tell-IsGrowing c q rs t) g

    pub ignore-Grows :
        (c : Call) (k : Unit {0} → Prog A)
        → Q c
        → ((x : Unit {0}) → IsGrowing Q (k x))
        → Grows Q t (and_then (ignore c (rs, t)) k)
    ignore-Grows c k q g = bind-Grows t _ k (ignore-IsGrowing c q rs t) g

    pub die_if-Grows :
        (b : Bool) (e : Reason) (k : Unit {0} → Prog A)
        → ((x : Unit {0}) → IsGrowing Q (k x))
        → Grows Q t (and_then (die_if b e (rs, t)) k)
    die_if-Grows b e k g = bind-Grows t _ k (die_if-IsGrowing b e rs t) g

    pub fault_if-Grows :
        (b : Bool) (k : Unit {0} → Prog A)
        → ((x : Unit {0}) → IsGrowing Q (k x))
        → Grows Q t (and_then (fault_if b (rs, t)) k)
    fault_if-Grows b k g = bind-Grows t _ k (fault_if-IsGrowing b rs t) g

    pub null-Grows :
        (e : Reason) (c : Call) (k : ℕ → Prog A)
        → Q c
        → ((x : ℕ) → IsGrowing Q (k x))
        → Grows Q t (and_then (nonnull e c (rs, t)) k)
    null-Grows e c k q g = bind-Grows t _ k (null-IsGrowing e c q rs t) g

    pub nzero-Grows :
        (e : Reason) (c : Call) (k : Reply → Prog A)
        → Q c
        → ((x : Reply) → IsGrowing Q (k x))
        → Grows Q t (and_then (zero_or_die e c (rs, t)) k)
    nzero-Grows e c k q g = bind-Grows t _ k (nzero-IsGrowing e c q rs t) g

    pub or_fault-Grows :
        {B : Type 0} (o : Option B) (k : B → Prog A)
        → ((x : B) → IsGrowing Q (k x))
        → Grows Q t (and_then (or_fault o (rs, t)) k)
    or_fault-Grows o k g = bind-Grows t _ k (or_fault-IsGrowing o rs t) g

    pub strcpy-Grows :
        (n : ℕ) (x : List ℕ) (k : List ℕ → Prog A)
        → ((x : List ℕ) → IsGrowing Q (k x))
        → Grows Q t (and_then (strcpy n x (rs, t)) k)
    strcpy-Grows n x k g = bind-Grows t _ k (strcpy-IsGrowing n x rs t) g

    pub ignore_if-Grows :
        (p : ℕ) (c : ℕ → Call) (k : Unit {0} → Prog A)
        → Q (c p)
        → ((x : Unit {0}) → IsGrowing Q (k x))
        → Grows Q t (and_then (ignore_if p c (rs, t)) k)
    ignore_if-Grows p c k q g = bind-Grows t _ k (ignore_if-IsGrowing p c q rs t) g

    pub tell_if-Grows :
        (p : ℕ) (c : ℕ → Call) (k : Unit {0} → Prog A)
        → Q (c p)
        → ((x : Unit {0}) → IsGrowing Q (k x))
        → Grows Q t (and_then (tell_if p c (rs, t)) k)
    tell_if-Grows p c k q g = bind-Grows t _ k (tell_if-IsGrowing p c q rs t) g

pub ruleset growing = (
  stay-Grows, call-Grows, tell-Grows, ignore-Grows, die_if-Grows, fault_if-Grows, null-Grows,
  nzero-Grows, or_fault-Grows, strcpy-Grows, ignore_if-Grows, tell_if-Grows, bind-Grows, if-Grows,
  call-IsGrowing, tell-IsGrowing, ignore-IsGrowing, tt,
)
