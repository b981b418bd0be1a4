-- ===== src/Machine/Ends.antt =====
-- How a run of a program may end, and a rule for each way to call a library.
use rdma_tutorial.Prelude.{
  ℕ, ◌≡◌, refl, Bool, Option, some, true, false, not, ◌||◌, List, [], ◌∷◌, ◌==◌, Bool-cases, inl,
  inr, arith,
}
use rdma_tutorial.External.{Call, Reply, no_reply, Trace, is_zero}
use rdma_tutorial.Machine.Defs.{
  World, Outcome, ok, died, waiting, fault, out_of_fuel, Reason, Prog, and_then, call, tell, die_if,
  or_fault, ignore, ignore_if, tell_if, poll, nonnull, zero_or_die,
}

-- A run returns with `P` of its result and the trace, or dies with `D` of the reason and the trace,
-- or waits for a reply, with the script used up. It
-- meets no fault, and no loop of it runs out of fuel.
unfoldable pub Ends :
    {A : Type 0} → (A → Trace → Type 0) → (Reason → Trace → Type 0) → Outcome A × World → Type 0
Ends P D (ok a, (_, t)) = P a t
Ends P D (died e, (_, t)) = D e t
Ends P D (waiting, (rs, _)) = rs ≡ []
Ends P D (fault, _) = ⊥
Ends P D (out_of_fuel, _) = ⊥

-- The newest reply is a NULL pointer or a return value other than zero.
abbrev pub Refused : Reason → Trace → Type 0
Refused _ [] = ⊥
Refused _ ((_, r) ∷ _) = (r.ptr == 0 || not (is_zero r.code)) ≡ true

pub null-Refused :
    (e : Reason) (c : Call) (t : Trace) (r : Reply) → (r.ptr == 0) ≡ true → Refused e ((c, r) ∷ t)
null-Refused e c t r h = ground arith

pub nzero-Refused :
    (e : Reason) (c : Call) (t : Trace) (r : Reply)
    → is_zero r.code ≡ false
    → Refused e ((c, r) ∷ t)
nzero-Refused e c t r h = ground arith

module _ {A : Type 0} (P : A → Trace → Type 0) (D : Reason → Trace → Type 0) where
  pub ok-Ends : (a : A) (rs : List Reply) (t : Trace) → P a t → Ends P D (ok a, (rs, t))
  unfolding Ends
  ok-Ends a rs t h = h

  pub died-Ends : (e : Reason) (rs : List Reply) (t : Trace) → D e t → Ends P D (died e, (rs, t))
  unfolding Ends
  died-Ends e rs t h = h

  -- A part that ends well, followed by the rest of the program.
  pub bind-Ends :
      {B : Type 0} (Q : B → Trace → Type 0) (m : Outcome B × World) (k : B → Prog A)
      → Ends Q D m
      → ((b : B) (rest : List Reply) (u : Trace) → Q b u → Ends P D (k b (rest, u)))
      → Ends P D (and_then m k)
  unfolding Ends
  bind-Ends Q (ok b, (rs, t)) k h g = g b rs t h
  bind-Ends Q (died e, (rs, t)) k h g = h
  bind-Ends Q (waiting, (rs, t)) k h g = h
  bind-Ends Q (fault, (rs, t)) k h g = absurd h
  bind-Ends Q (out_of_fuel, (rs, t)) k h g = absurd h

  module _ (rs : List Reply) (t : Trace) where
    pub call-Ends :
        (c : Call) (k : Reply → Prog A)
        → ((r : Reply) (rest : List Reply) → Ends P D (k r (rest, (c, r) ∷ t)))
        → Ends P D (and_then (call c (rs, t)) k)
    unfolding Ends call
    call-Ends c k h = elim rs as (λ xs. Ends P D (and_then (call c (xs, t)) k)) [
      | [] ↦ refl
      | r ∷ rest ↦ h r rest
    ]

    pub tell-Ends :
        (c : Call) (k : Unit {0} → Prog A)
        → Ends P D (k tt (rs, (c, no_reply) ∷ t))
        → Ends P D (and_then (tell c (rs, t)) k)
    unfolding tell
    tell-Ends c k h = h

    pub null-Ends :
        (e : Reason) (c : Call) (k : ℕ → Prog A)
        → ((r : Reply) → (r.ptr == 0) ≡ true → D e ((c, r) ∷ t))
        → ((r : Reply) (rest : List Reply)
            → (r.ptr == 0) ≡ false
            → Ends P D (k r.ptr (rest, (c, r) ∷ t)))
        → Ends P D (and_then (nonnull e c (rs, t)) k)
    unfolding Ends call nonnull die_if
    null-Ends e c k d h = elim rs as (λ xs. Ends P D (and_then (nonnull e c (xs, t)) k)) [
      | [] ↦ refl
      | r ∷ rest ↦ elim (Bool-cases (r.ptr == 0)) [
        | inl p ↦ rw p (d r p)
        | inr p ↦ rw p (h r rest p)
      ]
    ]

    pub nzero-Ends :
        (e : Reason) (c : Call) (k : Reply → Prog A)
        → ((r : Reply) → is_zero r.code ≡ false → D e ((c, r) ∷ t))
        → ((r : Reply) (rest : List Reply)
            → is_zero r.code ≡ true
            → Ends P D (k r (rest, (c, r) ∷ t)))
        → Ends P D (and_then (zero_or_die e c (rs, t)) k)
    unfolding Ends call zero_or_die
    nzero-Ends e c k d h = elim rs as (λ xs. Ends P D (and_then (zero_or_die e c (xs, t)) k)) [
      | [] ↦ refl
      | r ∷ rest ↦ elim (Bool-cases (is_zero r.code)) [
        | inl p ↦ rw p (h r rest p)
        | inr p ↦ rw p (d r p)
      ]
    ]

    pub die_if-Ends :
        (b : Bool) (e : Reason) (k : Unit {0} → Prog A)
        → (b ≡ true → D e t)
        → (b ≡ false → Ends P D (k tt (rs, t)))
        → Ends P D (and_then (die_if b e (rs, t)) k)
    unfolding Ends die_if
    die_if-Ends b e k d h = elim (Bool-cases b) [ inl p ↦ rw p (d p) | inr p ↦ rw p (h p) ]

    pub or_fault-Ends :
        {B : Type 0} (o : Option B) (k : B → Prog A)
        → (b : B) → o ≡ some b
        → Ends P D (k b (rs, t))
        → Ends P D (and_then (or_fault o (rs, t)) k)
    unfolding or_fault
    or_fault-Ends o k b e h = rw e h

    pub ignore-Ends :
        (c : Call) (k : Unit {0} → Prog A)
        → ((r : Reply) (rest : List Reply) → Ends P D (k tt (rest, (c, r) ∷ t)))
        → Ends P D (and_then (ignore c (rs, t)) k)
    unfolding Ends ignore
    ignore-Ends c k h = elim rs as (λ xs. Ends P D (and_then (ignore c (xs, t)) k)) [
      | [] ↦ refl
      | r ∷ rest ↦ h r rest
    ]

    -- the guard of `if (p) f(p);` where the pointer is known not to be NULL
    pub ignore_if-Ends :
        (p : ℕ) (c : ℕ → Call) (k : Unit {0} → Prog A)
        → (p == 0) ≡ false
        → ((r : Reply) (rest : List Reply) → Ends P D (k tt (rest, (c p, r) ∷ t)))
        → Ends P D (and_then (ignore_if p c (rs, t)) k)
    unfolding ignore_if
    ignore_if-Ends p c k n h = rw n (ignore-Ends (c p) k h)

    pub tell_if-Ends :
        (p : ℕ) (c : ℕ → Call) (k : Unit {0} → Prog A)
        → (p == 0) ≡ false
        → Ends P D (k tt (rs, (c p, no_reply) ∷ t))
        → Ends P D (and_then (tell_if p c (rs, t)) k)
    unfolding tell_if tell
    tell_if-Ends p c k n h = rw n h

  -- A poll: `I` is kept by every empty poll, and the rest runs after the first reply that is not 0.
  pub poll-Ends :
      (I : Trace → Type 0) (rs : List Reply) (t : Trace) (c : Call) (k : Reply → Prog A)
      → ((r : Reply) (u : Trace) → is_zero r.code ≡ true → I u → I ((c, r) ∷ u))
      → I t
      → ((r : Reply) (rest : List Reply) (u : Trace)
          → is_zero r.code ≡ false
          → I u
          → Ends P D (k r (rest, (c, r) ∷ u)))
      → Ends P D (and_then (poll c (rs, t)) k)
  unfolding Ends poll
  poll-Ends I [] t c k keep i h = refl
  poll-Ends I (r ∷ rs) t c k keep i h = elim (Bool-cases (is_zero r.code)) [
    | inl p ↦ rw p (poll-Ends I rs ((c, r) ∷ t) c k keep (keep r t p i) h)
    | inr p ↦ rw p (h r rs t p i)
  ]

pub weaken-Ends :
    {A : Type 0} (P : A → Trace → Type 0) (D E : Reason → Trace → Type 0) (m : Outcome A × World)
    → ((e : Reason) (u : Trace) → D e u → E e u)
    → Ends P D m
    → Ends P E m
unfolding Ends
weaken-Ends P D E (ok a, (_, t)) f h = h
weaken-Ends P D E (died e, (_, t)) f h = f e t h
weaken-Ends P D E (waiting, (_, t)) f h = h
weaken-Ends P D E (fault, (_, t)) f h = absurd h
weaken-Ends P D E (out_of_fuel, (_, t)) f h = absurd h

pub map-Ends :
    {A : Type 0} (P Q : A → Trace → Type 0) (D : Reason → Trace → Type 0) (m : Outcome A × World)
    → ((a : A) (u : Trace) → P a u → Q a u)
    → Ends P D m
    → Ends Q D m
unfolding Ends
map-Ends P Q D (ok a, (_, t)) f h = f a t h
map-Ends P Q D (died e, (_, t)) f h = h
map-Ends P Q D (waiting, (_, t)) f h = h
map-Ends P Q D (fault, (_, t)) f h = absurd h
map-Ends P Q D (out_of_fuel, (_, t)) f h = absurd h

-- What a run that returned has established.
pub Ends-ok :
    {A : Type 0} (P : A → Trace → Type 0) (D : Reason → Trace → Type 0) (m : Outcome A × World)
    (a : A) (rs : List Reply) (t : Trace)
    → Ends P D m
    → m ≡ (ok a, (rs, t))
    → P a t
unfolding Ends
Ends-ok P D m a rs t h e = rw e at h

-- Rules for the last call of a program.
module _ (P : Unit {0} → Trace → Type 0) (D : Reason → Trace → Type 0) (rs : List Reply)
    (t : Trace) where
  pub tell-last : (c : Call) → P tt ((c, no_reply) ∷ t) → Ends P D (tell c (rs, t))
  unfolding Ends tell
  tell-last c h = h

  pub ignore-last :
      (c : Call)
      → ((r : Reply) (rest : List Reply) → P tt ((c, r) ∷ t))
      → Ends P D (ignore c (rs, t))
  unfolding Ends ignore
  ignore-last c h = elim rs as (λ xs. Ends P D (ignore c (xs, t))) [
    | [] ↦ refl
    | r ∷ rest ↦ h r rest
  ]

  pub die_if-last :
      (b : Bool) (e : Reason)
      → (b ≡ true → D e t)
      → (b ≡ false → P tt t)
      → Ends P D (die_if b e (rs, t))
  unfolding Ends die_if
  die_if-last b e d h = elim (Bool-cases b) [ inl p ↦ rw p (d p) | inr p ↦ rw p (h p) ]

  pub tell_if-last :
      (p : ℕ) (c : ℕ → Call)
      → (p == 0) ≡ false
      → P tt ((c p, no_reply) ∷ t)
      → Ends P D (tell_if p c (rs, t))
  unfolding Ends tell_if tell
  tell_if-last p c n h = rw n h

-- The two rules for a program whose only way to die is a refused call.
module _ {A : Type 0} (P : A → Trace → Type 0) (rs : List Reply) (t : Trace) where
  pub null-step :
      (e : Reason) (c : Call) (k : ℕ → Prog A)
      → ((r : Reply) (rest : List Reply)
          → (r.ptr == 0) ≡ false
          → Ends P Refused (k r.ptr (rest, (c, r) ∷ t)))
      → Ends P Refused (and_then (nonnull e c (rs, t)) k)
  null-step e c k h = null-Ends P Refused rs t e c k (null-Refused e c t) h

  pub nzero-step :
      (e : Reason) (c : Call) (k : Reply → Prog A)
      → ((r : Reply) (rest : List Reply)
          → is_zero r.code ≡ true
          → Ends P Refused (k r (rest, (c, r) ∷ t)))
      → Ends P Refused (and_then (zero_or_die e c (rs, t)) k)
  nzero-step e c k h = nzero-Ends P Refused rs t e c k (nzero-Refused e c t) h
