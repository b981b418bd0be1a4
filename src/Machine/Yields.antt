-- ===== src/Machine/Yields.antt =====
-- What holds of the result of a run that returns, and when a run may fault. The rules have the form
-- of the programs, as those of Halts.
use rdma_tutorial.Prelude.{ℕ, Bool, true, false, [], ◌∷◌, ◌==◌, Bool-cases, inl, inr}
use rdma_tutorial.External.{Call, Reply, is_zero}
use rdma_tutorial.Machine.Defs.{
  World, Outcome, ok, died, waiting, fault, out_of_fuel, Reason, Prog, and_then, call, tell, die_if,
  fault_if, ignore, ignore_if, tell_if, nonnull, zero_or_die,
}

-- If the run returns, its result has `P`; if it faults, `F` holds.
unfoldable pub Yields : {A : Type 0} → (A → Type 0) → Type 0 → Outcome A × World → Type 0
Yields P F (ok a, _) = P a
Yields P F (died _, _) = Unit
Yields P F (waiting, _) = Unit
Yields P F (fault, _) = F
Yields P F (out_of_fuel, _) = Unit

-- No run of a program faults.
abbrev pub NoFault : {A : Type 0} → Prog A → Type 0
NoFault m = (w : World) → Yields (λ _. Unit) ⊥ (m w)

module _ {A : Type 0} (P : A → Type 0) (F : Type 0) where
  pub ok-Yields : (a : A) (w : World) → P a → Yields P F (ok a, w)
  unfolding Yields
  ok-Yields a w h = h

  pub bind-Yields :
      {B : Type 0} (Q : B → Type 0) (m : Outcome B × World) (k : B → Prog A)
      → Yields Q F m
      → ((b : B) (w : World) → Q b → Yields P F (k b w))
      → Yields P F (and_then m k)
  unfolding Yields
  bind-Yields Q (ok b, w) k h g = g b w h
  bind-Yields Q (died e, w) k h g = tt
  bind-Yields Q (waiting, w) k h g = tt
  bind-Yields Q (fault, w) k h g = h
  bind-Yields Q (out_of_fuel, w) k h g = tt

  -- after a part that never faults, and whatever it returns
  pub then-Yields :
      {B : Type 0} (m : Prog B) (k : B → Prog A) (w : World)
      → NoFault m
      → ((b : B) (v : World) → Yields P F (k b v))
      → Yields P F (and_then (m w) k)
  unfolding Yields
  then-Yields {B = B} m k w h g = go (m w) (h w)
    where
      go : (o : Outcome B × World) → Yields (λ _. Unit) ⊥ o → Yields P F (and_then o k)
      go (ok b, v) e = g b v
      go (died e, v) h = tt
      go (waiting, v) h = tt
      go (fault, v) h = absurd h
      go (out_of_fuel, v) h = tt

pub call-NoFault : (c : Call) → NoFault (call c)
unfolding Yields call
call-NoFault c ([], t) = tt
call-NoFault c (r ∷ rs, t) = tt

pub tell-NoFault : (c : Call) → NoFault (tell c)
unfolding Yields tell
tell-NoFault c (rs, t) = tt

pub ignore-NoFault : (c : Call) → NoFault (ignore c)
unfolding Yields ignore
ignore-NoFault c ([], t) = tt
ignore-NoFault c (r ∷ rs, t) = tt

pub die_if-NoFault : (b : Bool) (e : Reason) → NoFault (die_if b e)
unfolding Yields die_if
die_if-NoFault true e w = tt
die_if-NoFault false e w = tt

pub null-NoFault : (e : Reason) (c : Call) → NoFault (nonnull e c)
unfolding nonnull
null-NoFault e c w = then-Yields _ _ (call c) _ w (call-NoFault c) λ r v.
    then-Yields _ _ (die_if (r.ptr == 0) e) _ v (die_if-NoFault _ e) λ _ u. ok-Yields _ _ _ u tt

pub nzero-NoFault : (e : Reason) (c : Call) → NoFault (zero_or_die e c)
unfolding zero_or_die Yields
nzero-NoFault e c w =
    then-Yields _ _ (call c) _ w (call-NoFault c)
      λ r v. elim (Bool-cases (is_zero r.code)) [ inl z ↦ rw z tt | inr z ↦ rw z tt ]

pub ignore_if-NoFault : (p : ℕ) (c : ℕ → Call) → NoFault (ignore_if p c)
unfolding ignore_if Yields
ignore_if-NoFault p c w = elim (Bool-cases (p == 0)) [
  | inl z ↦ rw z tt
  | inr z ↦ rw z (ignore-NoFault (c p) w)
]

pub tell_if-NoFault : (p : ℕ) (c : ℕ → Call) → NoFault (tell_if p c)
unfolding tell_if Yields
tell_if-NoFault p c w = elim (Bool-cases (p == 0)) [
  | inl z ↦ rw z tt
  | inr z ↦ rw z (tell-NoFault (c p) w)
]

-- A call, and the rest of the program.
module _ {A : Type 0} (P : A → Type 0) (F : Type 0) where
  pub call-Yields :
      (c : Call) (k : Reply → Prog A) (w : World)
      → ((x : Reply) (v : World) → Yields P F (k x v))
      → Yields P F (and_then (call c w) k)
  call-Yields c k w g = then-Yields P F (call c) k w (call-NoFault c) g

  pub tell-Yields :
      (c : Call) (k : Unit {0} → Prog A) (w : World)
      → ((x : Unit {0}) (v : World) → Yields P F (k x v))
      → Yields P F (and_then (tell c w) k)
  tell-Yields c k w g = then-Yields P F (tell c) k w (tell-NoFault c) g

  pub ignore-Yields :
      (c : Call) (k : Unit {0} → Prog A) (w : World)
      → ((x : Unit {0}) (v : World) → Yields P F (k x v))
      → Yields P F (and_then (ignore c w) k)
  ignore-Yields c k w g = then-Yields P F (ignore c) k w (ignore-NoFault c) g

  pub die_if-Yields :
      (b : Bool) (e : Reason) (k : Unit {0} → Prog A) (w : World)
      → ((x : Unit {0}) (v : World) → Yields P F (k x v))
      → Yields P F (and_then (die_if b e w) k)
  die_if-Yields b e k w g = then-Yields P F (die_if b e) k w (die_if-NoFault b e) g

  pub fault_if-Yields :
      (b : Bool) (k : Unit {0} → Prog A) (w : World)
      → F
      → ((x : Unit {0}) (v : World) → Yields P F (k x v))
      → Yields P F (and_then (fault_if b w) k)
  unfolding Yields fault_if
  fault_if-Yields true k w f g = f
  fault_if-Yields false k w f g = g tt w

  pub null-Yields :
      (e : Reason) (c : Call) (k : ℕ → Prog A) (w : World)
      → ((x : ℕ) (v : World) → Yields P F (k x v))
      → Yields P F (and_then (nonnull e c w) k)
  null-Yields e c k w g = then-Yields P F (nonnull e c) k w (null-NoFault e c) g

  pub nzero-Yields :
      (e : Reason) (c : Call) (k : Reply → Prog A) (w : World)
      → ((x : Reply) (v : World) → Yields P F (k x v))
      → Yields P F (and_then (zero_or_die e c w) k)
  nzero-Yields e c k w g = then-Yields P F (zero_or_die e c) k w (nzero-NoFault e c) g

  pub ignore_if-Yields :
      (p : ℕ) (c : ℕ → Call) (k : Unit {0} → Prog A) (w : World)
      → ((x : Unit {0}) (v : World) → Yields P F (k x v))
      → Yields P F (and_then (ignore_if p c w) k)
  ignore_if-Yields p c k w g = then-Yields P F (ignore_if p c) k w (ignore_if-NoFault p c) g

  pub tell_if-Yields :
      (p : ℕ) (c : ℕ → Call) (k : Unit {0} → Prog A) (w : World)
      → ((x : Unit {0}) (v : World) → Yields P F (k x v))
      → Yields P F (and_then (tell_if p c w) k)
  tell_if-Yields p c k w g = then-Yields P F (tell_if p c) k w (tell_if-NoFault p c) g

pub gave_up-Yields :
    {A : Type 0} (P : A → Type 0) (F : Type 0) (w : World) → Yields P F (out_of_fuel, w)
unfolding Yields
gave_up-Yields P F w = tt

pub weaken-Yields :
    {A : Type 0} (P : A → Type 0) (F G : Type 0) (m : Outcome A × World)
    → (F → G)
    → Yields P F m
    → Yields P G m
unfolding Yields
weaken-Yields P F G (ok a, w) f h = h
weaken-Yields P F G (died e, w) f h = tt
weaken-Yields P F G (waiting, w) f h = tt
weaken-Yields P F G (fault, w) f h = f h
weaken-Yields P F G (out_of_fuel, w) f h = tt

-- a part of which nothing is known
pub any-Yields :
    {A B : Type 0} (P : A → Type 0) (m : Outcome B × World) (k : B → Prog A)
    → ((b : B) (w : World) → Yields P Unit (k b w))
    → Yields P Unit (and_then m k)
unfolding Yields
any-Yields P (ok b, w) k g = g b w
any-Yields P (died e, w) k g = tt
any-Yields P (waiting, w) k g = tt
any-Yields P (fault, w) k g = tt
any-Yields P (out_of_fuel, w) k g = tt

pub ruleset yielding = (
  ok-Yields, call-Yields, tell-Yields, ignore-Yields, die_if-Yields, null-Yields, nzero-Yields,
  ignore_if-Yields, tell_if-Yields, call-NoFault, tell-NoFault, ignore-NoFault,
)
