-- ===== src/Machine/Follows.antt =====
-- What is left of a trace before some calls of a certain kind.
use mathlib.Core.Path.{subst}
use rdma_tutorial.Prelude.{◌≡◌, refl, sym, ap, ◌∙◌, ◌⊎◌, inl, inr, [], ◌∷◌}
use rdma_tutorial.External.{Call, Reply, Trace}
use rdma_tutorial.Machine.Rest.{IsRest}

-- `u` is the trace `t` and then calls that all have `Q`.
abbrev pub Follows : (Call → Type 0) → Trace → Trace → Type 0
Follows Q t [] = t ≡ []
Follows Q t ((c, r) ∷ u) = (t ≡ (c, r) ∷ u) ⊎ (Q c × Follows Q t u)

pub Follows-refl : (Q : Call → Type 0) (t : Trace) → Follows Q t t
Follows-refl Q [] = refl
Follows-refl Q (e ∷ t) = inl refl

pub Follows-trans :
    (Q : Call → Type 0) (a b c : Trace) → Follows Q a b → Follows Q b c → Follows Q a c
Follows-trans Q a b [] p q = subst (λ x. Follows Q a x) q p
Follows-trans Q a b (e ∷ c) p (inl q) = subst (λ y. Follows Q a y) q p
Follows-trans Q a b (e ∷ c) p (inr q) = inr (q.0, Follows-trans Q a b c p q.1)

pub Follows-IsRest : (Q : Call → Type 0) (t u : Trace) → Follows Q t u → IsRest t u
Follows-IsRest Q t [] h = h
Follows-IsRest Q t (e ∷ u) (inl h) = inl h
Follows-IsRest Q t (e ∷ u) (inr h) = inr (Follows-IsRest Q t u h.1)

-- What is read off a trace and does not see the calls with `Q` is as it was.
pub Follows-same :
    {X : Type 0} (see : Trace → X) (Q : Call → Type 0)
    → ((c : Call) (r : Reply) (t : Trace) → Q c → see ((c, r) ∷ t) ≡ see t)
    → (t u : Trace) → Follows Q t u
    → see u ≡ see t
Follows-same see Q blind t [] h = ap see (sym h)
Follows-same see Q blind t ((c, r) ∷ u) (inl h) = ap see (sym h)
Follows-same see Q blind t ((c, r) ∷ u) (inr h) = blind c r u h.0 ∙ Follows-same see Q blind t u h.1
