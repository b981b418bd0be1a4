-- ===== src/Machine/Rest.antt =====
-- What is left of a list after some of its front.
use mathlib.Core.Path.{subst}
use rdma_tutorial.Prelude.{◌≡◌, refl, ◌⊎◌, inl, inr, List, [], ◌∷◌}

module _ {A : Type 0} where
  -- `rest` is what is left of `xs`.
  abbrev pub IsRest : List A → List A → Type 0
  IsRest rest [] = rest ≡ []
  IsRest rest (x ∷ xs) = (rest ≡ x ∷ xs) ⊎ IsRest rest xs

  pub IsRest-refl : (xs : List A) → IsRest xs xs
  IsRest-refl [] = refl
  IsRest-refl (x ∷ xs) = inl refl

  pub IsRest-trans : (a b c : List A) → IsRest a b → IsRest b c → IsRest a c
  IsRest-trans a b [] p q = subst (λ x. IsRest a x) q p
  IsRest-trans a b (x ∷ c) p (inl q) = subst (λ y. IsRest a y) q p
  IsRest-trans a b (x ∷ c) p (inr q) = inr (IsRest-trans a b c p q)
