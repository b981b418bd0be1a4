-- ===== src/Rdmacm/Echoes.antt =====
-- What a server has done with the strings that it received, read off two traces.
use rdma_tutorial.Prelude.{
  ℕ, ◌+◌, ◌≤◌, ◌≡◌, refl, sym, ap, ◌∙◌, List, [], ◌++◌, length, length-append, arith,
}
use mathlib.Core.List.{append_assoc}
use rdma_tutorial.External.{Trace}
use rdma_tutorial.Machine.Observe.{posted, sent, heard, completed}

-- Since `t` the strings `texts` were heard and sent back in the same order, and one receive was
-- posted for each of them.
pub record Echoed (texts : List (List ℕ)) (t u : Trace) : Type 0 where
  pub replied : sent u ≡ texts ++ sent t
  pub told : heard u ≡ texts ++ heard t
  pub reposted : posted u ≡ posted t + length texts

pub Echoed-refl : (t : Trace) → Echoed [] t t
Echoed-refl t = record { replied = refl; told = refl; reposted = omega arith }

then_append :
    {x y : List (List ℕ)} (b a z : List (List ℕ)) → x ≡ b ++ y → y ≡ a ++ z → x ≡ (b ++ a) ++ z
then_append b a z p q = p ∙ ap (λ l. b ++ l) q ∙ sym (append_assoc b a z)

pub Echoed-trans :
    (a b : List (List ℕ)) (t u v : Trace) → Echoed a t u → Echoed b u v → Echoed (b ++ a) t v
Echoed-trans a b t u v x y = record {
  replied = then_append b a (sent t) y.replied x.replied;
  told = then_append b a (heard t) y.told x.told;
  reposted = omega (arith, x.reposted, y.reposted, length-append b a);
}

-- `n` receives that completed before were answered since `t`.
pub record Answered (n : ℕ) (t u : Trace) : Type 0 where
  pub texts : List (List ℕ)
  pub count : length texts ≡ n
  pub echoed : Echoed texts t u
  pub polled : completed u ≡ completed t

pub Answered-refl : (t : Trace) → Answered 0 t t
Answered-refl t = record { texts = []; count = refl; echoed = Echoed-refl t; polled = refl }

pub Answered-trans :
    (m n : ℕ) (t u v : Trace) → Answered m t u → Answered n u v → Answered (m + n) t v
Answered-trans m n t u v x y = record {
  texts = y.texts ++ x.texts;
  count = omega (arith, x.count, y.count, length-append y.texts x.texts);
  echoed = Echoed-trans x.texts y.texts t u v x.echoed y.echoed;
  polled = y.polled ∙ x.polled;
}

-- Since `t` all receives that completed, but `left` at most, were answered.
pub record Served (left : ℕ) (t u : Trace) : Type 0 where
  pub texts : List (List ℕ)
  pub echoed : Echoed texts t u
  pub caused : completed t + length texts ≤ completed u
  pub answered : completed u ≤ left + (completed t + length texts)

pub Served-refl : (left : ℕ) (t : Trace) → Served left t t
Served-refl left t = record {
  texts = [];
  echoed = Echoed-refl t;
  caused = omega arith;
  answered = omega arith;
}

pub Served-trans : (left : ℕ) (t u v : Trace) → Served 0 t u → Served left u v → Served left t v
Served-trans left t u v x y = record {
  texts = y.texts ++ x.texts;
  echoed = Echoed-trans x.texts y.texts t u v x.echoed y.echoed;
  caused = omega (arith, x.caused, y.caused, length-append y.texts x.texts);
  answered = omega (arith, x.answered, y.answered, length-append y.texts x.texts);
}
