-- ===== src/Resources/Honest.antt =====
-- What the libraries promise of the handles and ids that they give, read off a trace: a new handle
-- is not NULL, and neither it nor anything built on it is live; and a connection request carries an
-- id that no earlier request has that was not destroyed.
use mathlib.Core.Path.{subst}
use rdma_tutorial.Prelude.{
  ◌≡◌, true, false, ◌&&◌, Option, none, some, List, [], ◌∷◌, ◌==◌, Bool-cases, Option-cases, inl,
  inr, arith,
}
use rdma_tutorial.External.{Call, Reply, Trace, is_zero}
use rdma_tutorial.Machine.Observe.{open_ids, member, is_request}
use rdma_tutorial.Machine.Rest.{IsRest}
use rdma_tutorial.Resources.Defs.{
  Key, Entry, remove, release, same, acquired, released, after_event?, settle,
}
use rdma_tutorial.Resources.Releases.{IsForeign}

-- a handle that may be given while the objects `l` are live
abbrev pub IsNew : Option (List Entry) → Key → Type 0
IsNew none k = Unit
IsNew (some l) k = ((k.1 == 0) ≡ false) × IsForeign l k

abbrev pub GivesNew : Option (List Entry) → Option Entry → Type 0
GivesNew o none = Unit
GivesNew o (some e) = IsNew o e.key

abbrev pub IsHonestId : Trace → Call → Reply → Type 0
IsHonestId t (Call.get_cm_event _) r =
    (is_zero r.code && is_request r.event.event) ≡ true → member r.event.id (open_ids t) ≡ false
IsHonestId t _ r = Unit

abbrev pub IsHonest : Trace → Type 0
IsHonest [] = Unit
IsHonest ((c, r) ∷ t) = GivesNew (settle t) (acquired c r) × IsHonestId t c r × IsHonest t

pub rest-IsHonest : (t u : Trace) → IsRest t u → IsHonest u → IsHonest t
rest-IsHonest t [] p h = rw p tt
rest-IsHonest t (e ∷ u) (inl p) h = rw p h
rest-IsHonest t (e ∷ u) (inr p) h = rest-IsHonest t u p h.2

-- Every handle is not NULL, and is foreign to what was live before it.
abbrev pub IsSound : List Entry → Type 0
IsSound [] = Unit
IsSound (e ∷ es) = ((e.key.1 == 0) ≡ false) × IsForeign es e.key × IsSound es

remove-IsForeign : (k j : Key) (l : List Entry) → IsForeign l k → IsForeign (remove j l) k
remove-IsForeign k j [] h = h
remove-IsForeign k j (e ∷ l) h = ground (arith, remove-IsForeign k j l)

remove-IsSound : (k : Key) (l : List Entry) → IsSound l → IsSound (remove k l)
remove-IsSound k [] h = tt
remove-IsSound k (e ∷ l) h = elim (Bool-cases (same k e.key)) [
  | inl z ↦ rw z h.2
  | inr z ↦ rw z (h.0, remove-IsForeign e.key k l h.1, remove-IsSound k l h.2)
]

-- the two ways in which a call may change what is live
step_IsSound :
    (o : Option Key) (a : Option Entry) (l l' : List Entry)
    → IsSound l
    → GivesNew (some l) a
    → (elim o as (λ _. Option (List Entry)) [
      | some k ↦ release k l
      | none ↦ elim a as (λ _. Option (List Entry)) [ some e ↦ some (e ∷ l) | none ↦ some l ]
    ])
      ≡ some l'
    → IsSound l'
step_IsSound (some k) a l l' h g e =
    let q : remove k l ≡ l' = ground arith in subst IsSound q (remove-IsSound k l h)
step_IsSound none (some x) l l' h g e =
    let q : x ∷ l ≡ l' = ground arith in subst IsSound q (g.0, g.1, h)
step_IsSound none none l l' h g e = let q : l ≡ l' = ground arith in subst IsSound q h

-- What is live after an honest trace is sound.
pub settle-IsSound : (t : Trace) (l : List Entry) → IsHonest t → settle t ≡ some l → IsSound l
settle-IsSound [] l h e = let q : [] ≡ l = ground arith in subst IsSound q tt
settle-IsSound ((c, r) ∷ t) l h e = elim (Option-cases (settle t)) [
  | inl z ↦ absurd (ground arith)
  | inr z ↦
      step_IsSound (released c) (acquired c r) z.0 l (settle-IsSound t z.0 h.2 z.1)
        (subst (λ o. GivesNew o (acquired c r)) z.1 h.0)
        (subst (λ o. after_event? (c, r) o ≡ some l) z.1 e)
]
