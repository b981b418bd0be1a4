-- ===== src/Resources/Standing.antt =====
-- The objects that are there, if a release that is refused releases nothing. `settle` counts a
-- release where it is called, as it stands in the program; the two agree where no release is
-- refused.
use rdma_tutorial.Prelude.{
  ◌≡◌, refl, ap, ◌∙◌, true, false, Bool, Option, none, some, List, [], ◌∷◌, if◌then◌else◌,
}
use rdma_tutorial.External.{Call, Reply, Event, Trace, is_zero}
use rdma_tutorial.Resources.Defs.{Key, Entry, acquired, released, release, after_event?, settle}

-- What a call has destroyed, by its reply.
abbrev pub destroyed : Call → Reply → Option Key
destroyed c r = if is_zero r.code then released c else none

abbrev after_reply : Event → Option (List Entry) → Option (List Entry)
after_reply e none = none
after_reply (c, r) (some l) = elim (destroyed c r) [
  | some k ↦ release k l
  | none ↦ elim (acquired c r) [ some e ↦ some (e ∷ l) | none ↦ some l ]
]

abbrev pub standing : Trace → Option (List Entry)
standing [] = some []
standing (e ∷ t) = after_reply e (standing t)

-- a call that releases nothing, or returns 0
abbrev pub Succeeds : Option Key → Bool → Type 0
Succeeds none z = Unit
Succeeds (some k) z = z ≡ true

-- No release was refused.
abbrev pub IsGranted : Trace → Type 0
IsGranted [] = Unit
IsGranted ((c, r) ∷ t) = Succeeds (released c) (is_zero r.code) × IsGranted t

same_event :
    (o : Option Key) (a : Option Entry) (z : Bool) (l : List Entry)
    → Succeeds o z
    → (elim (if z then o else none) as (λ _. Option (List Entry)) [
      | some k ↦ release k l
      | none ↦ elim a as (λ _. Option (List Entry)) [ some e ↦ some (e ∷ l) | none ↦ some l ]
    ])
      ≡ (elim o as (λ _. Option (List Entry)) [
        | some k ↦ release k l
        | none ↦ elim a as (λ _. Option (List Entry)) [ some e ↦ some (e ∷ l) | none ↦ some l ]
      ])
same_event none a true l h = refl
same_event none a false l h = refl
same_event (some k) a true l h = refl
same_event (some k) a false l h = cc

same_reply :
    (c : Call) (r : Reply) (o : Option (List Entry))
    → Succeeds (released c) (is_zero r.code)
    → after_reply (c, r) o ≡ after_event? (c, r) o
same_reply c r none h = refl
same_reply c r (some l) h = same_event (released c) (acquired c r) (is_zero r.code) l h

pub standing-settle : (t : Trace) → IsGranted t → standing t ≡ settle t
standing-settle [] h = refl
standing-settle ((c, r) ∷ t) h =
    same_reply c r (standing t) h.0 ∙ ap (λ o. after_event? (c, r) o) (standing-settle t h.1)
