-- ===== src/Machine/Loops.antt =====
-- Loops that have no end in the source, for the rounds that they are given.
use rdma_tutorial.Prelude.{◌≡◌, List, []}
use rdma_tutorial.External.{Reply, Trace}
use rdma_tutorial.Machine.Defs.{
  World, Outcome, ok, died, waiting, fault, out_of_fuel, Reason, Prog, and_then,
}
use rdma_tutorial.Machine.Ruins.{Ruins}

-- A death has left nothing to say.
abbrev pub Never : Reason → Trace → Type 0
Never _ _ = Unit

-- A loop that never returns: where all its rounds are done, `J` holds of the trace, and `F` where
-- it faults.
unfoldable pub Loops :
    {A : Type 0} → (Trace → Type 0) → (Trace → Type 0) → Outcome A × World → Type 0
Loops J F (ok _, _) = ⊥
Loops J F (died _, _) = Unit
Loops J F (waiting, (rs, _)) = rs ≡ []
Loops J F (fault, (_, u)) = F u
Loops J F (out_of_fuel, (_, u)) = J u

pub round-Loops :
    {A B : Type 0} (J F : Trace → Type 0) (P : B → Trace → Type 0) (m : Outcome B × World)
    (k : B → Prog A)
    → Ruins P Never F m
    → ((b : B) (rs : List Reply) (u : Trace) → P b u → Loops J F (k b (rs, u)))
    → Loops J F (and_then m k)
unfolding Loops Ruins
round-Loops J F P (ok b, (rs, u)) k h g = g b rs u h
round-Loops J F P (died e, _) k h g = tt
round-Loops J F P (waiting, _) k h g = h
round-Loops J F P (fault, _) k h g = h
round-Loops J F P (out_of_fuel, _) k h g = absurd h

pub map-Loops :
    {A : Type 0} (J K F : Trace → Type 0) (m : Outcome A × World)
    → ((u : Trace) → J u → K u)
    → Loops J F m
    → Loops K F m
unfolding Loops
map-Loops J K F (ok _, _) f h = absurd h
map-Loops J K F (died _, _) f h = tt
map-Loops J K F (waiting, _) f h = h
map-Loops J K F (fault, _) f h = h
map-Loops J K F (out_of_fuel, (_, u)) f h = f u h
