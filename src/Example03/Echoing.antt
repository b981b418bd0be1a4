-- ===== src/Example03/Echoing.antt =====
-- The echo loop of src/example03/server.c.
use rdma_tutorial.Prelude.{ℕ, ◌+◌, ◌≤◌, ◌≡◌, false, List, ◌∷◌, ◌++◌, length}
use rdma_tutorial.External.{Trace, Call}
use rdma_tutorial.Machine.Ends.{Ends}
use rdma_tutorial.Machine.Ruins.{Ruins}
use rdma_tutorial.Machine.Loops.{Loops}
use rdma_tutorial.Machine.Observe.{posted, sent, arrived_bytes}
use rdma_tutorial.Example03.Common.{terminated}

-- Since `t` the bytes `texts` have arrived and were sent back in the same order, and `n` receives
-- posted.
pub record Replied (texts : List (List ℕ)) (n : ℕ) (t u : Trace) : Type 0 where
  pub replied : sent u ≡ texts ++ sent t
  pub told : arrived_bytes u ≡ texts ++ arrived_bytes t
  pub armed : posted u ≡ posted t + n

pub record HasEchoed (rounds : ℕ) (t u : Trace) : Type 0 where
  pub texts : List (List ℕ)
  pub few : length texts ≤ rounds
  pub done : Replied texts rounds t u

-- The newest call is a read of a buffer that holds no end of a string.
abbrev pub UnprintableText : Trace → Type 0
UnprintableText ((Call.load_bytes _ _, r) ∷ _) = terminated r.bytes ≡ false
UnprintableText _ = ⊥
