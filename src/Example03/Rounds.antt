-- ===== src/Example03/Rounds.antt =====
-- The loops of src/example03: what a round of the client sends, posts and waits for.
use rdma_tutorial.Prelude.{ℕ, zero, suc, ◌+◌, ◌≤◌, ◌≡◌, Bool, false, List, [], ◌∷◌, ◌++◌}
use rdma_tutorial.External.{Call, Trace}
use rdma_tutorial.Machine.Ends.{Ends}
use rdma_tutorial.Machine.Ruins.{Ruins}
use rdma_tutorial.Machine.Loops.{Loops}
use rdma_tutorial.Machine.Observe.{posted, sent, polled, posted_within}
use rdma_tutorial.Example03.Common.{terminated, rdma_buffer_size}
use rdma_tutorial.Example03.Client.{message}

-- the receives that were posted, the texts that were sent, the completions, and the bound on
-- segments
abbrev Counts : ℕ → List (List ℕ) → ℕ → Bool → Trace → Type 0
Counts posts texts completions within u =
    (posted u ≡ posts)
    × (sent u ≡ texts)
    × (completions ≤ polled u)
    × (posted_within rdma_buffer_size u ≡ within)

-- The newest call is a poll after which the buffer holds no end of a string.
abbrev pub UnprintableEcho : Trace → Type 0
UnprintableEcho ((Call.poll_cq _ _, r) ∷ _) = terminated r.bytes ≡ false
UnprintableEcho _ = ⊥

-- a message as it is sent, with its NUL
abbrev pub whole : ℕ → List ℕ
whole i = message i ++ 0 ∷ []

-- The messages `i` to `i + n - 1` with their NUL, the newest first.
abbrev pub messages : ℕ → ℕ → List (List ℕ)
messages i zero = []
messages i (suc n) = messages (i + 1) n ++ whole i ∷ []
