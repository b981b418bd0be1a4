-- ===== src/Rdmacm04/Threads.antt =====
-- The threads of src/rdmacm04/server.c with the main thread, as steps on the table of contexts: the
-- cases of cm_event_loop, and of handle_request what it does to its context. Each scan of
-- the table is one step.
mod Counts
pub mod Race
pub mod Served
use rdma_tutorial.Prelude.{
  ℕ, ◌+◌, ◌≡◌, ◌≢◌, ◌<◌, ◌≤◌, ◌∙◌, Bool, true, false, List, [], ◌∷◌, ◌++◌, ◌==◌, arith, ◌&&◌, not,
  if◌then◌else◌,
}
use rdma_tutorial.Rdmacm04.Table.{
  Table, ThreadContext, max_threads, index_of, at, set_at, taken, post_established,
  take_established, clear_id, destroy_sem, empty_table,
}

-- Where a thread stands: before sem_wait returns, up to the end of the loop and of the releases,
-- and between `id = NULL` and sem_destroy.
pub data Phase : Type 0 where
  accepting serving leaving : Phase

pub record Thread : Type 0 where
  pub index : ℕ
  pub phase : Phase

abbrev pub thread : ℕ → Phase → Thread
thread i p = record { index = i; phase = p }

pub record System : Type 0 where
  pub table : Table
  pub threads : List Thread

abbrev pub system : Table → List Thread → System
system tab ths = record { table = tab; threads = ths }

pub data Step : System → System → Type 0 where
  -- CONNECT_REQUEST with a free context, and pthread_create succeeds
  accept :
      (id : ℕ) (tab : Table) (ths : List Thread)
      → id ≢ 0
      → index_of 0 tab < max_threads
      → Step (system tab ths) (
          system
            (set_at (index_of 0 tab) (taken id (index_of 0 tab)) tab)
            (thread (index_of 0 tab) Phase.accepting ∷ ths))
  -- the same, and pthread_create fails: the context stays taken
  no_thread :
      (id : ℕ) (tab : Table) (ths : List Thread)
      → id ≢ 0
      → index_of 0 tab < max_threads
      → Step (system tab ths) (system (set_at (index_of 0 tab) (taken id (index_of 0 tab)) tab) ths)
  -- an event that changes no context: a rejected request, or an id that has none
  pass : (s : System) → Step s s
  establish :
      (id : ℕ) (tab : Table) (ths : List Thread)
      → index_of id tab < max_threads
      → Step (system tab ths) (system (post_established id tab) ths)
  wait :
      (i : ℕ) (tab : Table) (front back : List Thread)
      → (at i tab).established ≢ 0
      → Step
          (system tab (front ++ thread i Phase.accepting ∷ back))
          (system (take_established i tab) (front ++ thread i Phase.serving ∷ back))
  leave :
      (i : ℕ) (tab : Table) (front back : List Thread)
      → Step
          (system tab (front ++ thread i Phase.serving ∷ back))
          (system (clear_id i tab) (front ++ thread i Phase.leaving ∷ back))
  finish :
      (i : ℕ) (tab : Table) (front back : List Thread)
      → Step
          (system tab (front ++ thread i Phase.leaving ∷ back))
          (system (destroy_sem i tab) (front ++ back))

pub data Reachable : System → Type 0 where
  start : Reachable (system (empty_table max_threads) [])
  after : (s s' : System) → Reachable s → Step s s' → Reachable s'

-- A thread that has not given its context back.
abbrev pub holds : Phase → Bool
holds Phase.accepting = true
holds Phase.serving = true
holds Phase.leaving = false

abbrev pub one : Bool → ℕ
one true = 1
one false = 0

-- the threads that hold the context `i`, and that hold any
abbrev pub holders : ℕ → List Thread → ℕ
holders i [] = 0
holders i (th ∷ ths) = one (th.index == i && holds th.phase) + holders i ths

abbrev pub holding : List Thread → ℕ
holding [] = 0
holding (th ∷ ths) = one (holds th.phase) + holding ths

abbrev pub used : ThreadContext → ℕ
used c = one (not (c.id == 0))

abbrev pub used_count : Table → ℕ
used_count [] = 0
used_count (c ∷ cs) = used c + used_count cs
