-- ===== src/Rdmacm04/Threads/Race.antt =====
-- The end of a thread of src/rdmacm04/server.c: `id = NULL`, then sem_destroy, with the main thread
-- in between.
use rdma_tutorial.Prelude.{◌≡◌, ◌&&◌, Bool, true, List, [], ◌∷◌, arith}
use rdma_tutorial.Rdmacm04.Table.{
  Table, set_at, clear_id, destroy_sem, take_established, post_established, max_threads, at, taken,
  empty_table,
}
use rdma_tutorial.Rdmacm04.Threads.{
  Phase, Thread, thread, System, system, Reachable, accept, establish, wait, leave, finish, start,
  after,
}

-- Every thread that has still to wait has a semaphore that is initialized.
abbrev pub all_ready : Table → List Thread → Bool
all_ready tab [] = true
all_ready tab (th ∷ ths) = elim th.phase [
  | Phase.accepting ↦ (at th.index tab).ready && all_ready tab ths
  | _ ↦ all_ready tab ths
]

-- the table once the connection 5 has come and gone
abbrev left_table : Table
left_table =
    clear_id 0
      (take_established 0 (post_established 5 (set_at 0 (taken 5 0) (empty_table max_threads))))

first_leaves : Reachable (system left_table (thread 0 Phase.leaving ∷ []))
first_leaves =
    after _ _
      (after _ _
        (after _ _
          (after _ _ start (accept 5 (empty_table max_threads) [] (ground arith) (omega arith)))
          (establish 5 _ (thread 0 Phase.accepting ∷ []) (omega arith)))
        (wait 0 _ [] [] (ground arith)))
      (leave 0 _ [] [])

-- the connection 6 takes the context before the first thread has destroyed the semaphore
abbrev taken_table : Table
taken_table = destroy_sem 0 (set_at 0 (taken 6 0) left_table)

second_waits : Reachable (system taken_table (thread 0 Phase.accepting ∷ []))
second_waits =
    after _ _
      (after _ _ first_leaves
        (accept 6 left_table (thread 0 Phase.leaving ∷ []) (ground arith) (omega arith)))
      (finish 0 _ (thread 0 Phase.accepting ∷ []) [])

-- It does not hold of every reachable state that each thread before its sem_wait has a semaphore
-- that is initialized: a thread that comes to its end destroys the semaphore of the next one.
pub semaphore_race : ¬ ((s : System) → Reachable s → all_ready s.table s.threads ≡ true)
semaphore_race h = absurd (ground (arith, h _ second_waits))
