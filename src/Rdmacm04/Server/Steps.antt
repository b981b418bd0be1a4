-- ===== src/Rdmacm04/Server/Steps.antt =====
-- The cases of cm_event_loop against the steps of Threads.
use rdma_tutorial.Prelude.{
  ℕ, ◌≡◌, ◌≢◌, ◌<◌, ◌≤◌, refl, Bool, true, false, not, List, [], ◌∷◌, ◌==◌, ltb, length, arith,
  Bool-cases, inl, inr,
}
use rdma_tutorial.External.{
  Reply, Trace, Call, CmEventType, is_zero, connect_request, established, disconnected,
}
use rdma_tutorial.Machine.Ends.{Ends, ok-Ends, call-Ends, ignore-Ends, bind-Ends}
use rdma_tutorial.Rdmacm04.Table.{Table, max_threads, index_of, set_at, taken, post_established}
use rdma_tutorial.Rdmacm04.Threads.{
  Thread, thread, Phase, system, Step, accept, no_thread, pass, establish,
}
use rdma_tutorial.Rdmacm04.Server.Defs.{on_connect_request, on_established, dispatch_cm_event}

abbrev pub is_handled : CmEventType → Bool
is_handled connect_request = true
is_handled established = true
is_handled disconnected = true
is_handled _ = false

-- What each event does to the table, the threads and the trace: `Handles ev id tab ths t tab' ths'
-- u`.
pub data Handles
    : CmEventType → ℕ → Table → List Thread → Trace → Table → List Thread → Trace → Type 0 where
  -- a context is free and pthread_create succeeds: the context is taken and a thread starts
  accepted :
      (id : ℕ) (tab : Table) (ths : List Thread) (t : Trace) (r : Reply)
      → index_of 0 tab < max_threads
      → is_zero r.code ≡ true
      → Handles connect_request id tab ths t
          (set_at (index_of 0 tab) (taken id (index_of 0 tab)) tab)
          (thread (index_of 0 tab) Phase.accepting ∷ ths)
          ((Call.thread_create (index_of 0 tab), r) ∷ t)
  -- the same, and it fails: the request is rejected, and the context stays taken
  not_started :
      (id : ℕ) (tab : Table) (ths : List Thread) (t : Trace) (r q : Reply)
      → index_of 0 tab < max_threads
      → is_zero r.code ≡ false
      → Handles connect_request id tab ths t
          (set_at (index_of 0 tab) (taken id (index_of 0 tab)) tab)
          ths
          ((Call.rdma_reject id, q) ∷ (Call.thread_create (index_of 0 tab), r) ∷ t)
  -- no context is free: the request is rejected
  full :
      (id : ℕ) (tab : Table) (ths : List Thread) (t : Trace) (r : Reply)
      → index_of 0 tab ≡ max_threads
      → Handles connect_request id tab ths t tab ths ((Call.rdma_reject id, r) ∷ t)
  -- the semaphore of the id's context is posted
  posted :
      (id : ℕ) (tab : Table) (ths : List Thread) (t : Trace)
      → index_of id tab < max_threads
      → Handles established id tab ths t (post_established id tab) ths t
  -- the id has no context
  unknown :
      (id : ℕ) (tab : Table) (ths : List Thread) (t : Trace)
      → max_threads ≤ index_of id tab
      → Handles established id tab ths t tab ths t
  -- the thread of the id sees the end of its connection by itself
  left :
      (id : ℕ) (tab : Table) (ths : List Thread) (t : Trace)
      → Handles disconnected id tab ths t tab ths t
  other :
      (ev : CmEventType) (id : ℕ) (tab : Table) (ths : List Thread) (t : Trace)
      → is_handled ev ≡ false
      → Handles ev id tab ths t tab ths t

-- The table and the trace after an event are those that it leads to with some threads, and the
-- system of threads has a step to them.
abbrev pub Takes : CmEventType → ℕ → Table → List Thread → Trace → Table → Trace → Type 0
Takes ev id tab ths t tab' u =
    (ths' : List Thread) × Handles ev id tab ths t tab' ths' u
    × Step (system tab ths) (system tab' ths')

index_of-le : (id : ℕ) (tab : Table) → index_of id tab ≤ length tab
index_of-le id [] = omega arith
index_of-le id (c ∷ tab) = elim (Bool-cases (c.id == id)) [
  | inl e ↦ rw e (omega arith)
  | inr e ↦ rw e (omega (arith, index_of-le id tab))
]

on_connect_request-Takes :
    (id : ℕ) (tab : Table) (ths : List Thread) (rs : List Reply) (t : Trace)
    → id ≢ 0
    → length tab ≡ max_threads
    → Ends
        (λ tab' u. Takes connect_request id tab ths t tab' u)
        (λ _ _. ⊥)
        (on_connect_request id tab (rs, t))
unfolding on_connect_request
on_connect_request-Takes id tab ths rs t n sized =
    elim (Bool-cases (index_of 0 tab == max_threads)) [
      | inl none_free ↦ rw none_free (
          ignore-Ends _ _ _ _ _ _ λ r s.
            ok-Ends _ _ _ _ _ (ths, full id tab ths t r (ground arith), pass (system tab ths)))
      | inr free ↦
          let room : index_of 0 tab < max_threads = ground (arith, index_of-le 0 tab) in
          rw free (
            call-Ends _ _ _ _ _ _ λ r s. elim (Bool-cases (is_zero r.code)) [
              | inl z ↦
                  rw z (
                    ok-Ends _ _ _ _ _ (_, accepted id tab ths t r room z, accept id tab ths n room))
              | inr z ↦ rw z (
                  ignore-Ends _ _ _ _ _ _ λ q s'.
                    ok-Ends _ _ _ _ _
                      (_, not_started id tab ths t r q room z, no_thread id tab ths n room))
            ])
    ]

on_established-Takes :
    (id : ℕ) (tab : Table) (ths : List Thread) (t : Trace)
    → Takes established id tab ths t (on_established id tab) t
on_established-Takes id tab ths t = elim (Bool-cases (ltb (index_of id tab) max_threads)) [
  | inl e ↦ rw e (ths, posted id tab ths t (ground arith), establish id tab ths (ground arith))
  | inr e ↦ rw e (ths, unknown id tab ths t (ground arith), pass (system tab ths))
]

-- Each case of cm_event_loop, for an event of an id that is not NULL and a table of ten contexts:
-- it never dies; it changes the table, starts a thread and calls rdma_reject as `Handles` lists
-- for its event, which is a step of the threads' system, whatever threads run and whatever the
-- calls return. The loop goes on exactly after the three events that it knows.
pub dispatch_cm_event-Takes :
    (ev : CmEventType) (id : ℕ) (tab : Table) (ths : List Thread) (rs : List Reply) (t : Trace)
    → id ≢ 0
    → length tab ≡ max_threads
    → Ends
        (λ next u. Takes ev id tab ths t next.0 u × (next.1 ≡ not (is_handled ev)))
        (λ _ _. ⊥)
        (dispatch_cm_event ev id tab (rs, t))
unfolding dispatch_cm_event
dispatch_cm_event-Takes connect_request id tab ths rs t n sized =
    bind-Ends _ _ _ _ _ (on_connect_request-Takes id tab ths rs t n sized)
      λ tab' s u h. ok-Ends _ _ _ _ _ (h, refl)
dispatch_cm_event-Takes established id tab ths rs t n sized =
    ok-Ends _ _ _ _ _ (on_established-Takes id tab ths t, refl)
dispatch_cm_event-Takes disconnected id tab ths rs t n sized =
    ok-Ends _ _ _ _ _ ((ths, left id tab ths t, pass (system tab ths)), refl)
dispatch_cm_event-Takes ev id tab ths rs t n sized =
    ok-Ends _ _ _ _ _ ((ths, other ev id tab ths t refl, pass (system tab ths)), refl)
