-- ===== src/Rdmacm04/Threads/Served.antt =====
-- How many threads hold a context of the table, in src/rdmacm04/server.c.
use rdma_tutorial.Prelude.{
  ℕ, ◌+◌, ◌≡◌, ◌≢◌, ◌<◌, ◌≤◌, refl, ◌∙◌, Bool, true, false, List, ◌∷◌, ◌++◌, ◌==◌, length, arith,
  ◌&&◌, not, Bool-cases, inl, inr,
}
use rdma_tutorial.Rdmacm04.Table.{
  Table, ThreadContext, max_threads, index_of, at, set_at, taken, clear_id, at-set_at, at-set_at_ne,
  at-index_of, length-set_at,
}
use rdma_tutorial.Rdmacm04.Threads.{
  Phase, Thread, thread, System, system, Step, Reachable, accept, no_thread, pass, establish, wait,
  leave, finish, start, after, holds, one, holders, holding, used, used_count,
}
use rdma_tutorial.Rdmacm04.Threads.Counts.{
  holders-append, holding-append, used-one, used_count-le, used_count-set_at, used-set_at,
  used_count-same, used-inside,
}

-- The table has its length; a context that a thread holds is taken, by that thread alone; and no
-- more threads hold a context than contexts are taken.
pub record IsSound (s : System) : Type 0 where
  pub sized : length s.table ≡ max_threads
  pub single : (i : ℕ) → holders i s.threads ≤ used (at i s.table)
  pub bounded : holding s.threads ≤ used_count s.table

-- A step of one thread that keeps every id, and makes no thread hold a context.
move :
    (i : ℕ) (c : ThreadContext) (tab : Table) (ths ths' : List Thread)
    → c.id ≡ (at i tab).id
    → ((j : ℕ) → holders j ths' ≤ holders j ths)
    → holding ths' ≤ holding ths
    → IsSound (system tab ths)
    → IsSound (system (set_at i c tab) ths')
move i c tab ths ths' same fewer less h = record {
  sized = length-set_at i c tab ∙ h.sized;
  single = λ j. omega (arith, used-set_at i j c tab same, fewer j, h.single j);
  bounded = omega (arith, used_count-same i c tab same, less, h.bounded);
}

holders-mid :
    (j i : ℕ) (p : Phase) (front back : List Thread)
    → holders j (front ++ thread i p ∷ back)
      ≡ holders j front + (one ((i == j) && holds p) + holders j back)
holders-mid j i p front back = holders-append j front (thread i p ∷ back)

holding-mid :
    (i : ℕ) (p : Phase) (front back : List Thread)
    → holding (front ++ thread i p ∷ back) ≡ holding front + (one (holds p) + holding back)
holding-mid i p front back = holding-append front (thread i p ∷ back)

-- a thread that gives its context back was alone in it
alone :
    (i : ℕ) (tab : Table) (front back : List Thread)
    → holders i (front ++ thread i Phase.serving ∷ back) ≤ used (at i tab)
    → (holders i front + holders i back ≡ 0) × (used (at i tab) ≡ 1)
alone i tab front back h =
    ground (arith, holders-mid i i Phase.serving front back, used-one (not ((at i tab).id == 0)))

release :
    (i : ℕ) (tab : Table) (front back : List Thread)
    → IsSound (system tab (front ++ thread i Phase.serving ∷ back))
    → IsSound (system (clear_id i tab) (front ++ thread i Phase.leaving ∷ back))
release i tab front back h = record {
  sized = length-set_at i (record (at i tab) { id = 0 }) tab ∙ h.sized;
  single = λ j. elim (Bool-cases (i == j)) [
    | inl e ↦
        let q : i ≡ j = ground arith in
        ground
          (arith, q, alone i tab front back (h.single i), holders-mid j i Phase.leaving front back)
    | inr e ↦ ground (
      arith,
      at-set_at_ne j i (record (at i tab) { id = 0 }) tab (ground arith),
      h.single j,
      holders-mid j i Phase.serving front back,
      holders-mid j i Phase.leaving front back,
    )
  ];
  bounded = ground (
    arith,
    used_count-set_at i (record (at i tab) { id = 0 }) tab inside,
    h.bounded,
    alone i tab front back (h.single i),
    holding-mid i Phase.serving front back,
    holding-mid i Phase.leaving front back,
  );
}
  where
    inside : i < length tab
    inside = used-inside i tab ((alone i tab front back (h.single i)).1)

-- a context that is taken for an id
take_context :
    (id : ℕ) (tab : Table) (ths : List Thread)
    → id ≢ 0
    → index_of 0 tab < max_threads
    → IsSound (system tab ths)
    → IsSound (
        system
          (set_at (index_of 0 tab) (taken id (index_of 0 tab)) tab)
          (thread (index_of 0 tab) Phase.accepting ∷ ths))
take_context id tab ths n k h =
    let i : ℕ = index_of 0 tab in
    let inside : i < length tab = omega (arith, h.sized) in
    record {
      sized = length-set_at i (taken id i) tab ∙ h.sized;
      single = λ j. elim (Bool-cases (i == j)) [
        | inl e ↦
            let q : i ≡ j = ground arith in
            ground
              (arith, q, at-set_at i (taken id i) tab inside, h.single i, at-index_of 0 tab inside)
        | inr e ↦ ground (arith, at-set_at_ne j i (taken id i) tab (ground arith), h.single j)
      ];
      bounded =
          ground (
            arith,
            used_count-set_at i (taken id i) tab inside,
            h.bounded,
            at-index_of 0 tab inside,
          );
    }

one-and : (b c d : Bool) → one d ≤ one c → one (b && d) ≤ one (b && c)
one-and true c d h = h
one-and false c d h = omega arith

-- a thread that goes on, and holds what it held
proceed :
    (i : ℕ) (c : ThreadContext) (tab : Table) (p q : Phase) (front back : List Thread)
    → c.id ≡ (at i tab).id
    → one (holds q) ≤ one (holds p)
    → IsSound (system tab (front ++ thread i p ∷ back))
    → IsSound (system (set_at i c tab) (front ++ thread i q ∷ back))
proceed i c tab p q front back same less h =
    move i c tab _ _ same
      (λ j. omega (
        arith,
        holders-mid j i p front back,
        holders-mid j i q front back,
        one-and (i == j) (holds p) (holds q) less,
      ))
      (omega (arith, holding-mid i p front back, holding-mid i q front back, less)) h

step-IsSound : (s s' : System) → Step s s' → IsSound s → IsSound s'
step-IsSound _ _ (accept id tab ths n k) h = take_context id tab ths n k h
step-IsSound _ _ (no_thread id tab ths n k) h =
    let g : IsSound (
        system (set_at (index_of 0 tab) (taken id (index_of 0 tab)) tab)
          (thread (index_of 0 tab) Phase.accepting ∷ ths)) =
      take_context id tab ths n k h in
    record {
      sized = g.sized;
      single = λ j. omega (arith, g.single j);
      bounded = omega (arith, g.bounded);
    }
step-IsSound _ _ (pass s) h = h
step-IsSound _ _ (establish id tab ths k) h =
    move (index_of id tab) _ tab ths ths refl (λ j. omega arith) (omega arith) h
step-IsSound _ _ (wait i tab front back e) h =
    proceed i _ tab Phase.accepting Phase.serving front back refl (omega arith) h
step-IsSound _ _ (leave i tab front back) h = release i tab front back h
step-IsSound _ _ (finish i tab front back) h =
    move i _ tab _ _ refl
      (λ j. omega (arith, holders-mid j i Phase.leaving front back, holders-append j front back))
      (omega (arith, holding-mid i Phase.leaving front back, holding-append front back)) h

pub reachable-IsSound : (s : System) → Reachable s → IsSound s
reachable-IsSound _ start = record {
  sized = refl;
  single = λ i. omega arith;
  bounded = omega arith;
}
reachable-IsSound _ (after s s' r st) = step-IsSound s s' st (reachable-IsSound s r)

-- In every reachable state of the server, at most ten threads serve a connection, no two of them
-- share a context, and the context of each is taken.
pub served-le :
    (s : System) (i : ℕ)
    → Reachable s
    → (holding s.threads ≤ max_threads) × (holders i s.threads ≤ used (at i s.table))
served-le s i r =
    let h : IsSound s = reachable-IsSound s r in
    (omega (arith, h.bounded, h.sized, used_count-le s.table), h.single i)
