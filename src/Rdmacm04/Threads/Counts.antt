-- ===== src/Rdmacm04/Threads/Counts.antt =====
-- The counts of contexts that are taken, and of threads that hold one.
use rdma_tutorial.Prelude.{
  ℕ, zero, suc, ◌+◌, ◌≡◌, ◌<◌, ◌≤◌, refl, ap, Bool, true, false, List, [], ◌∷◌, ◌++◌, ◌==◌, length,
  arith, not,
}
use rdma_tutorial.Rdmacm04.Table.{Table, ThreadContext, at, set_at}
use rdma_tutorial.Rdmacm04.Threads.{Thread, one, holders, holding, used, used_count}

pub holders-append :
    (i : ℕ) (xs ys : List Thread) → holders i (xs ++ ys) ≡ holders i xs + holders i ys
holders-append i [] ys = omega arith
holders-append i (x ∷ xs) ys = omega (arith, holders-append i xs ys)

pub holding-append : (xs ys : List Thread) → holding (xs ++ ys) ≡ holding xs + holding ys
holding-append [] ys = omega arith
holding-append (x ∷ xs) ys = omega (arith, holding-append xs ys)

pub used-one : (b : Bool) → one b ≤ 1
used-one true = omega arith
used-one false = omega arith

pub used_count-le : (tab : Table) → used_count tab ≤ length tab
used_count-le [] = omega arith
used_count-le (c ∷ tab) = omega (arith, used_count-le tab, used-one (not (c.id == 0)))

pub used_count-set_at :
    (i : ℕ) (c : ThreadContext) (tab : Table)
    → i < length tab
    → used_count (set_at i c tab) + used (at i tab) ≡ used_count tab + used c
used_count-set_at i c [] h = absurd (omega arith)
used_count-set_at zero c (d ∷ tab) h = omega arith
used_count-set_at (suc i) c (d ∷ tab) h = omega (arith, used_count-set_at i c tab (omega arith))

-- an assignment that keeps the id
pub used-set_at :
    (i j : ℕ) (c : ThreadContext) (tab : Table)
    → c.id ≡ (at i tab).id
    → used (at j (set_at i c tab)) ≡ used (at j tab)
used-set_at i j c [] h = refl
used-set_at zero zero c (d ∷ tab) h = rw h refl
used-set_at zero (suc j) c (d ∷ tab) h = refl
used-set_at (suc i) zero c (d ∷ tab) h = refl
used-set_at (suc i) (suc j) c (d ∷ tab) h = used-set_at i j c tab h

pub used_count-same :
    (i : ℕ) (c : ThreadContext) (tab : Table)
    → c.id ≡ (at i tab).id
    → used_count (set_at i c tab) ≡ used_count tab
used_count-same i c [] h = refl
used_count-same zero c (d ∷ tab) h = rw h refl
used_count-same (suc i) c (d ∷ tab) h = ap (λ n. used d + n) (used_count-same i c tab h)

pub used-inside : (i : ℕ) (tab : Table) → used (at i tab) ≡ 1 → i < length tab
used-inside i [] h = omega arith
used-inside zero (d ∷ tab) h = omega arith
used-inside (suc i) (d ∷ tab) h = omega (arith, used-inside i tab h)
