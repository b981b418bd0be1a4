-- ===== src/Rdmacm04/Table.antt =====
-- The table `g_ctxs` of src/rdmacm04/server.c, and what each event of the connection manager does
-- to it. The semaphore of a context is its count, and `ready` from sem_init to sem_destroy.
use rdma_tutorial.Prelude.{
  ℕ, zero, suc, ◌+◌, ◌-◌, ◌≡◌, ◌≢◌, ◌<◌, refl, ap, Bool, true, false, List, [], ◌∷◌, ◌==◌, length,
  arith, if◌then◌else◌, Bool-cases, inl, inr,
}

abbrev pub max_threads : ℕ
max_threads = 10

-- struct thread_context
pub record ThreadContext : Type 0 where
  pub id : ℕ
  pub established : ℕ
  pub ready : Bool
  pub ctx_index : ℕ

-- a context of the static array, before its first use
abbrev pub empty : ThreadContext
empty = record { id = 0; established = 0; ready = false; ctx_index = 0 }

-- g_ctxs
abbrev pub Table : Type 0
Table = List ThreadContext

-- `for (i = 0; i < MAX_THREADS; i++) if (g_ctxs[i].id == id) break;`: the `i` after the loop
abbrev pub index_of : ℕ → Table → ℕ
index_of id [] = 0
index_of id (c ∷ cs) = if c.id == id then 0 else suc (index_of id cs)

-- `g_ctxs[i]`
abbrev pub at : ℕ → Table → ThreadContext
at i [] = empty
at zero (c ∷ cs) = c
at (suc i) (c ∷ cs) = at i cs

-- `g_ctxs[i] = c`
abbrev pub set_at : ℕ → ThreadContext → Table → Table
set_at i c [] = []
set_at zero c (_ ∷ cs) = c ∷ cs
set_at (suc i) c (d ∷ cs) = d ∷ set_at i c cs

-- a context that is taken for an id: the three assignments and sem_init
abbrev pub taken : ℕ → ℕ → ThreadContext
taken id i = record { id = id; established = 0; ready = true; ctx_index = i }

-- sem_post of the context of an id, if it has one
abbrev pub post_established : ℕ → Table → Table
post_established id tab =
    let i = index_of id tab in
    set_at i (record (at i tab) { established = (at i tab).established + 1 }) tab

-- sem_wait, of a count that is not zero
abbrev pub take_established : ℕ → Table → Table
take_established i tab =
    set_at i (record (at i tab) { established = (at i tab).established - 1 }) tab

-- `g_ctxs[i].id = NULL`
abbrev pub clear_id : ℕ → Table → Table
clear_id i tab = set_at i (record (at i tab) { id = 0 }) tab

-- sem_destroy
abbrev pub destroy_sem : ℕ → Table → Table
destroy_sem i tab = set_at i (record (at i tab) { ready = false }) tab

-- the table as main starts with it
abbrev pub empty_table : ℕ → Table
empty_table zero = []
empty_table (suc n) = empty ∷ empty_table n

pub at-set_at :
    (i : ℕ) (c : ThreadContext) (tab : Table) → i < length tab → at i (set_at i c tab) ≡ c
at-set_at i c [] h = absurd (omega arith)
at-set_at zero c (d ∷ tab) h = refl
at-set_at (suc i) c (d ∷ tab) h = at-set_at i c tab (omega arith)

pub at-set_at_ne :
    (i j : ℕ) (c : ThreadContext) (tab : Table) → i ≢ j → at i (set_at j c tab) ≡ at i tab
at-set_at_ne i j c [] h = refl
at-set_at_ne zero zero c (d ∷ tab) h = absurd (h refl)
at-set_at_ne zero (suc j) c (d ∷ tab) h = refl
at-set_at_ne (suc i) zero c (d ∷ tab) h = refl
at-set_at_ne (suc i) (suc j) c (d ∷ tab) h = at-set_at_ne i j c tab (λ e. h (ap suc e))

pub length-set_at : (i : ℕ) (c : ThreadContext) (tab : Table) → length (set_at i c tab) ≡ length tab
length-set_at i c [] = refl
length-set_at zero c (d ∷ tab) = refl
length-set_at (suc i) c (d ∷ tab) = ap suc (length-set_at i c tab)

-- the loop stops at a context of the id, if it stops before the end
pub at-index_of :
    (id : ℕ) (tab : Table) → index_of id tab < length tab → (at (index_of id tab) tab).id ≡ id
at-index_of id [] h = absurd (omega arith)
at-index_of id (c ∷ tab) h = elim (Bool-cases (c.id == id)) [
  | inl e ↦ rw e (ground arith)
  | inr e ↦ rw e (at-index_of id tab (ground arith))
]
