-- ===== src/Rdmacm05/Server/Contexts.antt =====
-- The contexts of the server: what holds of the store at every event of src/rdmacm05/server.c.
use rdma_tutorial.Prelude.{
  ℕ, ◌≡◌, refl, none, some, [], ◌∷◌, ◌==◌, arith, Bool-cases, Option-cases, inl, inr,
}
use mathlib.Core.Path.{subst}
use rdma_tutorial.Rdmacm05.Common.{Connection}
use rdma_tutorial.Rdmacm05.Server.Defs.{
  Slot, Store, ConnState, find, replace, put, clear, new_slot, accepted, with_state,
}

-- A context that is filled: it has the id that it stands at, a connection and a state.
pub record IsFull (s : Slot) : Type 0 where
  pub named : s.cctx.id ≡ s.owner
  pub nc : Connection
  pub connected : s.cctx.conn ≡ some nc
  pub state : ConnState
  pub known : s.cctx.state ≡ some state

-- Every context is full, and no id has two.
abbrev pub IsOrderly : Store → Type 0
IsOrderly [] = Unit
IsOrderly (s ∷ ss) = IsFull s × (find s.owner ss ≡ none) × IsOrderly ss

pub accepted-IsFull : (id addr : ℕ) (nc : Connection) → IsFull (accepted id addr nc)
accepted-IsFull id addr nc = record {
  named = refl;
  nc = nc;
  connected = refl;
  state = ConnState.accepting;
  known = refl;
}

pub with_state-IsFull : (c : ConnState) (s : Slot) → IsFull s → IsFull (with_state c s)
with_state-IsFull c s h = record {
  named = h.named;
  nc = h.nc;
  connected = h.connected;
  state = c;
  known = refl;
}

find-replace :
    (id : ℕ) (new : Slot) (st : Store) → find id st ≡ none → find id (replace new st) ≡ none
find-replace id new [] h = refl
find-replace id new (s ∷ st) h = ground (arith, find-replace id new st)

find-clear : (id j : ℕ) (st : Store) → find id st ≡ none → find id (clear j st) ≡ none
find-clear id j [] h = refl
find-clear id j (s ∷ st) h = ground (arith, find-clear id j st)

replace-IsOrderly :
    (new : Slot) (st : Store) → IsFull new → IsOrderly st → IsOrderly (replace new st)
replace-IsOrderly new [] f h = tt
replace-IsOrderly new (s ∷ st) f h = elim (Bool-cases (s.owner == new.owner)) [
  | inl e ↦ rw e (f, ground arith, h.2)
  | inr e ↦ rw e (h.0, find-replace s.owner new st h.1, replace-IsOrderly new st f h.2)
]

pub put-IsOrderly : (new : Slot) (st : Store) → IsFull new → IsOrderly st → IsOrderly (put new st)
put-IsOrderly new st f h = elim (Option-cases (find new.owner st)) [
  | inl e ↦ rw (e, put) (f, e, h)
  | inr e ↦ rw (e.1, put) (replace-IsOrderly new st f h)
]

pub clear-IsOrderly : (id : ℕ) (st : Store) → IsOrderly st → IsOrderly (clear id st)
clear-IsOrderly id [] h = tt
clear-IsOrderly id (s ∷ st) h = elim (Bool-cases (s.owner == id)) [
  | inl e ↦ rw e h.2
  | inr e ↦ rw e (h.0, find-clear s.owner id st h.1, clear-IsOrderly id st h.2)
]

pub find-IsFull : (id : ℕ) (st : Store) (s : Slot) → IsOrderly st → find id st ≡ some s → IsFull s
find-IsFull id [] s h e = cc
find-IsFull id (x ∷ st) s h e = elim (Bool-cases (x.owner == id)) [
  | inl y ↦ let q : x ≡ s = ground arith in subst IsFull q h.0
  | inr y ↦ find-IsFull id st s h.2 (ground arith)
]

replace-replace :
    (a b : Slot) (st : Store) → a.owner ≡ b.owner → replace a (replace b st) ≡ replace a st
replace-replace a b [] e = refl
replace-replace a b (s ∷ st) e = ground (arith, replace-replace a b st e)

find-replaced :
    (b : Slot) (st : Store) (s : Slot)
    → find b.owner st ≡ some s
    → find b.owner (replace b st) ≡ some b
find-replaced b [] s h = cc
find-replaced b (x ∷ st) s h = ground (arith, find-replaced b st s)

-- A context that is filled after it was put in place.
pub put-put_again :
    (id addr : ℕ) (nc : Connection) (st : Store)
    → put (accepted id addr nc) (put (new_slot id addr) st) ≡ put (accepted id addr nc) st
put-put_again id addr nc st = elim (Option-cases (find id st)) [
  | inl e ↦ ground arith
  | inr e ↦ ground (
    arith,
    e.1,
    replace-replace (accepted id addr nc) (new_slot id addr) st refl,
    find-replaced (new_slot id addr) st e.0,
  )
]
