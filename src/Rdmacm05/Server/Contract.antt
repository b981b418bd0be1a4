-- ===== src/Rdmacm05/Server/Contract.antt =====
-- What the server of src/rdmacm05/server.c keeps for its clients, with neither the order of the
-- contexts nor the calls: a map from ids to contexts, and how an event of the connection manager
-- changes it.
use mathlib.Core.Path.{subst}
use rdma_tutorial.Prelude.{
  ℕ, ◌≡◌, refl, sym, true, false, ◌⊎◌, Option, none, some, List, [], ◌∷◌, ◌==◌, Bool-cases, inl,
  inr, arith, if◌then◌else◌,
}
use rdma_tutorial.External.{CmEvent, CmEventType, connect_request, established, disconnected}
use rdma_tutorial.Rdmacm05.Common.{Connection}
use rdma_tutorial.Rdmacm05.Server.Defs.{
  Slot, ConnState, accepting, established_state, with_state, accepted,
}

abbrev pub View : Type 0
View = ℕ → Option Slot

abbrev pub nobody : View
nobody id = none

abbrev pub update : ℕ → Slot → View → View
update j s m id = if j == id then some s else m id

abbrev pub delete : ℕ → View → View
delete j m id = if j == id then none else m id

-- One event, about the id `id`.
pub data Step (m : View) (id : ℕ) : CmEventType → View → Type 0 where
  accepts :
      (addr : ℕ) (nc : Connection) → Step m id connect_request (update id (accepted id addr nc) m)
  rejects : Step m id connect_request m
  establishes :
      (s : Slot)
      → m id ≡ some s
      → Step m id established (update id (with_state established_state s) m)
  drops : (s : Slot) → m id ≡ some s → Step m id disconnected (delete id m)
  misses : m id ≡ none → Step m id disconnected m

-- The maps that a history of events, the newest first, leads to from the empty map.
pub data Reached : List CmEvent → View → Type 0 where
  start : Reached [] nobody
  event :
      (e : CmEvent) (es : List CmEvent) (m m' : View)
      → Reached es m
      → Step m e.id e.event m'
      → Reached (e ∷ es) m'

-- the newest event of a history that is about an id and has a case
abbrev pub after : CmEventType → Option CmEventType → Option CmEventType
after connect_request old = some connect_request
after established old = some established
after disconnected old = some disconnected
after _ old = old

abbrev pub newest : List CmEvent → ℕ → Option CmEventType
newest [] id = none
newest (e ∷ es) id = if e.id == id then after e.event (newest es id) else newest es id

abbrev pub InState : ConnState → Option Slot → Type 0
InState c x = (s : Slot) × (x ≡ some s) × (s.cctx.state ≡ some c)

-- What the newest event about an id says of its context: after a request it may have none, since
-- the request is rejected when the memory is used up.
abbrev pub Agrees : Option CmEventType → Option Slot → Type 0
Agrees none x = x ≡ none
Agrees (some connect_request) x = (x ≡ none) ⊎ (InState accepting x ⊎ InState established_state x)
Agrees (some established) x = InState established_state x
Agrees (some disconnected) x = x ≡ none
Agrees (some _) x = ⊥

-- a request that is rejected leaves what there was
rejected-Agrees :
    (old : Option CmEventType) (x : Option Slot) → Agrees old x → Agrees (some connect_request) x
rejected-Agrees none x h = inl h
rejected-Agrees (some connect_request) x h = h
rejected-Agrees (some established) x h = inr (inr h)
rejected-Agrees (some disconnected) x h = inl h
rejected-Agrees (some _) x h = absurd h

update-same : (id : ℕ) (s : Slot) (m : View) → update id s m id ≡ some s
update-same id s m = ground arith

step-Agrees :
    (m : View) (id : ℕ) (m' : View) (ev : CmEventType) (old : Option CmEventType)
    → Step m id ev m'
    → Agrees old (m id)
    → Agrees (after ev old) (m' id)
step-Agrees m id m' ev old (accepts addr nc) h =
    inr (inl (accepted id addr nc, update-same id _ m, refl))
step-Agrees m id m' ev old rejects h = rejected-Agrees old (m id) h
step-Agrees m id m' ev old (establishes s f) h =
    (with_state established_state s, update-same id _ m, refl)
step-Agrees m id m' ev old (drops s f) h = ground arith
step-Agrees m id m' ev old (misses f) h = f

step-other :
    (m : View) (id : ℕ) (m' : View) (j : ℕ) (ev : CmEventType)
    → Step m id ev m'
    → (id == j) ≡ false
    → m' j ≡ m j
step-other m id m' j ev (accepts addr nc) h = rw h refl
step-other m id m' j ev rejects h = refl
step-other m id m' j ev (establishes s f) h = rw h refl
step-other m id m' j ev (drops s f) h = rw h refl
step-other m id m' j ev (misses f) h = refl

pub Reached-Agrees :
    (es : List CmEvent) (m : View) (id : ℕ) → Reached es m → Agrees (newest es id) (m id)
Reached-Agrees es m id start = refl
Reached-Agrees _ _ id (event e es m₀ m' r step) = elim (Bool-cases (e.id == id)) [
  | inl own ↦ rw own (
      subst (λ j. Agrees (after e.event (newest es j)) (m' j)) (id_of own)
        (step-Agrees m₀ e.id m' e.event (newest es e.id) step (Reached-Agrees es m₀ e.id r)))
  | inr other ↦ rw other (
      subst (Agrees (newest es id)) (sym (step-other m₀ e.id m' id e.event step other))
        (Reached-Agrees es m₀ id r))
]
  where
    id_of : (e.id == id) ≡ true → e.id ≡ id
    id_of h = ground arith
