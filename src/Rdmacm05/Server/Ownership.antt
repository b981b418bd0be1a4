-- ===== src/Rdmacm05/Server/Ownership.antt =====
-- What the handlers of the CM events in src/rdmacm05/server.c do to the store, and to the objects
-- that its connections own.
use rdma_tutorial.Prelude.{
  ℕ, ◌⊎◌, ◌≡◌, ap, refl, sym, ◌∙◌, Bool, true, false, none, some, List, [], ◌∷◌, ◌++◌, ◌==◌, arith,
  if◌then◌else◌, Bool-cases, inl, inr,
}
use mathlib.Core.List.{append_assoc}
use rdma_tutorial.External.{is_zero, Reply, no_reply, Trace, Call}
use rdma_tutorial.Machine.Ends.{
  Ends, Refused, ok-Ends, call-Ends, ignore-Ends, bind-Ends, die_if-Ends, nzero-step,
}
use rdma_tutorial.Resources.{Entry, entry, block, settle, in_use}
use rdma_tutorial.Resources.Releases.{releases, releases-append, IsForeign, behind}
use rdma_tutorial.Machine.Follows.{Follows-same}
use rdma_tutorial.Machine.Observe.{freed_ids, KeepsIds, KeepsIds-freed_ids}
use rdma_tutorial.Machine.Ruins.{
  Ruins, Ends-Follows, ok-Ruins, call-Ruins, ignore-Ruins, tell-Ruins, or_fault-Ruins,
  fault_if-Ruins, then-Ruins,
}
use rdma_tutorial.Rdmacm05.Server.Growing.{destroy_connection-Follows}
use rdma_tutorial.Rdmacm05.Common.{Connection}
use rdma_tutorial.Rdmacm05.Common.Setup.{entries_of, setup_connection-IsReady}
use rdma_tutorial.Rdmacm05.Server.Teardown.{IsWhole, IsApart, destroy_connection-settle}
use rdma_tutorial.Rdmacm05.Server.Defs.{
  Slot, Store, find, clear, put, new_slot, accepted, accepting, on_connect_request, on_disconnected,
  handle_new_request, drop_connection, conn_param,
}

abbrev pub owned_slot : Slot → List Entry
owned_slot s = elim s.cctx.conn [
  | none ↦ entry (block, s.addr) [] ∷ []
  | some nc ↦ entries_of nc ++ entry (block, s.addr) [] ∷ []
]

abbrev pub owned : Store → List Entry
owned [] = []
owned (s ∷ ss) = owned_slot s ++ owned ss

-- The store after a new connection: it is in front, complete and in the state ACCEPTING.
pub record HasAccepted (base : List Entry) (id : ℕ) (st st' : Store) (u : Trace) : Type 0 where
  pub ledger : settle u ≡ some (owned st' ++ base)
  pub slot : Slot
  pub nc : Connection
  pub added : st' ≡ slot ∷ st
  pub mine :
      (slot.owner ≡ id)
      × (slot.cctx.id ≡ id)
      × (slot.cctx.conn ≡ some nc)
      × (slot.cctx.state ≡ some accepting)
  pub answer : Reply
  pub earlier : Trace
  pub accepted_last : u ≡ (Call.rdma_accept id conn_param, answer) ∷ earlier
  pub granted : is_zero answer.code ≡ true

-- The store is as it was, and the last call was rdma_reject.
abbrev pub Rejects : List Entry → ℕ → Store → Store → Trace → Type 0
Rejects base id st st' u =
    (st' ≡ st)
    × (settle u ≡ some (owned st ++ base))
    × ((r : Reply) × (earlier : Trace) × (u ≡ (Call.rdma_reject id, r) ∷ earlier))

put-put :
    (id addr : ℕ) (nc : Connection) (st : Store)
    → find id st ≡ none
    → put (accepted id addr nc) (put (new_slot id addr) st) ≡ accepted id addr nc ∷ st
put-put id addr nc st h = ground arith

-- RDMA_CM_EVENT_CONNECT_REQUEST for an id that has no context, if all that is live is what the
-- store owns and `base`: the handler returns with a new complete connection in the store, in the
-- state ACCEPTING, and rdma_accept of the id, granted, as its last call, or with rdma_reject of the
-- id as its last call and the store as it was, and in both cases what is live is
-- again what the store owns and `base`; or it dies on a refused call, or waits for a reply.
pub on_connect_request-HasAccepted :
    (epoll_fd id : ℕ) (st : Store) (base : List Entry) (rs : List Reply) (t : Trace)
    → find id st ≡ none
    → settle t ≡ some (owned st ++ base)
    → Ends
        (λ st' u. HasAccepted base id st st' u ⊎ Rejects base id st st' u)
        Refused
        (on_connect_request epoll_fd id st (rs, t))
unfolding on_connect_request handle_new_request
on_connect_request-HasAccepted epoll_fd id st base rs t new h = call-Ends _ _ _ _ _ _ λ m s1.
    elim (Bool-cases (m.ptr == 0)) [
      | inl z ↦ rw z (
          ignore-Ends _ _ _ _ _ _
            λ r s2. ok-Ends _ _ _ _ _ (inr (refl, ground arith, (r, _, refl))))
      | inr z ↦ rw z (
          bind-Ends _ _ _ _ _
            (setup_connection-IsReady id _ _ (entry (block, m.ptr) [] ∷ (owned st ++ base))
              (ground arith))
            λ nc s2 u2 ready. call-Ends _ _ _ _ _ _ λ fd s3. call-Ends _ _ _ _ _ _ λ added s4.
              die_if-Ends _ _ _ _ _ _ _ (λ b. ground arith)
                λ h4. nzero-step _ _ _ _ _ _ λ acc s5 h5. ok-Ends _ _ _ _ _ (
                  inl (
                    let shape : put (accepted id m.ptr nc) (put (new_slot id m.ptr) st)
                        ≡ accepted id m.ptr nc ∷ st =
                      put-put id m.ptr nc st new in
                    record {
                      ledger = rw shape (ground arith);
                      slot = accepted id m.ptr nc;
                      nc = nc;
                      added = shape;
                      mine = (refl, refl, refl, refl);
                      answer = acc;
                      earlier = _;
                      accepted_last = refl;
                      granted = h5;
                    })))
    ]

regroup :
    (xs l base ys zs : List Entry) → l ++ base ≡ ys ++ zs → (xs ++ l) ++ base ≡ (xs ++ ys) ++ zs
regroup xs l base ys zs h =
    append_assoc xs l base ∙ ap (λ r. xs ++ r) h ∙ sym (append_assoc xs ys zs)

-- The entries before and behind those of an id.
abbrev pub before : ℕ → Store → List Entry
before id [] = []
before id (s ∷ ss) = if s.owner == id then [] else owned_slot s ++ before id ss

abbrev pub after : ℕ → Store → List Entry
after id [] = []
after id (s ∷ ss) = if s.owner == id then owned ss else after id ss

owned-clear :
    (id : ℕ) (st : Store) (base : List Entry)
    → owned (clear id st) ++ base ≡ before id st ++ (after id st ++ base)
owned-clear id [] base = refl
owned-clear id (s ∷ st) base = elim (Bool-cases (s.owner == id)) [
  | inl e ↦ rw e refl
  | inr e ↦ rw e (regroup (owned_slot s) (owned (clear id st)) base _ _ (owned-clear id st base))
]

pub owned-find :
    (id : ℕ) (st : Store) (base : List Entry) (s : Slot)
    → find id st ≡ some s
    → owned st ++ base ≡ before id st ++ (owned_slot s ++ (after id st ++ base))
owned-find id [] base s h = cc
owned-find id (x ∷ st) base s h = elim (Bool-cases (x.owner == id)) [
  | inl e ↦
      let q : x ≡ s = ground arith in
      rw e (
        append_assoc (owned_slot x) (owned st) base
        ∙ ap (λ y. owned_slot y ++ (owned st ++ base)) q)
  | inr e ↦
      let q : find id st ≡ some s = ground arith in
      rw e (regroup (owned_slot x) (owned st) base _ _ (owned-find id st base s q))
]

-- the owner of a slot that was found
pub find-owner : (id : ℕ) (st : Store) (s : Slot) → find id st ≡ some s → s.owner ≡ id
find-owner id [] s h = cc
find-owner id (x ∷ st) s h = ground (arith, find-owner id st s)

pub owned_slot-some :
    (s : Slot) (nc : Connection) (l : List Entry)
    → s.cctx.conn ≡ some nc
    → owned_slot s ++ l ≡ entries_of nc ++ (entry (block, s.addr) [] ∷ l)
owned_slot-some s nc l h = rw h refl

-- the last release of a disconnection: the context itself
free_context :
    (front back : List Entry) (addr : ℕ) (u : Trace)
    → IsForeign front (block, addr)
    → in_use (block, addr) back ≡ false
    → settle u ≡ some (front ++ (entry (block, addr) [] ∷ back))
    → settle ((Call.free addr, no_reply) ∷ u) ≡ some (front ++ back)
free_context front back addr u foreign unused h = rw h (
    releases-append ((block, addr) ∷ []) front (some (entry (block, addr) [] ∷ back)) (foreign, tt)
    ∙ ap (behind front) own)
  where
    own : releases ((block, addr) ∷ []) (some (entry (block, addr) [] ∷ back)) ≡ some back
    own = ground arith

-- RDMA_CM_EVENT_DISCONNECTED for an id with a context and a complete connection, on whose objects
-- of libibverbs and blocks of malloc nothing else is built, each release counted where it is
-- called. The handler calls for the release of exactly the objects of the connection, none while
-- another is live that is built on it. If rdma_destroy_id fails, it then releases the context and
-- returns, and the id has no context any more; if rdma_destroy_id frees the id, the handler faults
-- on the write to it, with the context live. It never dies, whatever the calls return.
pub on_disconnected-settle :
    (id : ℕ) (st : Store) (base : List Entry) (s : Slot) (nc : Connection) (rs : List Reply)
    (t : Trace)
    → find id st ≡ some s
    → s.cctx.conn ≡ some nc
    → IsWhole nc
    → IsApart (before id st) (after id st ++ base) nc
    → IsForeign (before id st) (block, s.addr)
    → in_use (block, s.addr) (after id st ++ base) ≡ false
    → settle t ≡ some (owned st ++ base)
    → Ruins
        (λ st' u.
          (st' ≡ clear id st) × (settle u ≡ some (owned st' ++ base)) × (freed_ids u ≡ freed_ids t))
        (λ _ _. ⊥)
        (λ u.
          (settle u ≡ some (before id st ++ (entry (block, s.addr) [] ∷ (after id st ++ base))))
          × (freed_ids u ≡ s.cctx.id ∷ freed_ids t))
        (on_disconnected id st (rs, t))
unfolding on_disconnected drop_connection
on_disconnected-settle id st base s nc rs t found has whole apart foreign unused h =
    rw (found, on_disconnected)
      (ignore-Ruins _ _ _ _ _ _ _ λ r1 s1. call-Ruins _ _ _ _ _ _ _ λ gone s2.
        or_fault-Ruins _ _ _ _ _ _ _ nc has (
          call-Ruins _ _ _ _ _ _ _ λ r3 s3. ignore-Ruins _ _ _ _ _ _ _ λ r4 s4.
            then-Ruins _ _ _ _ _ _
              (Ends-Follows _ _ KeepsIds _ _
                (destroy_connection-settle nc (before id st)
                  (entry (block, s.addr) [] ∷ (after id st ++ base)) _ _ whole
                  (record { before = apart.before; behind = apart.behind }) (rw live refl))
                (destroy_connection-Follows nc s4 _))
              λ _ s5 u5 (left, added).
                let same : freed_ids u5
                    ≡ (if is_zero gone.code then s.cctx.id ∷ freed_ids t else freed_ids t) =
                  Follows-same freed_ids KeepsIds KeepsIds-freed_ids _ u5 added in
                fault_if-Ruins _ _ _ _ _ _ _ (λ z. (left, same ∙ ap pick z))
                  λ z. tell-Ruins _ _ _ _ _ _ _ (
                    ok-Ruins _ _ _ _ _ _ (
                      ap (λ i. clear i st) owner,
                      free_context (before id st) (after id st ++ base) s.addr u5 foreign unused
                            left
                          ∙ ap some (
                              sym (owned-clear id st base)
                              ∙ ap (λ i. owned (clear i st) ++ base) (sym owner)),
                      same ∙ ap pick z,
                    ))))
  where
    pick : Bool → List ℕ
    pick b = if b then s.cctx.id ∷ freed_ids t else freed_ids t

    owner : s.owner ≡ id
    owner = find-owner id st s found

    live :
        settle t
        ≡ some
            (before id st ++ (entries_of nc ++ (entry (block, s.addr) [] ∷ (after id st ++ base))))
    live =
        h
        ∙ ap some (
            owned-find id st base s found
            ∙ ap (λ l. before id st ++ l) (owned_slot-some s nc (after id st ++ base) has))
