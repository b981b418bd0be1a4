-- ===== src/Rdmacm05/Server/Ledger.antt =====
-- The objects and the contexts of the server over any sequence of events.
use mathlib.Core.Path.{subst}
use rdma_tutorial.Prelude.{
  ℕ, ◌≡◌, refl, sym, ap, ◌∙◌, true, false, none, some, List, [], ◌∷◌, ◌++◌, ◌==◌, All, Bool-cases,
  Option-cases, inl, inr, arith,
}
use rdma_tutorial.External.{Reply, Trace}
use rdma_tutorial.Machine.Observe.{open_ids, member, without}
use rdma_tutorial.Machine.Leaves.{Leaves, Ends-Leaves, both-Leaves, ok-Leaves}
use rdma_tutorial.Machine.Ruins.{Ruins-Leaves}
use rdma_tutorial.Resources.{settle}
use rdma_tutorial.Resources.Honest.{IsHonest, settle-IsSound}
use rdma_tutorial.Rdmacm05.Server.Contexts.{
  IsFull, IsOrderly, put-IsOrderly, clear-IsOrderly, with_state-IsFull, find-IsFull,
}
use rdma_tutorial.Rdmacm05.Server.Defs.{
  ConnState, Slot, Store, find, put, replace, clear, with_state, accepting, established_state,
  on_connect_request, on_established, on_disconnected,
}
use rdma_tutorial.Rdmacm05.Server.Ownership.{
  owned, owned_slot, find-owner, HasAccepted, on_connect_request-HasAccepted,
  on_disconnected-settle,
}
use rdma_tutorial.Rdmacm05.Server.Parts.{IsReleasable, found-IsReleasable}
use rdma_tutorial.Rdmacm05.Server.Still.{on_connect_request-Ids, on_disconnected-Ids}

-- Every context has an id of `ids`.
abbrev pub IsListed : List ℕ → Store → Type 0
IsListed ids st = All (λ s. member s.owner ids ≡ true) st

-- What is live are exactly the objects of the contexts, which are in order and have ids that are
-- open.
pub record IsBalanced (st : Store) (t : Trace) : Type 0 where
  pub ledger : settle t ≡ some (owned st ++ [])
  pub orderly : IsOrderly st
  pub listed : IsListed (open_ids t) st

pub unlisted_find :
    (id : ℕ) (ids : List ℕ) (st : Store)
    → member id ids ≡ false
    → IsListed ids st
    → find id st ≡ none
unlisted_find id ids [] m h = refl
unlisted_find id ids (s ∷ st) m h = ground (arith, unlisted_find id ids st m h.1)

pub IsListed-cons : (id : ℕ) (ids : List ℕ) (st : Store) → IsListed ids st → IsListed (id ∷ ids) st
IsListed-cons id ids [] h = tt
IsListed-cons id ids (s ∷ st) h = (ground arith, IsListed-cons id ids st h.1)

owned-replace :
    (c : ConnState) (id : ℕ) (st : Store) (s : Slot)
    → find id st ≡ some s
    → owned (replace (with_state c s) st) ≡ owned st
owned-replace c id [] s h = cc
owned-replace c id (x ∷ st) s h = elim (Bool-cases (x.owner == id)) [
  | inl e ↦
      let q : x ≡ s = ground arith in
      let hit : (x.owner == s.owner) ≡ true = ground arith in
      rw hit (ap (λ y. owned_slot y ++ owned st) (sym q))
  | inr e ↦
      let f : find id st ≡ some s = ground arith in
      let own : s.owner ≡ id = find-owner id st s f in
      let miss : (x.owner == s.owner) ≡ false = ground arith in
      rw miss (ap (λ l. owned_slot x ++ l) (owned-replace c id st s f))
]

replace-IsListed :
    (ids : List ℕ) (new : Slot) (st : Store) → IsListed ids st → IsListed ids (replace new st)
replace-IsListed ids new [] h = tt
replace-IsListed ids new (s ∷ st) h = ground (arith, replace-IsListed ids new st h.1)

member-without :
    (p q : ℕ) (ids : List ℕ) → (p == q) ≡ false → member p (without q ids) ≡ member p ids
member-without p q [] h = refl
member-without p q (x ∷ ids) h = ground (arith, member-without p q ids h)

-- The ids of the contexts that are left after one is gone.
without-IsListed :
    (id : ℕ) (ids : List ℕ) (st : Store)
    → find id st ≡ none
    → IsListed ids st
    → IsListed (without id ids) st
without-IsListed id ids [] f h = tt
without-IsListed id ids (s ∷ st) f h = elim (Bool-cases (s.owner == id)) [
  | inl e ↦ absurd (ground arith)
  | inr e ↦
      (rw (member-without s.owner id ids e) h.0, without-IsListed id ids st (ground arith) h.1)
]

clear-IsListed :
    (id : ℕ) (ids : List ℕ) (st : Store)
    → IsOrderly st
    → IsListed ids st
    → IsListed (without id ids) (clear id st)
clear-IsListed id ids [] o h = tt
clear-IsListed id ids (s ∷ st) o h = elim (Bool-cases (s.owner == id)) [
  | inl e ↦ rw e (without-IsListed id ids st (ground arith) h.1)
  | inr e ↦ rw e (rw (member-without s.owner id ids e) h.0, clear-IsListed id ids st o.2 h.1)
]

-- RDMA_CM_EVENT_CONNECT_REQUEST
accepted-IsBalanced :
    (id : ℕ) (st st' : Store) (t u : Trace)
    → IsBalanced st t
    → find id st ≡ none
    → member id (open_ids t) ≡ true
    → HasAccepted [] id st st' u
    → open_ids u ≡ open_ids t
    → IsBalanced st' u
accepted-IsBalanced id st st' t u b new here a same = record {
  ledger = a.ledger;
  orderly = subst IsOrderly (sym a.added) (full, find_new, b.orderly);
  listed =
      subst (λ l. IsListed l st') (sym same)
        (subst (IsListed (open_ids t)) (sym a.added) (rw own here, b.listed));
}
  where
    own : a.slot.owner ≡ id
    own = a.mine.0

    find_new : find a.slot.owner st ≡ none
    find_new = rw own new

    full : IsFull a.slot
    full = record {
      named = a.mine.1 ∙ sym own;
      nc = a.nc;
      connected = a.mine.2;
      state = accepting;
      known = a.mine.3;
    }

pub on_connect_request-IsBalanced :
    (fd id : ℕ) (st : Store) (rs : List Reply) (t : Trace)
    → IsBalanced st t
    → find id st ≡ none
    → member id (open_ids t) ≡ true
    → Leaves IsBalanced (on_connect_request fd id st (rs, t))
on_connect_request-IsBalanced fd id st rs t b new here =
    both-Leaves _ _ _ _
      (λ st' u h same. elim h [
        | inl a ↦ accepted-IsBalanced id st st' t u b new here a same
        | inr r ↦
            subst (λ s. IsBalanced s u) (sym r.0)
              (record {
                ledger = r.1;
                orderly = b.orderly;
                listed = subst (λ l. IsListed l st) (sym same) b.listed;
              })
      ])
      (Ends-Leaves _ _ _ (on_connect_request-HasAccepted fd id st [] rs t new b.ledger))
      (on_connect_request-Ids (open_ids t) fd id st rs t refl)

-- RDMA_CM_EVENT_ESTABLISHED
pub on_established-IsBalanced :
    (id : ℕ) (st : Store) (rs : List Reply) (t : Trace)
    → IsBalanced st t
    → Leaves IsBalanced (on_established id st (rs, t))
unfolding on_established rdma_tutorial.Machine.or_fault Leaves
on_established-IsBalanced id st rs t b = elim (Option-cases (find id st)) [
  | inl e ↦ rw e tt
  | inr (s, e) ↦
      let own : s.owner ≡ id = find-owner id st s e in
      let here : find s.owner st ≡ some s = subst (λ i. find i st ≡ some s) (sym own) e in
      let shape : put (with_state established_state s) st
          ≡ replace (with_state established_state s) st =
        ground arith in
      rw e (
        rw shape (record {
          ledger =
              b.ledger ∙ ap (λ l. some (l ++ [])) (sym (owned-replace established_state id st s e));
          orderly = subst IsOrderly shape (
              put-IsOrderly (with_state established_state s) st
                (with_state-IsFull established_state s (find-IsFull id st s b.orderly e))
                b.orderly);
          listed = replace-IsListed (open_ids t) (with_state established_state s) st b.listed;
        }))
]

-- RDMA_CM_EVENT_DISCONNECTED
pub on_disconnected-IsBalanced :
    (id : ℕ) (st : Store) (rs : List Reply) (t : Trace)
    → IsHonest t
    → IsBalanced st t
    → Leaves IsBalanced (on_disconnected id st (rs, t))
unfolding on_disconnected Leaves
on_disconnected-IsBalanced id st rs t honest b = elim (Option-cases (find id st)) [
  | inl e ↦ rw (e, on_disconnected) (ok-Leaves IsBalanced st rs t b)
  | inr (s, e) ↦
      let full : IsFull s = find-IsFull id st s b.orderly e in
      let free : IsReleasable id st s full.nc =
        found-IsReleasable id st s full.nc (settle-IsSound t _ honest b.ledger) e full.connected in
      both-Leaves _ _ _ _
        (λ st' u h same.
          subst (λ x. IsBalanced x u) (sym h.0)
            (record {
              ledger = h.1 ∙ ap (λ x. some (owned x ++ [])) h.0;
              orderly = clear-IsOrderly id st b.orderly;
              listed =
                  subst (λ l. IsListed l (clear id st)) (sym same)
                    (clear-IsListed id (open_ids t) st b.orderly b.listed);
            }))
        (Ruins-Leaves _ _ _ _ (
          on_disconnected-settle id st [] s full.nc rs t e full.connected free.whole free.apart
            free.foreign free.unused b.ledger))
        (on_disconnected-Ids (open_ids t) id st s rs t e (full.named ∙ find-owner id st s e) refl)
]
