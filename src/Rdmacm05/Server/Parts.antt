-- ===== src/Rdmacm05/Server/Parts.antt =====
-- The objects of the contexts as parts of what is live, over libraries that give new handles.
use mathlib.Core.Path.{subst}
use rdma_tutorial.Prelude.{
  ℕ, ◌≡◌, refl, ap, ◌∙◌, true, false, some, List, [], ◌∷◌, ◌++◌, ◌==◌, All, Bool-cases, inl, inr,
  arith,
}
use rdma_tutorial.Resources.{rank, Key, Entry, entry, block, in_use, is_live}
use rdma_tutorial.Resources.Releases.{IsForeign}
use rdma_tutorial.Resources.Honest.{IsSound}
use rdma_tutorial.Resources.Apart.{IsGrounded, append-IsGrounded, front-IsForeign, behind-IsSound}
use rdma_tutorial.Rdmacm05.Common.{Connection}
use rdma_tutorial.Rdmacm05.Common.Setup.{entries_of}
use rdma_tutorial.Rdmacm05.Server.Teardown.{IsWhole, IsApart, released_keys}
use rdma_tutorial.Rdmacm05.Server.Defs.{Slot, Store, find}
use rdma_tutorial.Rdmacm05.Server.Ownership.{
  owned_slot, owned, before, after, owned-find, owned_slot-some,
}

owned_slot-IsGrounded : (s : Slot) → IsGrounded (owned_slot s) (owned_slot s)
owned_slot-IsGrounded s = ground arith

before-IsGrounded : (id : ℕ) (st : Store) → IsGrounded (before id st) (before id st)
before-IsGrounded id [] = tt
before-IsGrounded id (s ∷ st) = elim (Bool-cases (s.owner == id)) [
  | inl e ↦ rw e tt
  | inr e ↦ rw e (
      append-IsGrounded (owned_slot s) (before id st) (owned_slot-IsGrounded s)
        (before-IsGrounded id st))
]

-- A connection and its context that are live and sound over other objects.
abbrev part : Connection → ℕ → List Entry → List Entry
part nc addr back = entries_of nc ++ (entry (block, addr) [] ∷ back)

part-IsWhole :
    (nc : Connection) (addr : ℕ) (back : List Entry) → IsSound (part nc addr back) → IsWhole nc
part-IsWhole nc addr back h = ground arith

part-behind :
    (nc : Connection) (addr : ℕ) (back : List Entry)
    → IsSound (part nc addr back)
    → All (λ k. in_use k back ≡ false) (released_keys nc)
part-behind nc addr back h = ground arith

part-in_use :
    (nc : Connection) (addr : ℕ) (back : List Entry)
    → IsSound (part nc addr back)
    → in_use (block, addr) back ≡ false
part-in_use nc addr back h = ground arith

-- a live object that is no device
abbrev Lives : List Entry → Key → Type 0
Lives l k = ((rank k.0 == 0) ≡ false) × (is_live k l ≡ true)

part-Lives :
    (nc : Connection) (addr : ℕ) (back : List Entry)
    → All (Lives (part nc addr back)) (released_keys nc)
part-Lives nc addr back = ground arith

-- What on_disconnected needs to know of a context.
pub record IsReleasable (id : ℕ) (st : Store) (s : Slot) (nc : Connection) : Type 0 where
  pub whole : IsWhole nc
  pub apart : IsApart (before id st) (after id st ++ []) nc
  pub foreign : IsForeign (before id st) (block, s.addr)
  pub unused : in_use (block, s.addr) (after id st ++ []) ≡ false

pub found-IsReleasable :
    (id : ℕ) (st : Store) (s : Slot) (nc : Connection)
    → IsSound (owned st ++ [])
    → find id st ≡ some s
    → s.cctx.conn ≡ some nc
    → IsReleasable id st s nc
found-IsReleasable id st s nc h found has = record {
  whole = part-IsWhole nc s.addr back own;
  apart = record { before = in_front; behind = part-behind nc s.addr back own };
  foreign = front_of (block, s.addr) refl (ground arith);
  unused = part-in_use nc s.addr back own;
}
  where
    back : List Entry
    back = after id st ++ []

    all : IsSound (before id st ++ part nc s.addr back)
    all =
        subst IsSound
          (owned-find id st [] s found
            ∙ ap (λ l. before id st ++ l) (owned_slot-some s nc back has))
          h

    own : IsSound (part nc s.addr back)
    own = behind-IsSound (before id st) (part nc s.addr back) all

    front_of :
        (k : Key)
        → (rank k.0 == 0) ≡ false
        → is_live k (part nc s.addr back) ≡ true
        → IsForeign (before id st) k
    front_of k d live =
        front-IsForeign k (before id st) (part nc s.addr back) all (before-IsGrounded id st) d live

    fronts :
        (ks : List Key) → All (Lives (part nc s.addr back)) ks → All (IsForeign (before id st)) ks
    fronts [] g = tt
    fronts (k ∷ ks) g = (front_of k g.0.0 g.0.1, fronts ks g.1)

    in_front : All (IsForeign (before id st)) (released_keys nc)
    in_front = fronts (released_keys nc) (part-Lives nc s.addr back)
