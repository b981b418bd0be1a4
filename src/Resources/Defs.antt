-- ===== src/Resources/Defs.antt =====
-- What libibverbs and malloc ask of a program about the lifetime of their objects, read off a
-- trace: an object is released once, while it is live, and only when nothing that is built on it is
-- live. This is the contract of the manual pages. A release counts where it is called, whatever its
-- reply: the ledger says in which order a program gives its objects back. The rdma_cm_ids are not
-- counted.
use rdma_tutorial.Prelude.{
  ℕ, Bool, false, not, ◌&&◌, ◌||◌, Option, none, some, List, [], ◌∷◌, ◌==◌, if◌then◌else◌,
}
use rdma_tutorial.External.{Call, Reply, Event, Trace, is_zero}

pub data Kind : Type 0 where
  device pd mr cq qp channel block : Kind

abbrev pub rank : Kind → ℕ
rank device = 0
rank pd = 1
rank mr = 2
rank cq = 3
rank qp = 4
rank channel = 5
rank block = 6

abbrev pub Key : Type 0
Key = Kind × ℕ

abbrev pub same : Key → Key → Bool
same (k, p) (j, q) = (rank k == rank j) && (p == q)

-- A live object and the objects that it is built on.
pub record Entry : Type 0 where
  pub key : Key
  pub parents : List Key

abbrev pub entry : Key → List Key → Entry
entry k ps = record { key = k; parents = ps }

abbrev pub holds : Key → List Key → Bool
holds k [] = false
holds k (j ∷ js) = same k j || holds k js

abbrev pub is_live : Key → List Entry → Bool
is_live k [] = false
is_live k (e ∷ es) = same k e.key || is_live k es

abbrev pub in_use : Key → List Entry → Bool
in_use k [] = false
in_use k (e ∷ es) = holds k e.parents || in_use k es

abbrev pub remove : Key → List Entry → List Entry
remove k [] = []
remove k (e ∷ es) = if same k e.key then es else e ∷ remove k es

-- What a call that succeeded has created.
abbrev pub acquired : Call → Reply → Option Entry
acquired (Call.open_device _) r = if r.ptr == 0 then none else some (entry (device, r.ptr) [])
acquired (Call.alloc_pd ctx) r =
    if r.ptr == 0 then none else some (entry (pd, r.ptr) ((device, ctx) ∷ []))
acquired (Call.reg_mr p addr _ _) r =
    if r.ptr == 0 then none else some (entry (mr, r.ptr) ((pd, p) ∷ (block, addr) ∷ []))
acquired (Call.create_comp_channel ctx) r =
    if r.ptr == 0 then none else some (entry (channel, r.ptr) ((device, ctx) ∷ []))
acquired (Call.create_cq ctx _ cc) r =
    if r.ptr == 0 then none else some (entry (cq, r.ptr) ((device, ctx) ∷ (channel, cc) ∷ []))
acquired (Call.create_qp p a) r =
    if r.ptr == 0
    then none
    else some (entry (qp, r.ptr) ((pd, p) ∷ (cq, a.send_cq) ∷ (cq, a.recv_cq) ∷ []))
acquired (Call.rdma_create_qp _ p a) r =
    if is_zero r.code
    then some (entry (qp, r.ptr) ((pd, p) ∷ (cq, a.send_cq) ∷ (cq, a.recv_cq) ∷ []))
    else none
acquired (Call.malloc _) r = if r.ptr == 0 then none else some (entry (block, r.ptr) [])
acquired _ _ = none

-- What a call destroys.
abbrev pub released : Call → Option Key
released (Call.close_device p) = some (device, p)
released (Call.dealloc_pd p) = some (pd, p)
released (Call.dereg_mr p) = some (mr, p)
released (Call.destroy_comp_channel p) = some (channel, p)
released (Call.destroy_cq p) = some (cq, p)
released (Call.destroy_qp p) = some (qp, p)
released (Call.free p) = some (block, p)
released _ = none

abbrev pub release : Key → List Entry → Option (List Entry)
release k l = if is_live k l && not (in_use k l) then some (remove k l) else none

abbrev pub after_event : Event → List Entry → Option (List Entry)
after_event (c, r) l = elim (released c) [
  | some k ↦ release k l
  | none ↦ elim (acquired c r) [ some e ↦ some (e ∷ l) | none ↦ some l ]
]

abbrev pub after_event? : Event → Option (List Entry) → Option (List Entry)
after_event? e none = none
after_event? e (some l) = after_event e l

-- The objects that are live at the end of a trace; `none` if it breaks the contract anywhere.
abbrev pub settle : Trace → Option (List Entry)
settle [] = some []
settle (e ∷ t) = after_event? e (settle t)
