-- ===== src/Rdmacm05/Server/Balance.antt =====
-- The ledger of the server over the event handlers and the main loop, for libraries whose handles
-- and ids are new.
use rdma_tutorial.Prelude.{
  ℕ, ◌≡◌, refl, sym, ◌∙◌, true, Option, none, some, List, [], ◌∷◌, ◌++◌, ◌<◌, length, Bool-cases,
  inl, inr, arith,
}
use mathlib.Core.Path.{subst}
use rdma_tutorial.External.{
  ℤ, Reply, Event, Trace, Call, is_zero, CmEventType, connect_request, established, disconnected,
}
use rdma_tutorial.Machine.{World, Outcome, ok, died, waiting, fault, out_of_fuel}
use rdma_tutorial.Machine.Follows.{Follows-IsRest}
use rdma_tutorial.Machine.Observe.{TakesNoEvent, open_ids, member, is_request}
use rdma_tutorial.Machine.Grows.{Grows}
use rdma_tutorial.Machine.Halts.{Halts}
use rdma_tutorial.Machine.Leaves.{
  Leaves, Grows-Leaves, both-Leaves, map-Leaves, under-Leaves, fault_if-Leaves, ok-Leaves,
  bind-Leaves, call-Leaves, ignore-Leaves,
}
use rdma_tutorial.Resources.{Entry, after_event, after_event?, settle}
use rdma_tutorial.Resources.Standing.{standing, IsGranted, standing-settle}
use rdma_tutorial.Resources.Honest.{IsHonest, rest-IsHonest}
use rdma_tutorial.Rdmacm05.Server.Defs.{
  Store, find, dispatch_cm_event, handle_cm_event, handle_cq_event, main_loop,
}
use rdma_tutorial.Rdmacm05.Server.Growing.{dispatch_cm_event-IsGrowing, handle_cq_event-IsGrowing}
use rdma_tutorial.Rdmacm05.Server.Halting.{main_loop-Halts}
use rdma_tutorial.Rdmacm05.Server.Loop.{main_loop-Leaves}
use rdma_tutorial.Rdmacm05.Server.Ownership.{owned}
use rdma_tutorial.Rdmacm05.Server.Still.{handle_cq_event-Holds}
use rdma_tutorial.Rdmacm05.Server.Ledger.{
  IsListed, IsBalanced, unlisted_find, IsListed-cons, on_connect_request-IsBalanced,
  on_established-IsBalanced, on_disconnected-IsBalanced,
}

-- What the trace of get_cm_event says of the id of a connection request: it is new to the store.
abbrev IsRequested : CmEventType → ℕ → Store → Trace → Type 0
IsRequested ev id st t =
    is_request ev ≡ true → (find id st ≡ none) × (member id (open_ids t) ≡ true)

dispatch_cm_event-IsBalanced :
    (fd : ℕ) (ev : CmEventType) (id : ℕ) (st : Store) (rs : List Reply) (t : Trace)
    → IsRequested ev id st t
    → IsHonest t
    → IsBalanced st t
    → Leaves IsBalanced (dispatch_cm_event fd ev id st (rs, t))
unfolding dispatch_cm_event
dispatch_cm_event-IsBalanced fd connect_request id st rs t new honest b =
    let p : (find id st ≡ none) × (member id (open_ids t) ≡ true) = new refl in
    on_connect_request-IsBalanced fd id st rs t b p.0 p.1
dispatch_cm_event-IsBalanced fd established id st rs t new honest b =
    on_established-IsBalanced id st rs t b
dispatch_cm_event-IsBalanced fd disconnected id st rs t new honest b =
    on_disconnected-IsBalanced id st rs t honest b
dispatch_cm_event-IsBalanced fd _ id st rs t new honest b = fault_if-Leaves _ _ _ _ _ λ z. cc

-- What holds if the libraries were honest up to now; a run that goes on from an honest trace.
abbrev pub Balanced : Store → Trace → Type 0
Balanced st t = IsHonest t → IsBalanced st t

IsHonest-Leaves :
    {A : Type 0} (P : A → Trace → Type 0) (t : Trace) (m : Outcome A × World)
    → Grows TakesNoEvent t m
    → (IsHonest t → Leaves P m)
    → Leaves (λ a u. IsHonest u → P a u) m
IsHonest-Leaves P t m grows h =
    both-Leaves _ _ _ m
      (λ a u p after honest. p (rest-IsHonest t u (Follows-IsRest _ t u after) honest))
      (under-Leaves (IsHonest t) P m h) (Grows-Leaves _ t m grows)

-- An event that neither creates nor destroys.
abbrev IsStill : Event → Type 0
IsStill e = (l : List Entry) → after_event e l ≡ some l

still-settle : (e : Event) (o : Option (List Entry)) → IsStill e → after_event? e o ≡ o
still-settle e none q = refl
still-settle e (some l) q = q l

still-Balanced :
    (e : Event) (st : Store) (t : Trace)
    → IsStill e
    → open_ids (e ∷ t) ≡ open_ids t
    → Balanced st t
    → Balanced st (e ∷ t)
still-Balanced e st t q same b honest =
    let h : IsBalanced st t = b honest.2 in
    record {
      ledger = still-settle e (settle t) q ∙ h.ledger;
      orderly = h.orderly;
      listed = subst (λ l. IsListed l st) (sym same) h.listed;
    }

-- rdma_get_cm_event returned an event: its id is open, and new if it is a connection request.
module _ (ec : ℕ) (r : Reply) (st : Store) (t : Trace) (zero_code : is_zero r.code ≡ true) where
  got-open_ids :
      is_request r.event.event ≡ true
      → open_ids ((Call.get_cm_event ec, r) ∷ t) ≡ r.event.id ∷ open_ids t
  got-open_ids q = rw (zero_code, q) refl

  got-IsRequested :
      IsHonest ((Call.get_cm_event ec, r) ∷ t)
      → IsBalanced st t
      → IsRequested r.event.event r.event.id st ((Call.get_cm_event ec, r) ∷ t)
  got-IsRequested honest b q = (
    unlisted_find r.event.id (open_ids t) st (honest.1 (rw (zero_code, q) refl)) b.listed,
    rw (zero_code, q) (ground arith),
  )

  got-Balanced : Balanced st t → Balanced st ((Call.get_cm_event ec, r) ∷ t)
  got-Balanced b honest = record {
    ledger = still-settle (Call.get_cm_event ec, r) (settle t) (λ _. refl) ∙ h.ledger;
    orderly = h.orderly;
    listed = elim (Bool-cases (is_request r.event.event)) [
      | inl q ↦
          subst (λ l. IsListed l st) (sym (got-open_ids q))
            (IsListed-cons r.event.id (open_ids t) st h.listed)
      | inr q ↦ rw (zero_code, q) h.listed
    ];
  }
    where
      h : IsBalanced st t
      h = b honest.2

abbrev Kept : ℤ × Store → Trace → Type 0
Kept r t = Balanced r.1 t

handle_cm_event-Balanced :
    (fd ec : ℕ) (st : Store) (rs : List Reply) (t : Trace)
    → Balanced st t
    → Leaves Kept (handle_cm_event fd ec st (rs, t))
unfolding handle_cm_event
handle_cm_event-Balanced fd ec st rs t b = call-Leaves _ rs t _ _ λ r s1.
    elim (Bool-cases (is_zero r.code)) [
      | inr z ↦ rw z (ok-Leaves _ _ _ _ (still-Balanced _ st t (λ _. refl) (rw z refl) b))
      | inl z ↦ rw z (
          ignore-Leaves _ _ _ _ _ λ a s2.
            bind-Leaves Kept Balanced _ _
              (IsHonest-Leaves IsBalanced _ _ (dispatch_cm_event-IsGrowing fd _ _ st s2 _) λ honest.
                dispatch_cm_event-IsBalanced fd r.event.event r.event.id st s2 _
                  (λ q. got-IsRequested ec r st t z honest.2 (b honest.2.2) q) honest
                  (still-Balanced _ st _ (λ _. refl) refl (got-Balanced ec r st t z b) honest))
              λ st' s3 u3 g. ok-Leaves Kept _ s3 u3 g)
    ]

handle_cq_event-Balanced :
    (fuel cc : ℕ) (st : Store) (rs : List Reply) (t : Trace)
    → Balanced st t
    → Leaves (λ _ u. Balanced st u) (handle_cq_event fuel cc st (rs, t))
handle_cq_event-Balanced fuel cc st rs t b =
    IsHonest-Leaves (λ _ u. IsBalanced st u) t _ (handle_cq_event-IsGrowing fuel cc st rs t)
      λ honest.
        let h : IsBalanced st t = b honest in
        map-Leaves _ _ _
          (λ _ u g. record {
            ledger = g.0;
            orderly = h.orderly;
            listed = subst (λ l. IsListed l st) (sym g.1) h.listed;
          })
          (handle_cq_event-Holds (owned st ++ []) (open_ids t) fuel cc st rs t (h.ledger, refl))

at_end-Leaves :
    {A : Type 0} (P : A → Trace → Type 0) (m : Outcome A × World)
    → IsHonest m.1.1
    → Leaves (λ a u. IsHonest u → P a u) m
    → Leaves P m
unfolding Leaves
at_end-Leaves P (ok a, (_, u)) honest h = h honest
at_end-Leaves P (died e, _) honest h = tt
at_end-Leaves P (waiting, _) honest h = tt
at_end-Leaves P (fault, _) honest h = tt
at_end-Leaves P (out_of_fuel, _) honest h = tt

-- What holds of the ledger holds of the objects that are there, if no release was refused.
standing-Leaves :
    (m : Outcome Store × World)
    → IsGranted m.1.1
    → Leaves IsBalanced m
    → Leaves (λ st u. IsBalanced st u × (standing u ≡ some (owned st ++ []))) m
unfolding Leaves
standing-Leaves (ok st, (_, u)) granted h = (h, standing-settle u granted ∙ h.ledger)
standing-Leaves (died e, _) granted h = tt
standing-Leaves (waiting, _) granted h = tt
standing-Leaves (fault, _) granted h = tt
standing-Leaves (out_of_fuel, _) granted h = tt

-- The ledger of the main loop, for the objects of libibverbs and the blocks of malloc, and not for
-- the rdma_cm_ids. Suppose that what is live before it are exactly the objects of the contexts,
-- that these are in order and have open ids, that there is more fuel than replies, and that up to
-- the end of the run the libraries give new handles and new ids and refuse no release. Then, over
-- any events in any order, the run stays within its fuel, and if it returns, the same holds of the
-- contexts that it leaves: no object was released twice or while another one was built on it, and
-- the objects that are there, a release counted by its reply, are those of the contexts left.
pub main_loop-IsBalanced :
    (fuel fd ec : ℕ) (st : Store) (rs : List Reply) (t : Trace)
    → IsBalanced st t
    → length rs < fuel
    → IsHonest (main_loop fuel fd ec st (rs, t)).1.1
    → IsGranted (main_loop fuel fd ec st (rs, t)).1.1
    → Halts rs (main_loop fuel fd ec st (rs, t))
      × Leaves
          (λ st' u. IsBalanced st' u × (standing u ≡ some (owned st' ++ [])))
          (main_loop fuel fd ec st (rs, t))
main_loop-IsBalanced fuel fd ec st rs t b enough honest granted = (
  main_loop-Halts fuel fd ec st rs t enough,
  standing-Leaves _ granted (
      at_end-Leaves IsBalanced _ honest (
        main_loop-Leaves Balanced (λ st t r. still-Balanced _ st t (λ _. refl) refl)
          (λ st t r. still-Balanced _ st t (λ _. refl) refl) handle_cm_event-Balanced
          handle_cq_event-Balanced fuel fd ec st rs t λ _. b)),
)
