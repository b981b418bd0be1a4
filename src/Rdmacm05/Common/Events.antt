-- ===== src/Rdmacm05/Common/Events.antt =====
-- check_cm_event against equality of the two events.
use rdma_tutorial.Prelude.{◌≡◌, ◌≢◌, refl, ap, ◌∙◌, true, arith, Bool-cases, inl, inr}
use rdma_tutorial.External.{CmEvent, CmEventType}
use rdma_tutorial.Machine.{World, ok, died, reason}
use rdma_tutorial.Rdmacm05.Common.{same_event, check_cm_event}

same_event_sound : (a b : CmEventType) → same_event a b ≡ true → a ≡ b
same_event_sound a b h = ground arith

same_event_refl : (a : CmEventType) → same_event a a ≡ true
same_event_refl a = ground arith

-- On the expected event, and on no other, check_cm_event returns with nothing changed; on every
-- other event it dies.
pub check_cm_event-exact :
    (e : CmEvent) (exp : CmEventType) (w : World)
    → (e.event ≡ exp → check_cm_event e exp w ≡ (ok tt, w))
      × (e.event ≢ exp → check_cm_event e exp w ≡ (died (reason ""), w))
unfolding check_cm_event
check_cm_event-exact e exp w = (
  λ same. rw (ap (λ x. same_event x exp) same ∙ same_event_refl exp) refl,
  λ other. elim (Bool-cases (same_event e.event exp)) [
    | inl y ↦ absurd (other (same_event_sound e.event exp y))
    | inr y ↦ rw y refl
  ],
)
