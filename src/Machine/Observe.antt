-- ===== src/Machine/Observe.antt =====
-- What a trace shows of the data that passed: sockets, posted requests and completions.
use Prim.Native.String.{String}
use rdma_tutorial.Prelude.{
  ◌≡◌, refl, ◌++◌, ltb, Bool, true, false, ◌&&◌, ◌||◌, ℕ, suc, ◌+◌, Option, none, some, List, [],
  ◌∷◌, ◌==◌, if◌then◌else◌, take,
}
use rdma_tutorial.External.{
  CmEvent, Sge, pos_part, PrintArg, Call, LibField, Reply, Trace, Wc, CmEventType, connect_request,
  is_zero, is_negative, is_recv,
}

-- the bytes of the newest read, and of the newest write
abbrev pub received : Trace → Option (List ℕ)
received [] = none
received ((Call.read _ _, r) ∷ t) = some r.bytes
received (_ ∷ t) = received t

abbrev pub written : Trace → Option (List ℕ)
written [] = none
written ((Call.write _ bs, _) ∷ t) = some bs
written (_ ∷ t) = written t

-- the number that the newest read of `qp->qp_num` gave
abbrev pub own_qp_num : Trace → Option ℕ
own_qp_num [] = none
own_qp_num ((Call.load LibField.num_of_qp _, r) ∷ t) = some r.value
own_qp_num (_ ∷ t) = own_qp_num t

-- the receive requests that were accepted
abbrev pub posted : Trace → ℕ
posted [] = 0
posted ((Call.post_recv _ _, r) ∷ t) = if is_zero r.code then suc (posted t) else posted t
posted (_ ∷ t) = posted t

-- the texts of the send requests that were accepted, the newest first
abbrev pub sent : Trace → List (List ℕ)
sent [] = []
sent ((Call.post_send _ _ text, r) ∷ t) = if is_zero r.code then text ∷ sent t else sent t
sent (_ ∷ t) = sent t

-- the strings that were read in memory that the device may have written, the newest first
abbrev pub heard : Trace → List (List ℕ)
heard [] = []
heard ((Call.load_string _, r) ∷ t) = r.bytes ∷ heard t
heard (_ ∷ t) = heard t

-- What a receive has brought: of the bytes that were read in a buffer right after a poll, as many
-- as its completion says; the newest first.
abbrev pub newest_len : Trace → ℕ
newest_len ((Call.poll_cq _ _, r) ∷ _) = r.wc.byte_len
newest_len _ = 0

abbrev pub arrived_bytes : Trace → List (List ℕ)
arrived_bytes [] = []
arrived_bytes ((Call.load_bytes _ _, r) ∷ t) = take (newest_len t) r.bytes ∷ arrived_bytes t
arrived_bytes (_ ∷ t) = arrived_bytes t

-- Every request that was posted leads to no further one.
abbrev pub chains_end : Trace → Bool
chains_end [] = true
chains_end ((Call.post_recv _ wr, _) ∷ t) = (wr.next == 0) && chains_end t
chains_end ((Call.post_send _ wr _, _) ∷ t) = (wr.next == 0) && chains_end t
chains_end (_ ∷ t) = chains_end t

-- the completions of one poll
abbrev pub completions : ℕ → Reply → List Wc
completions n r =
    if is_negative r.code
    then []
    else if is_zero r.code
    then []
    else if n == 1
    then r.wc ∷ []
    else r.wcs

abbrev pub recvs_among : List Wc → ℕ
recvs_among [] = 0
recvs_among (wc ∷ wcs) = if is_recv wc.opcode then suc (recvs_among wcs) else recvs_among wcs

-- the receive completions that were polled
abbrev pub completed : Trace → ℕ
completed [] = 0
completed ((Call.poll_cq _ n, r) ∷ t) = recvs_among (completions n r) + completed t
completed (_ ∷ t) = completed t

-- the device lists that were given and not freed since
abbrev pub without : ℕ → List ℕ → List ℕ
without p [] = []
without p (q ∷ qs) = if q == p then qs else q ∷ without p qs

abbrev pub device_lists : Trace → List ℕ
device_lists [] = []
device_lists ((Call.get_device_list, r) ∷ t) =
    if r.ptr == 0 then device_lists t else r.ptr ∷ device_lists t
device_lists ((Call.free_device_list p, _) ∷ t) = without p (device_lists t)
device_lists (_ ∷ t) = device_lists t

-- the ports that were queried with success, the newest first
abbrev pub queried : Trace → List ℕ
queried [] = []
queried ((Call.query_port _ port, r) ∷ t) = if is_zero r.code then port ∷ queried t else queried t
queried (_ ∷ t) = queried t

-- the ports whose query failed, the newest first
abbrev pub refused_ports : Trace → List ℕ
refused_ports [] = []
refused_ports ((Call.query_port _ port, r) ∷ t) =
    if is_zero r.code then refused_ports t else port ∷ refused_ports t
refused_ports (_ ∷ t) = refused_ports t

-- the number of ports that the newest query of a device gave, and 0 if there was none or it failed
abbrev pub port_count : Trace → ℕ
port_count [] = 0
port_count ((Call.query_device _, r) ∷ t) =
    if is_zero r.code then r.device_attr.phys_port_cnt else 0
port_count (_ ∷ t) = port_count t

-- what was printed, the newest first
abbrev pub printed : Trace → List (String × List PrintArg)
printed [] = []
printed ((Call.printf format args, _) ∷ t) = (format, args) ∷ printed t
printed (_ ∷ t) = printed t

abbrev pub member : ℕ → List ℕ → Bool
member p [] = false
member p (q ∷ qs) = (q == p) || member p qs

abbrev pub is_request : CmEventType → Bool
is_request connect_request = true
is_request _ = false

-- The ids of connection requests that were not destroyed since.
abbrev pub open_ids : Trace → List ℕ
open_ids [] = []
open_ids ((Call.get_cm_event _, r) ∷ t) =
    if is_zero r.code && is_request r.event.event then r.event.id ∷ open_ids t else open_ids t
open_ids ((Call.destroy_id id, _) ∷ t) = without id (open_ids t)
open_ids (_ ∷ t) = open_ids t

-- a call that takes no event of the connection manager
abbrev pub TakesNoEvent : Call → Type 0
TakesNoEvent (Call.get_cm_event _) = ⊥
TakesNoEvent _ = Unit

-- The events of the connection manager that were taken, the newest first.
abbrev pub cm_events : Trace → List CmEvent
cm_events [] = []
cm_events ((Call.get_cm_event _, r) ∷ t) =
    if is_zero r.code then r.event ∷ cm_events t else cm_events t
cm_events (_ ∷ t) = cm_events t

-- the completions that polls have given
abbrev pub polled : Trace → ℕ
polled [] = 0
polled ((Call.poll_cq _ _, r) ∷ t) = pos_part r.code + polled t
polled (_ ∷ t) = polled t

-- Every segment of the requests that were posted is at most `n` bytes long.
abbrev pub segments_within : ℕ → List Sge → Bool
segments_within n [] = true
segments_within n (s ∷ ss) = ltb s.length (suc n) && segments_within n ss

abbrev pub posted_within : ℕ → Trace → Bool
posted_within n [] = true
posted_within n ((Call.post_recv _ wr, _) ∷ t) = segments_within n wr.sg_list && posted_within n t
posted_within n ((Call.post_send _ wr _, _) ∷ t) = segments_within n wr.sg_list && posted_within n t
posted_within n (_ ∷ t) = posted_within n t

-- The ids that rdma_destroy_id has freed, the newest first: it frees nothing if it fails.
abbrev pub freed_ids : Trace → List ℕ
freed_ids [] = []
freed_ids ((Call.destroy_id id, r) ∷ t) = if is_zero r.code then id ∷ freed_ids t else freed_ids t
freed_ids (_ ∷ t) = freed_ids t

abbrev pub KeepsIds : Call → Type 0
KeepsIds (Call.destroy_id _) = ⊥
KeepsIds _ = Unit

pub KeepsIds-freed_ids :
    (c : Call) (r : Reply) (t : Trace) → KeepsIds c → freed_ids ((c, r) ∷ t) ≡ freed_ids t
KeepsIds-freed_ids (Call.destroy_id _) r t h = absurd h
KeepsIds-freed_ids _ r t h = refl

-- The queue pairs of the receives that were accepted, those of the sends with their texts, and the
-- buffers that were read with what stood there; the newest first.
abbrev pub posted_on : Trace → List ℕ
posted_on [] = []
posted_on ((Call.post_recv qp _, r) ∷ t) = if is_zero r.code then qp ∷ posted_on t else posted_on t
posted_on (_ ∷ t) = posted_on t

abbrev pub sent_on : Trace → List (ℕ × List ℕ)
sent_on [] = []
sent_on ((Call.post_send qp _ text, r) ∷ t) =
    if is_zero r.code then (qp, text) ∷ sent_on t else sent_on t
sent_on (_ ∷ t) = sent_on t

abbrev pub heard_in : Trace → List (ℕ × List ℕ)
heard_in [] = []
heard_in ((Call.load_string p, r) ∷ t) = (p, r.bytes) ∷ heard_in t
heard_in (_ ∷ t) = heard_in t

-- the `wr_id` of the receive completions that were polled, the newest first
abbrev pub ids_among : List Wc → List ℕ
ids_among [] = []
ids_among (wc ∷ wcs) = if is_recv wc.opcode then ids_among wcs ++ wc.wr_id ∷ [] else ids_among wcs

abbrev pub recv_ids : Trace → List ℕ
recv_ids [] = []
recv_ids ((Call.poll_cq _ n, r) ∷ t) = ids_among (completions n r) ++ recv_ids t
recv_ids (_ ∷ t) = recv_ids t
