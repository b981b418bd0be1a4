-- ===== src/Tests/Scripts.antt =====
-- Replies, and the parts of a finished run.
use rdma_tutorial.Prelude.{ℕ, List}
use rdma_tutorial.External.{pos, Reply, no_reply, Trace}
use rdma_tutorial.Machine.{Outcome, World, ok}

-- a call that returns 0
abbrev pub done : Reply
done = no_reply

-- a call that returns an int, a pointer, a field, a list of pointers or some bytes
abbrev pub returns : ℕ → Reply
returns n = record no_reply { code = pos n }

abbrev pub gives : ℕ → Reply
gives p = record no_reply { ptr = p }

abbrev pub shows : ℕ → Reply
shows v = record no_reply { value = v }

abbrev pub reads : List ℕ → Reply
reads bs = record no_reply { bytes = bs }

abbrev pub trace_of : {A : Type 0} → Outcome A × World → Trace
trace_of (_, (_, t)) = t

abbrev pub result_of : {A : Type 0} → A → Outcome A × World → A
result_of d (ok a, _) = a
result_of d _ = d
