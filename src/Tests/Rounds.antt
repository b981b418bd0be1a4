-- ===== src/Tests/Rounds.antt =====
-- Two rounds of the client of example03, and one of its server.
use rdma_tutorial.Prelude.{◌≡◌, refl, List, [], ◌∷◌, ◌++◌, codes}
use rdma_tutorial.External.{pos, Reply, no_reply}
use rdma_tutorial.Machine.{out_of_fuel, call, die_if, fault_if, ignore, poll}
use rdma_tutorial.Machine.Loops.{Loops}
use rdma_tutorial.Example03.Common.{RdmaContext, initial_context, post_receive, post_send}
use rdma_tutorial.Example03.Client.{await_two, check_completions, send_and_await, send_loop}
use rdma_tutorial.Example03.Server.{echo_completion, echo_once, echo_loop}
use rdma_tutorial.Tests.Scripts.{done, reads}
use rdma_tutorial.Tests.Rdmacm05.{recv_done, send_done}

abbrev context : RdmaContext
context = initial_context 1

abbrev both_done : Reply
both_done = record no_reply { code = pos 2; wcs = recv_done.wc ∷ send_done.wc ∷ [] }

-- the second round gets its two completions from two polls
abbrev two_rounds : List Reply
two_rounds =
    done ∷ done ∷ done ∷ done ∷ both_done ∷ done ∷ done ∷ done ∷ done ∷ done ∷ send_done ∷ done
    ∷ recv_done ∷ done ∷ []

two_rounds_end : (send_loop 2 context 0 (two_rounds, [])).0 ≡ out_of_fuel
unfolding send_loop send_and_await await_two post_receive post_send call die_if ignore
    check_completions fault_if
two_rounds_end = refl

abbrev one_echo : List Reply
one_echo =
    done ∷ done ∷ done ∷ recv_done ∷ reads (codes "hello" ++ 0 ∷ []) ∷ done ∷ done ∷ send_done ∷ []

one_echo_ends : (echo_loop 1 context (one_echo, [])).0 ≡ out_of_fuel
unfolding echo_loop echo_once post_receive echo_completion post_send call die_if fault_if poll
one_echo_ends = refl
