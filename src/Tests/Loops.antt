-- ===== src/Tests/Loops.antt =====
-- The message loop of the rdmacm05 client on a script that lets its round through, and a store in order.
use rdma_tutorial.Rdmacm05.Server.Contexts.{IsOrderly, accepted-IsFull}
use rdma_tutorial.Tests.Rdmacm05.{store}
use rdma_tutorial.Prelude.{◌≡◌, refl, [], ◌∷◌, ◌++◌, List}
use rdma_tutorial.External.{Reply}
use rdma_tutorial.Machine.Observe.{sent}
use rdma_tutorial.Machine.Reaches.{Reaches, arrived, empty_poll}
use rdma_tutorial.Rdmacm05.Client.{exchange_messages}
use rdma_tutorial.Rdmacm05.Client.Rounds.{messages}
use rdma_tutorial.Rdmacm05.Client.Progress.{Granted, finished, exchange_messages-Reaches}
use rdma_tutorial.Tests.Scripts.{done}
use rdma_tutorial.Tests.Rdmacm05.{conn, request_trace, send_done, recv_done}

-- one round, with an empty poll before each completion
abbrev one_round : List Reply
one_round = done ∷ done ∷ send_done ∷ done ∷ done ∷ recv_done ∷ done ∷ done ∷ done ∷ []

granted : Granted 1 one_round []
granted =
    Granted.round 0 done done done done done _ _ [] [] refl
      (empty_poll _ _ _ refl (arrived _ _ refl refl refl refl)) refl
      (empty_poll _ _ _ refl (arrived _ _ refl refl refl refl)) refl refl (finished [])

exchange_messages-Reaches_example :
    Reaches []
      (λ _ u. sent u ≡ messages 0 1 ++ sent request_trace)
      (exchange_messages 1 0 conn (one_round, request_trace))
exchange_messages-Reaches_example =
    exchange_messages-Reaches 1 0 conn one_round [] request_trace granted

pub store-IsOrderly : IsOrderly store
store-IsOrderly = (accepted-IsFull 1 10 conn, refl, tt)
