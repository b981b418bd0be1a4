-- ===== src/Tests/Rdmacm01.antt =====
-- The programs that connect and disconnect: one client and its server (src/rdmacm01), and a thread
-- of the server of src/rdmacm02.
use rdma_tutorial.Prelude.{refl, [], ◌∷◌, ◌++◌, List}
use rdma_tutorial.External.{Reply}
use rdma_tutorial.Machine.Ends.{Ends}
use rdma_tutorial.Rdmacm.Opened.{Never}
use rdma_tutorial.Rdmacm01.Server
use rdma_tutorial.Rdmacm01.Ended.{HasEnded, main01-HasEnded}
use rdma_tutorial.Rdmacm02.Server.{handle_request}
use rdma_tutorial.Rdmacm02.Server.Leak.{HasLeaked, handle_request-HasLeaked}
use rdma_tutorial.Tests.Scripts.{done, gives}
use rdma_tutorial.Tests.Rdmacm05.{setup_script}
use rdma_tutorial.Tests.Rdmacm03.{dirt, opening, accepting}

abbrev server_script : List Reply
server_script = accepting ++ done ∷ done ∷ done ∷ []

main01-HasEnded_example :
    Ends (λ n u. HasEnded dirt [] [] n u) Never (Server.main dirt (server_script, []))
main01-HasEnded_example = main01-HasEnded dirt server_script [] [] refl

abbrev client_script : List Reply
client_script = opening ++ done ∷ done ∷ []

abbrev thread_script : List Reply
thread_script = setup_script ++ done ∷ done ∷ done ∷ done ∷ []

handle_request-HasLeaked_example :
    Ends (λ _ u. HasLeaked [] [] u) Never (handle_request dirt 1 0 (thread_script, []))
handle_request-HasLeaked_example = handle_request-HasLeaked dirt 1 0 thread_script [] [] refl

-- a listener that meets an event that it does not know
abbrev listening : List Reply
listening = gives 2 ∷ gives 1 ∷ done ∷ done ∷ done ∷ done ∷ done ∷ done ∷ []
