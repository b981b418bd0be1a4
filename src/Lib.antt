-- ===== src/Lib.antt =====
-- The RDMA tutorial programs: an echo server and its client over one queue pair of libibverbs
-- (src/example03), and the same over librdmacm, for one client (src/rdmacm03), with one thread for each
-- connection (src/rdmacm04), or with an epoll loop (src/rdmacm05). Before them stand programs that list
-- devices and ports (src/example01, src/example02), and that open and close a connection (src/rdmacm01,
-- and with threads src/rdmacm02).
--
-- How a program is modelled. A C function is a program of the monad of Machine: it takes the script
-- of the replies that the libraries still have to give and the trace of the calls made so far, newest
-- first, and it returns, dies (`exit`), waits for a reply that is not there, or meets a fault, which is
-- behaviour that C leaves undefined. A library call is a constructor of `Call` in External, and its
-- reply is any value of the record `Reply`: the code of the libraries is not in the repository, so the
-- theorems quantify over scripts, and a hypothesis says what one relies on. A pointer or handle is a
-- number, and 0 is NULL. Text that is only printed is left out, but for src/example01 and src/example02,
-- whose output is a call, and but for the prints of
-- src/example03 that read a string which may not end in its buffer.
--
-- The files:
--   Prelude, Machine, External   shared names; the monad with its rules for proofs; the library calls
--     Machine.Ends, Finishes, Halts, Uses, Reaches and Yields say how a run may end: rules for programs
--     without loops on fuel; with the replies that are left; within the fuel; on a script that has the
--     replies for it; and for results and faults alone. Ruins is as
--     Ends for programs that may fault. Leaves has the rules for what holds if a run
--     returns, Grows for the calls that it adds to the trace, and Loops for loops without an end.
--     Machine.Observe reads data off a trace
--   Libc                         %d, %02d, %06ld and atoi on C strings, and strftime for one format
--   Resources, QueuePair         two contracts of libibverbs, read off a trace: an object is not
--     released while another one is built on it; the states of a queue pair and the attributes that
--     each ibv_modify_qp needs and allows. The first does not count rdma_cm_ids, event
--     channels and lists of devices, and it counts a release where it is called, whatever the reply;
--     Resources.Standing counts it by its reply. Resources.Honest says what the libraries promise of the handles and
--     ids that they give.
--   Wire                         htonll and ntohll of src/example03/rdma_common.h, and the bytes of
--     struct qp_conn_info that the two programs exchange, on a host of either byte order
--   Example03.Common             src/example03/rdma_common.c; Qp and Lifetime set it against the contracts
--   Example03.Client, Server     src/example03/client.c and server.c; open_connection is main up to the
--     close of the socket. Handshake takes the two of them together; Rounds and Echoing count their loops
--   Example01, Example02         src/example01/main.c and src/example02/main.c
--   Rdmacm.Active, Passive       what the mains over librdmacm share: opening and closing a connection,
--     from src/rdmacm01/client.c and server.c; Opened, Closed, Echoes and Halting have their lemmas
--   Rdmacm01, Rdmacm02           the programs that connect and disconnect
--   Rdmacm03                     the client and the server for one connection, and a conversation
--   Rdmacm05.Common              src/rdmacm05/common.c; build_connection is setup_connection with what the
--     five versions of it differ in as an argument. Where a version leaves a field of a work request
--     unassigned, its value is what malloc has left there, a parameter of the programs (Leftover).
--     Logging has timestr, LOG and LOGF, whose text is the same in src/rdmacm01 to src/rdmacm04
--   Rdmacm05.Server              src/rdmacm05/server.c: the `context` of each rdma_cm_id is a slot of a
--     store; one function for each case of handle_cm_event, and handle_cq_event with the loops inside it.
--     Contexts and Invariant are about the store, Ownership, Teardown and Parts about the objects of one
--     connection, Echo about the messages, Halting and Loop about the loops. Ledger and Balance set the objects
--     of all contexts against what is live, over any events. Contract is the abstract map of contexts with its
--     steps; Refines and History set the store and the main loop against it
--   Rdmacm05.Client              src/rdmacm05/client.c
--   Rdmacm04.Table, Threads      src/rdmacm04/server.c as steps of its main thread and of the threads it
--     starts, on the table g_ctxs; one scan of the table is one step
--   Rdmacm04.Server              the same file as programs: handle_request, cm_event_loop, main. Thread is
--     about a whole thread, Steps about each case of the loop against Rdmacm04.Threads. What the threads
--     make of the table between two rounds of cm_event_loop is its parameter `threads`
--   Rdmacm04.Client              src/rdmacm04/client.c, on the halves of a round of Rdmacm05.Client
--   Tests                        the results below at concrete runs
--
-- Loops. `do { } while (ret == 0)` on a poll, and the wait for two completions, take one reply a round
-- and recurse on the script. The `while (1)` loops of src/example03, the loop of main and the loop of
-- handle_cq_event in src/rdmacm05/server.c, and the loops of the servers of src/rdmacm02 to src/rdmacm04
-- recurse on fuel. A round of each loop over librdmacm takes a reply, so that more fuel than replies is
-- enough: a run then waits for a reply where the program would go on. The counts of the clients bound
-- their loops.
--
-- Not modelled: the places where the programs log, the overflow of atoi past int, the contents of the sockets' addresses, and the
-- memory of the buffers other than what is read in them, which is a reply. The threads of src/rdmacm02/server.c interleave as those of
-- src/rdmacm04/server.c, and only the latter are a step relation.
pub mod Prelude
pub mod External
pub mod Machine
pub mod Libc
pub mod QueuePair
pub mod Wire
pub mod Example01
pub mod Example02
pub mod Example03
pub mod Resources
pub mod Rdmacm
pub mod Rdmacm05
pub mod Rdmacm01
pub mod Rdmacm02
pub mod Rdmacm03
pub mod Rdmacm04
pub mod Tests
