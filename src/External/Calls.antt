-- ===== src/External/Calls.antt =====
-- One constructor for each library function that the programs call, with its arguments, and one
-- record for whatever a call gives back: its return value and its out parameters.
use Prim.Native.String.{String}
use rdma_tutorial.Prelude.{ℕ, List, []}
use rdma_tutorial.External.Types.{
  ℤ, pos, Wc, WcStatus, WcOpcode, CmEvent, CmEventType, Size, QpAttr, QpAttrMask, QpInitAttr,
  RecvWr, SendWr, AccessFlag, PortAttr, DeviceAttr, PrintArg, ConnParam,
}

-- A field that a program reads in an object that a library owns.
pub data LibField : Type 0 where
  verbs_of_id fd_of_cc fd_of_ec lkey_of_mr num_of_qp transport_of_device : LibField

pub data Call : Type 0 where
  -- reads of library objects, and of a C string in memory that the device may have written
  load : LibField → ℕ → Call
  load_string : ℕ → Call
  -- a read of as many bytes from an address on, in such memory
  load_bytes : ℕ → ℕ → Call
  -- a read of the variable that a signal handler clears
  load_keep_running : Call
  -- libibverbs
  get_device_list : Call
  get_device_name : ℕ → Call
  get_device_guid : ℕ → Call
  free_device_list : ℕ → Call
  open_device : ℕ → Call
  close_device : ℕ → Call
  query_device : ℕ → Call
  query_port : (ctx port : ℕ) → Call
  query_gid : (ctx port index : ℕ) → Call
  alloc_pd : ℕ → Call
  dealloc_pd : ℕ → Call
  reg_mr : (pd addr len : ℕ) → List AccessFlag → Call
  dereg_mr : ℕ → Call
  create_comp_channel : ℕ → Call
  destroy_comp_channel : ℕ → Call
  create_cq : (ctx cqe cc : ℕ) → Call
  destroy_cq : ℕ → Call
  req_notify_cq : (cq : ℕ) → Call
  get_cq_event : (cc : ℕ) → Call
  ack_cq_events : (cq n : ℕ) → Call
  poll_cq : (cq entries : ℕ) → Call
  create_qp : ℕ → QpInitAttr → Call
  destroy_qp : ℕ → Call
  modify_qp : ℕ → QpAttr → List QpAttrMask → Call
  post_recv : ℕ → RecvWr → Call
  -- with the C string that the send buffer holds at the call
  post_send : ℕ → SendWr → List ℕ → Call
  -- librdmacm
  create_event_channel : Call
  destroy_event_channel : ℕ → Call
  create_id : (ec : ℕ) → Call
  destroy_id : ℕ → Call
  resolve_addr : (id ms : ℕ) → Call
  resolve_route : (id ms : ℕ) → Call
  bind_addr : ℕ → Call
  rdma_listen : (id backlog : ℕ) → Call
  get_cm_event : (ec : ℕ) → Call
  ack_cm_event : CmEvent → Call
  -- its reply's `ptr` is the QP that the call stores in the field `qp` of the id
  rdma_create_qp : (id pd : ℕ) → QpInitAttr → Call
  rdma_connect : ℕ → ConnParam → Call
  rdma_accept : ℕ → ConnParam → Call
  rdma_reject : ℕ → Call
  rdma_disconnect : ℕ → Call
  -- libc
  malloc : Size → Call
  free : ℕ → Call
  sleep : ℕ → Call
  -- with its format and the arguments; the programs ignore its result
  printf : String → List PrintArg → Call
  getaddrinfo freeaddrinfo : Call
  socket inet_pton : Call
  connect : ℕ → Call
  bind : (fd port : ℕ) → Call
  listen : (fd backlog : ℕ) → Call
  accept : ℕ → Call
  read : (fd n : ℕ) → Call
  write : ℕ → List ℕ → Call
  close : ℕ → Call
  epoll_create : Call
  epoll_add epoll_del : (fd ptr : ℕ) → Call
  epoll_wait : (events ms : ℕ) → Call
  -- threads and semaphores, by the index of the context that they are in
  thread_create : (index : ℕ) → Call
  sem_wait : (index : ℕ) → Call
  sem_destroy : (index : ℕ) → Call
  -- the write of NULL to the id of a context in the array that the threads share
  clear_id : (index : ℕ) → Call

-- What a call gives back; a call fills the fields that its C function has.
pub record Reply : Type 0 where
  pub code : ℤ  -- a returned int
  pub ptr : ℕ  -- a returned pointer or handle, or one stored through an out parameter
  pub value : ℕ  -- an unsigned field that was read
  pub wc : Wc  -- the completion that a poll with room for one stores
  pub wcs : List Wc  -- the completions that a poll with room for many stores
  pub event : CmEvent
  pub bytes : List ℕ
  pub port_attr : PortAttr
  pub device_attr : DeviceAttr
  pub ptrs : List ℕ  -- the `data.ptr` of the events of epoll_wait, or a list of devices

abbrev pub no_reply : Reply
no_reply = record {
  code = pos 0;
  ptr = 0;
  value = 0;
  wc = record { status = WcStatus.success; opcode = WcOpcode.wc_other 0; wr_id = 0; byte_len = 0 };
  wcs = [];
  event = record { event = CmEventType.other_event 0; id = 0 };
  bytes = [];
  port_attr = record { lid = 0; active_mtu = 0; port_state = 0; active_speed = 0 };
  device_attr = record { node_guid = 0; phys_port_cnt = 0; max_qp = 0 };
  ptrs = [];
}

-- A call and its reply. A trace is a list of events, the newest first.
abbrev pub Event : Type 0
Event = Call × Reply

abbrev pub Trace : Type 0
Trace = List Event
