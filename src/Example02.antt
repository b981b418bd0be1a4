-- ===== src/Example02.antt =====
-- src/example02/main.c: the attributes of one device and of its ports.
pub mod Released
use rdma_tutorial.Prelude.{
  ℕ, zero, suc, ◌+◌, Bool, true, false, not, ◌&&◌, List, [], ◌∷◌, ◌==◌, length, codes,
  if◌then◌else◌,
}
use rdma_tutorial.External.{is_zero, Call, LibField, text, number, DeviceAttr, PortAttr}
use rdma_tutorial.Machine.{Prog, reason, pure, call, tell, die_if, ◌>>=◌, ◌>>◌}

-- `!strcmp(a, b)`
abbrev pub same_text : List ℕ → List ℕ → Bool
same_text [] [] = true
same_text (x ∷ xs) (y ∷ ys) = (x == y) && same_text xs ys
same_text _ _ = false

-- `argv[1]`
abbrev pub second : List (List ℕ) → List ℕ
second (_ ∷ b ∷ _) = b
second _ = []

-- the loop over the list of devices: `ib_dev` after it
unfoldable pub find_device : List ℕ → List ℕ → Prog ℕ
find_device ib_dev_name [] = pure 0
find_device ib_dev_name (d ∷ ds) = do
  name ← call (Call.get_device_name d)
  elim (same_text name.bytes ib_dev_name) [ true ↦ pure d | false ↦ find_device ib_dev_name ds ]

unfoldable pub print_port : ℕ → PortAttr → Prog (Unit {0})
print_port port attr = do
  tell (Call.printf "port:\t\t\t%u\n" (number port ∷ []))
  tell (Call.printf "state:\t\t\t(%d)\n" (number attr.port_state ∷ []))
  tell (Call.printf "active_mtu:\t\t(%d)\n" (number attr.active_mtu ∷ []))
  tell (Call.printf "active_speed:\t\t(%d)\n" (number attr.active_speed ∷ []))

-- `for (port = 1; port <= phys_port_cnt; ++port)`, with `left` ports to go
unfoldable pub show_ports : ℕ → ℕ → ℕ → Prog (Unit {0})
show_ports ctx zero port = pure tt
show_ports ctx (suc left) port = do
  r ← call (Call.query_port ctx port)
  elim (is_zero r.code) [
    | true ↦ print_port port r.port_attr >> show_ports ctx left (port + 1)
    | false ↦ tell (Call.printf "Failed to query port %u props\n" (number port ∷ []))
  ]

unfoldable pub print_device : ℕ → DeviceAttr → Prog (Unit {0})
print_device ib_dev attr = do
  transport ← call (Call.load LibField.transport_of_device ib_dev)
  tell (Call.printf "transport:\t\t (%d)\n" (number transport.value ∷ []))
  tell (Call.printf "node_guid:\t\t(%lld)\n" (number attr.node_guid ∷ []))
  tell (Call.printf "phys_port_cnt:\t\t(%d)\n" (number attr.phys_port_cnt ∷ []))
  tell (Call.printf "max_qp:\t\t\t(%d)\n" (number attr.max_qp ∷ []))

-- from ibv_query_device_ex up to the label `close`
unfoldable pub query_device : ℕ → ℕ → Prog (Unit {0})
query_device ctx ib_dev = do
  r ← call (Call.query_device ctx)
  if is_zero r.code
      then (print_device ib_dev r.device_attr >> show_ports ctx r.device_attr.phys_port_cnt 1)
      else tell (Call.printf "Failed to query device props\n" [])

-- the label `close`; the test of `ctx` always holds there
unfoldable pub close_device : ℕ → Prog (Unit {0})
close_device ctx = if ctx == 0 then pure tt else (do
  r ← call (Call.close_device ctx)
  if is_zero r.code then pure tt else tell (Call.printf "Failed to close device\n" []))

-- from the test of `ib_dev` up to the label `out`
unfoldable pub show_device : (ℕ → ℕ) → ℕ → Prog (Unit {0})
show_device be64toh ib_dev = if ib_dev == 0 then pure tt else (do
  tell (Call.printf "%-16s\tnode GUID\n" (text (codes "device") ∷ []))
  tell (Call.printf "%-16s\t---------------\n" (text (codes "------") ∷ []))
  name ← call (Call.get_device_name ib_dev)
  guid ← call (Call.get_device_guid ib_dev)
  tell (Call.printf "%-16s\t%016llx\n" (text name.bytes ∷ number (be64toh guid.value) ∷ []))
  ctx ← call (Call.open_device ib_dev)
  if ctx.ptr == 0 then pure tt else (query_device ctx.ptr ib_dev >> close_device ctx.ptr))

unfoldable pub main : (ℕ → ℕ) → List (List ℕ) → Prog ℕ
main be64toh argv = do
  die_if (not (length argv == 2)) (reason "Usage: %s <ib dev name>\n")
  dev_list ← call Call.get_device_list
  die_if (dev_list.ptr == 0) (reason "Failed to get IB device list")
  ib_dev ← find_device (second argv) dev_list.ptrs
  show_device be64toh ib_dev
  tell (Call.free_device_list dev_list.ptr)
  pure 0
