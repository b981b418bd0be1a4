-- ===== src/Example01.antt =====
-- src/example01/main.c: the devices of the host with their GUIDs.
pub mod Listing
use rdma_tutorial.Prelude.{ℕ, List, [], ◌∷◌, ◌==◌, codes, if◌then◌else◌}
use rdma_tutorial.External.{ℤ, pos, negsuc, Call, text, number}
use rdma_tutorial.Machine.{Prog, pure, call, tell, ◌>>=◌, ◌>>◌}

-- the body of the loop for each device; of the two calls among the arguments of printf, whose order
-- C leaves open, the name comes first. `be64toh` is that of endian.h.
unfoldable pub print_devices : (ℕ → ℕ) → List ℕ → Prog (Unit {0})
print_devices be64toh [] = pure tt
print_devices be64toh (d ∷ ds) = do
  name ← call (Call.get_device_name d)
  guid ← call (Call.get_device_guid d)
  tell (Call.printf "%-16s\t%016llx\n" (text name.bytes ∷ number (be64toh guid.value) ∷ []))
  print_devices be64toh ds

-- perror prints to stderr, and is left out.
unfoldable pub main : (ℕ → ℕ) → Prog ℤ
main be64toh = do
  dev_list ← call Call.get_device_list
  if dev_list.ptr == 0 then pure (negsuc 0) else (do
    tell (Call.printf "%-16s\tnode GUID\n" (text (codes "device") ∷ []))
    tell (Call.printf "%-16s\t---------------\n" (text (codes "------") ∷ []))
    print_devices be64toh dev_list.ptrs
    tell (Call.free_device_list dev_list.ptr)
    pure (pos 0))
