-- ===== src/Tests/Examples.antt =====
-- A host with two devices, one of them with a port.
use rdma_tutorial.Prelude.{◌≡◌, refl, [], ◌∷◌, ◌++◌, List, ℕ, codes}
use rdma_tutorial.External.{pos, Reply, no_reply}
use rdma_tutorial.Machine.Ends.{Ends}
use rdma_tutorial.Machine.Reaches.{Reaches}
use rdma_tutorial.Machine.Observe.{printed, device_lists}
use rdma_tutorial.Rdmacm.Opened.{Never}
use rdma_tutorial.Example01
use rdma_tutorial.Example01.Listing.{Device, handles, told, lines, heading, main-Reaches}
use rdma_tutorial.Example02
use rdma_tutorial.Machine.Observe.{device_lists, port_count}
use rdma_tutorial.Example02.Released.{Asked, Closed, main02-Asked}
use rdma_tutorial.Tests.Scripts.{done, gives, shows, reads}

-- `be64toh` on a host that stores the most significant byte first
abbrev same : ℕ → ℕ
same x = x

abbrev two_devices : List Device
two_devices =
    record { handle = 5; name = codes "mlx5_0"; guid = 77 }
    ∷ record { handle = 6; name = codes "mlx5_1"; guid = 78 }
    ∷ []

main-Reaches_example :
    Reaches []
      (λ n u. (n ≡ pos 0) × (printed u ≡ lines same two_devices ++ heading) × (device_lists u ≡ []))
      (Example01.main same
        (record no_reply { ptr = 4; ptrs = handles two_devices } ∷ told two_devices, []))
main-Reaches_example = main-Reaches same 4 two_devices refl

abbrev argv : List (List ℕ)
argv = codes "main" ∷ codes "mlx5_1" ∷ []

abbrev query_script : List Reply
query_script =
    record no_reply { ptr = 4; ptrs = 5 ∷ 6 ∷ [] }
    ∷ reads (codes "mlx5_0")
    ∷ reads (codes "mlx5_1")
    ∷ reads (codes "mlx5_1")
    ∷ shows 78
    ∷ gives 9
    ∷ record no_reply { device_attr = record { node_guid = 78; phys_port_cnt = 1; max_qp = 64 } }
    ∷ shows 0
    ∷ done
    ∷ done
    ∷ []

main02-Asked_example :
    Ends
      (λ n u. (n ≡ 0) × Closed u × (device_lists u ≡ []) × Asked (port_count u) 1 [] u)
      Never
      (Example02.main same argv (query_script, []))
main02-Asked_example = main02-Asked same argv query_script
