-- ===== src/Tests/Exchange.antt =====
-- The theorems on the exchanged struct, at concrete hosts.
use mathlib.Core.Option
use rdma_tutorial.Prelude.{◌≡◌, refl, some, arith}
use rdma_tutorial.Wire.{little, big, htonll, ntohll, info_bytes, info_of_bytes, local_info, to_host}
use rdma_tutorial.Wire.Exchange.{exchange, ntohll-htonll}
use rdma_tutorial.Prelude.{ℕ, List, [], ◌∷◌}

abbrev some_gid : List ℕ
some_gid = 254 ∷ 128 ∷ 0 ∷ 0 ∷ 0 ∷ 0 ∷ 0 ∷ 0 ∷ 2 ∷ 17 ∷ 34 ∷ 255 ∷ 254 ∷ 51 ∷ 68 ∷ 85 ∷ []

exchange_example :
    Option.map
      (to_host big)
      (info_of_bytes big (info_bytes little (local_info little 70000 3 some_gid)))
    ≡ some (record { qp_num = 70000; lid = 3; gid = some_gid })
exchange_example = exchange little big 70000 3 some_gid (omega arith) (omega arith) refl

ntohll-htonll_example : ntohll little (htonll little 81985529216486895) ≡ 81985529216486895
ntohll-htonll_example = ntohll-htonll little 81985529216486895 (omega arith)
