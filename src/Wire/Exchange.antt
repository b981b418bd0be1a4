-- ===== src/Wire/Exchange.antt =====
-- The byte orders of the two hosts that exchange struct qp_conn_info.
use rdma_tutorial.Prelude.{
  ℕ, zero, suc, ◌<◌, ◌≡◌, ◌≢◌, none, Option-cases, inl, inr, refl, ap, some, List, [], ◌∷◌, length,
  take, arith,
}
use mathlib.Core.Option
use rdma_tutorial.Wire.Defs.{
  QpConnInfo, sizeof_qp_conn_info, ByteOrder, little, big, htonll, ntohll, bswap_64, store_64,
  info_bytes, info_of_bytes, local_info, to_host,
}

-- ntohll undoes htonll on every uint64_t, in either byte order.
pub ntohll-htonll : (o : ByteOrder) (x : ℕ) → x < 18446744073709551616 → ntohll o (htonll o x) ≡ x
unfolding htonll ntohll bswap_64
ntohll-htonll little x h = omega arith
ntohll-htonll big x h = refl

-- htonll of a uint64_t leaves the most significant byte first in memory, in either byte order.
pub store_64-htonll :
    (o : ByteOrder) (x : ℕ) → x < 18446744073709551616 → store_64 o (htonll o x) ≡ store_64 big x
unfolding htonll store_64 bswap_64
store_64-htonll little x h = ground arith
store_64-htonll big x h = refl

take-length : (n : ℕ) (xs : List ℕ) → length xs ≡ n → take n xs ≡ xs
take-length zero [] h = refl
take-length zero (x ∷ xs) h = absurd (omega arith)
take-length (suc n) [] h = refl
take-length (suc n) (x ∷ xs) h = ap (λ l. x ∷ l) (take-length n xs (omega arith))

-- What one host fills into the struct and writes, with a QP number of 32 bits, a LID of 16 and a
-- GID of 16 bytes, is what the other host reads, whatever the byte orders of the two are.
pub exchange :
    (ours theirs : ByteOrder) (qp_num lid : ℕ) (gid : List ℕ)
    → qp_num < 4294967296
    → lid < 65536
    → length gid ≡ 16
    → Option.map
        (to_host theirs)
        (info_of_bytes theirs (info_bytes ours (local_info ours qp_num lid gid)))
      ≡ some (record { qp_num = qp_num; lid = lid; gid = gid })
unfolding info_bytes info_of_bytes local_info to_host
exchange little little q l gid hq hl hg = ground (arith, take-length 16 gid hg)
exchange little big q l gid hq hl hg = ground (arith, take-length 16 gid hg)
exchange big little q l gid hq hl hg = ground (arith, take-length 16 gid hg)
exchange big big q l gid hq hl hg = ground (arith, take-length 16 gid hg)

info_of_bytes-ne-none :
    (o : ByteOrder) (bs : List ℕ) → length bs ≡ sizeof_qp_conn_info → info_of_bytes o bs ≢ none
unfolding info_of_bytes
info_of_bytes-ne-none o [] h = absurd (omega arith)
info_of_bytes-ne-none o (a ∷ []) h = absurd (omega arith)
info_of_bytes-ne-none o (a ∷ b ∷ []) h = absurd (omega arith)
info_of_bytes-ne-none o (a ∷ b ∷ c ∷ []) h = absurd (omega arith)
info_of_bytes-ne-none o (a ∷ b ∷ c ∷ d ∷ []) h = absurd (omega arith)
info_of_bytes-ne-none o (a ∷ b ∷ c ∷ d ∷ e ∷ []) h = absurd (omega arith)
info_of_bytes-ne-none o (a ∷ b ∷ c ∷ d ∷ e ∷ f ∷ gid) h = ground arith

-- Enough bytes are a struct.
pub info_of_bytes-some :
    (o : ByteOrder) (bs : List ℕ)
    → length bs ≡ sizeof_qp_conn_info
    → (info : QpConnInfo) × (info_of_bytes o bs ≡ some info)
info_of_bytes-some o bs h = elim (Option-cases (info_of_bytes o bs)) [
  | inl e ↦ absurd (info_of_bytes-ne-none o bs h e)
  | inr p ↦ p
]
