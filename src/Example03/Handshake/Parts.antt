-- ===== src/Example03/Handshake/Parts.antt =====
-- The read and the write of struct qp_conn_info, as rules.
use mathlib.Core.Option
use rdma_tutorial.Prelude.{ℕ, ◌≡◌, refl, some, List, arith}
use rdma_tutorial.External.{Reply, Trace}
use rdma_tutorial.Machine.{Reason}
use rdma_tutorial.Machine.Ends.{Ends, call-Ends, die_if-Ends, die_if-last, or_fault-Ends, ok-Ends}
use rdma_tutorial.Machine.Observe.{received, written, own_qp_num}
use rdma_tutorial.Wire.{ByteOrder, QpConnInfo, info_bytes, info_of_bytes, local_info, to_host}
use rdma_tutorial.Wire.Exchange.{info_of_bytes-some}
use rdma_tutorial.Resources.{settle}
use rdma_tutorial.QueuePair.{view}
use rdma_tutorial.Example03.Common.{RdmaContext}
use rdma_tutorial.Example03.Client.{read_info, write_info}

abbrev pub Never : Reason → Trace → Type 0
Never _ _ = Unit

-- What a trace shows that neither a read nor a write of the struct changes.
abbrev pub Same : ℕ → Trace → Trace → Type 0
Same qp t u = (settle u ≡ settle t) × (view qp u ≡ view qp t)

pub record HasRead (o : ByteOrder) (qp : ℕ) (t : Trace) (info : QpConnInfo) (u : Trace)
    : Type 0 where
  pub bytes : List ℕ
  pub heard : received u ≡ some bytes
  pub told : Option.map (to_host o) (info_of_bytes o bytes) ≡ some info
  pub same : Same qp t u
  pub wrote : written u ≡ written t
  pub asked : own_qp_num u ≡ own_qp_num t

pub read_info-HasRead :
    (o : ByteOrder) (fd qp : ℕ) (rs : List Reply) (t : Trace)
    → Ends (HasRead o qp t) Never (read_info o fd (rs, t))
unfolding read_info
read_info-HasRead o fd qp rs t = call-Ends _ _ _ _ _ _ λ got s1.
    die_if-Ends _ _ _ _ _ _ _ (λ z. tt)
      λ h1.
        let (info, e) = info_of_bytes-some o got.bytes (ground arith) in
        or_fault-Ends _ _ _ _ _ _ info e (
          ok-Ends _ _ _ _ _ (record {
            bytes = got.bytes;
            heard = refl;
            told = rw e refl;
            same = (ground arith, refl);
            wrote = refl;
            asked = refl;
          }))

pub record HasWritten (o : ByteOrder) (res : RdmaContext) (t : Trace) (u : Trace) : Type 0 where
  pub num : ℕ
  pub asked : own_qp_num u ≡ some num
  pub said : written u ≡ some (info_bytes o (local_info o num res.port_attr.lid res.gid))
  pub same : Same res.qp t u
  pub heard : received u ≡ received t

pub write_info-HasWritten :
    (o : ByteOrder) (fd : ℕ) (res : RdmaContext) (rs : List Reply) (t : Trace)
    → Ends (λ _ u. HasWritten o res t u) Never (write_info o fd res (rs, t))
unfolding write_info
write_info-HasWritten o fd res rs t = call-Ends _ _ _ _ _ _ λ num s1.
    call-Ends _ _ _ _ _ _ λ put s2.
      die_if-last _ _ _ _ _ _ (λ z. tt)
        (λ z. record {
          num = num.value;
          asked = refl;
          said = refl;
          same = (ground arith, refl);
          heard = refl;
        })
