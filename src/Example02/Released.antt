-- ===== src/Example02/Released.antt =====
-- What the program gives back, and which ports it asks for.
use mathlib.Core.Path.{subst}
use mathlib.Core.List.{append_assoc}
use rdma_tutorial.Prelude.{
  ℕ, zero, suc, ◌+◌, ◌≡◌, refl, ap, ◌∙◌, sym, ◌⊎◌, ◌<◌, false, some, List, [], ◌∷◌, ◌++◌, ◌==◌,
  Bool-cases, inl, inr, arith,
}
use rdma_tutorial.External.{Reply, no_reply, Trace, Call, PrintArg, PortAttr, DeviceAttr, is_zero}
use rdma_tutorial.Machine.Ends.{
  Ends, ok-Ends, call-Ends, tell-Ends, bind-Ends, map-Ends, die_if-Ends, tell-last,
}
use rdma_tutorial.Machine.Observe.{device_lists, queried, refused_ports, port_count, printed}
use rdma_tutorial.Resources.{Entry, entry, device}
use rdma_tutorial.Resources.Standing.{standing}
use Prim.Native.String.{String}
use rdma_tutorial.Rdmacm.Opened.{Never}
use rdma_tutorial.Example02.{
  same_text, find_device, print_port, show_ports, print_device, query_device, close_device,
  show_device, second, main,
}

-- what stands, the device lists that are held, the ports that were queried with success, the number
-- of ports of the device, and no port that was refused
abbrev pub Has : List Entry → List ℕ → List ℕ → ℕ → Trace → Type 0
Has l lists ports count u =
    (standing u ≡ some l)
    × (device_lists u ≡ lists)
    × (queried u ≡ ports)
    × (port_count u ≡ count)
    × (refused_ports u ≡ [])

-- the ports from `port` on, the newest first
abbrev pub ports_from : ℕ → ℕ → List ℕ
ports_from port zero = []
ports_from port (suc n) = ports_from (port + 1) n ++ port ∷ []

-- With `left` ports to go from `port` on: all were queried with success, or the first `n` were and
-- the next one was refused.
abbrev pub Asked : ℕ → ℕ → List ℕ → Trace → Type 0
Asked left port ports u =
    (n : ℕ) × (queried u ≡ ports_from port n ++ ports)
    × (((n ≡ left) × (refused_ports u ≡ [])) ⊎ ((n < left) × (refused_ports u ≡ (port + n) ∷ [])))

-- the same, with what else the trace shows
abbrev Shows : List Entry → List ℕ → ℕ → (Trace → Type 0) → Trace → Type 0
Shows l lists count Q u =
    (standing u ≡ some l) × (device_lists u ≡ lists) × (port_count u ≡ count) × Q u

-- No device is open, or it is the one whose closing was refused, which was reported.
abbrev pub Closed : Trace → Type 0
Closed u =
    (standing u ≡ some [])
    ⊎ ((ctx : ℕ) × (said : List (String × List PrintArg)) × (standing u
          ≡ some (entry (device, ctx) [] ∷ []))
        × (printed u ≡ ("Failed to close device\n", []) ∷ said))

module _ (l : List Entry) (lists ports : List ℕ) (count : ℕ) where
  find_device-Has :
      (name : List ℕ) (ds : List ℕ) (rs : List Reply) (t : Trace)
      → Has l lists ports count t
      → Ends (λ _ u. Has l lists ports count u) Never (find_device name ds (rs, t))
  unfolding find_device
  find_device-Has name [] rs t h = ok-Ends _ _ _ _ _ h
  find_device-Has name (d ∷ ds) rs t h = call-Ends _ _ _ _ _ _ λ r s.
      elim (Bool-cases (same_text r.bytes name)) [
        | inl y ↦ rw y (ok-Ends _ _ _ _ _ (ground arith))
        | inr y ↦ rw y (find_device-Has name ds s _ (ground arith))
      ]

  print_port-Has :
      (port : ℕ) (attr : PortAttr) (rs : List Reply) (t : Trace)
      → Has l lists ports count t
      → Ends (λ _ u. Has l lists ports count u) Never (print_port port attr (rs, t))
  unfolding print_port
  print_port-Has port attr rs t h =
      tell-Ends _ _ _ _ _ _
        (tell-Ends _ _ _ _ _ _ (tell-Ends _ _ _ _ _ _ (tell-last _ _ _ _ _ (ground arith))))

  print_device-Has :
      (d : ℕ) (attr : DeviceAttr) (rs : List Reply) (t : Trace)
      → Has l lists ports count t
      → Ends (λ _ u. Has l lists ports count u) Never (print_device d attr (rs, t))
  unfolding print_device
  print_device-Has d attr rs t h = call-Ends _ _ _ _ _ _ λ r s.
      tell-Ends _ _ _ _ _ _
        (tell-Ends _ _ _ _ _ _ (tell-Ends _ _ _ _ _ _ (tell-last _ _ _ _ _ (ground arith))))

one_port_more :
    (left port : ℕ) (ports : List ℕ) (u : Trace)
    → Asked left (port + 1) (port ∷ ports) u
    → Asked (suc left) port ports u
one_port_more left port ports u (n, e, inl (k, q)) =
    (suc n, e ∙ sym (append_assoc (ports_from (port + 1) n) (port ∷ []) ports), inl (ap suc k, q))
one_port_more left port ports u (n, e, inr (k, q)) = (
  suc n,
  e ∙ sym (append_assoc (ports_from (port + 1) n) (port ∷ []) ports),
  inr (omega (arith, k), q ∙ ap (λ x. x ∷ []) (omega arith)),
)

show_ports-Asked :
    (l : List Entry) (lists ports : List ℕ) (count ctx left port : ℕ) (rs : List Reply) (t : Trace)
    → Has l lists ports count t
    → Ends
        (λ _ u. Shows l lists count (Asked left port ports) u)
        Never
        (show_ports ctx left port (rs, t))
unfolding show_ports
show_ports-Asked l lists ports count ctx zero port rs t h =
    ok-Ends _ _ _ _ _ (h.0, h.1, h.3, (0, h.2, inl (refl, h.4)))
show_ports-Asked l lists ports count ctx (suc left) port rs t h = call-Ends _ _ _ _ _ _ λ r s.
    elim (Bool-cases (is_zero r.code)) [
      | inr z ↦ rw z (
          tell-last _ _ _ _ _ (
            ground (arith, h.0),
            h.1,
            h.3,
            (0, rw z h.2, inr (omega arith, rw z (ground (arith, h.4)))),
          ))
      | inl z ↦ rw z (
          bind-Ends _ _ _ _ _
            (print_port-Has l lists (port ∷ ports) count port r.port_attr s _
              (ground (arith, h.0), h.1, rw z (ap (λ x. port ∷ x) h.2), h.3, rw z h.4))
            λ _ s2 u2 h2.
              map-Ends _ _ _ _ (λ _ u a. (a.0, a.1, a.2, one_port_more left port ports u a.3))
                (show_ports-Asked l lists (port ∷ ports) count ctx left (port + 1) s2 u2 h2))
    ]

-- what a query of the device leaves: the ports of its count
abbrev Queried : List Entry → List ℕ → Trace → Type 0
Queried l lists u = (standing u ≡ some l) × (device_lists u ≡ lists) × Asked (port_count u) 1 [] u

settled :
    (l : List Entry) (lists : List ℕ) (count : ℕ) (u : Trace)
    → Shows l lists count (Asked count 1 []) u
    → Queried l lists u
settled l lists count u h = (h.0, h.1, subst (λ c. Asked c 1 [] u) (sym h.2) h.3)

query_device-Queried :
    (l : List Entry) (lists : List ℕ) (ctx d : ℕ) (rs : List Reply) (t : Trace)
    → Has l lists [] 0 t
    → Ends (λ _ u. Queried l lists u) Never (query_device ctx d (rs, t))
unfolding query_device
query_device-Queried l lists ctx d rs t h = call-Ends _ _ _ _ _ _ λ r s.
    elim (Bool-cases (is_zero r.code)) [
      | inl z ↦ rw z (
          bind-Ends _ _ _ _ _
            (print_device-Has l lists [] r.device_attr.phys_port_cnt d r.device_attr s _
              (ground (arith, h.0), h.1, h.2, rw z refl, h.4))
            λ _ s2 u2 h2.
              map-Ends _ _ _ _ (λ _ u a. settled l lists _ u a)
                (show_ports-Asked l lists [] _ ctx _ 1 s2 u2 h2))
      | inr z ↦
          rw z (tell-last _ _ _ _ _ (ground (arith, h.0), h.1, (0, h.2, inl (rw z refl, h.4))))
    ]

-- what the program leaves before it frees the list of devices
abbrev Left : List ℕ → Trace → Type 0
Left lists u = Closed u × (device_lists u ≡ lists) × Asked (port_count u) 1 [] u

close_device-Left :
    (lists : List ℕ) (ctx : ℕ) (rs : List Reply) (t : Trace)
    → (ctx == 0) ≡ false
    → Queried (entry (device, ctx) [] ∷ []) lists t
    → Ends (λ _ u. Left lists u) Never (close_device ctx (rs, t))
unfolding close_device
close_device-Left lists ctx rs t n h = rw n (
    call-Ends _ _ _ _ _ _ λ r s. elim (Bool-cases (is_zero r.code)) [
      | inl z ↦ rw z (ok-Ends _ _ _ _ _ (inl (ground arith), h.1, h.2))
      | inr z ↦ rw z (tell-last _ _ _ _ _ (inr (ctx, _, ground arith, refl), h.1, h.2))
    ])

show_device-Left :
    (lists : List ℕ) (be64toh : ℕ → ℕ) (d : ℕ) (rs : List Reply) (t : Trace)
    → Has [] lists [] 0 t
    → Ends (λ _ u. Left lists u) Never (show_device be64toh d (rs, t))
unfolding show_device
show_device-Left lists be64toh d rs t h = elim (Bool-cases (d == 0)) [
  | inl z ↦ rw z (ok-Ends _ _ _ _ _ (inl h.0, h.1, (0, h.2, inl (sym h.3, h.4))))
  | inr z ↦ rw z (
      tell-Ends _ _ _ _ _ _ (
        tell-Ends _ _ _ _ _ _ (
          call-Ends _ _ _ _ _ _ λ name s1. call-Ends _ _ _ _ _ _ λ guid s2. tell-Ends _ _ _ _ _ _ (
            call-Ends _ _ _ _ _ _ λ ctx s3. elim (Bool-cases (ctx.ptr == 0)) [
              | inl y ↦
                  rw y (
                    ok-Ends _ _ _ _ _
                      (inl (ground (arith, h.0)), h.1, (0, h.2, inl (sym h.3, h.4))))
              | inr y ↦ rw y (
                  bind-Ends _ _ _ _ _
                    (query_device-Queried (entry (device, ctx.ptr) [] ∷ []) lists ctx.ptr d s3 _
                      (ground (arith, h.0), h.1, h.2, h.3, h.4))
                    λ _ s4 u4 a. close_device-Left lists ctx.ptr s4 u4 y a)
            ]))))
]

-- The list of devices is not an object of the ledger.
freed_Closed :
    (p : ℕ) (r : Reply) (u : Trace) → Closed u → Closed ((Call.free_device_list p, r) ∷ u)
freed_Closed p r u (inl h) = inl (ground (arith, h))
freed_Closed p r u (inr (ctx, said, h, q)) = inr (ctx, said, ground (arith, h), q)

-- Whatever the libraries reply: when the program returns, it returns 0 and the list of devices is
-- freed; the device is closed if it was opened, except where ibv_close_device failed, which the
-- program has then reported; and it has asked for the ports of the device from 1 on, in order: for
-- all of the number that the device has, or up to the first one whose query failed. It may also
-- die or wait, and meets no fault.
pub main02-Asked :
    (be64toh : ℕ → ℕ) (argv : List (List ℕ)) (rs : List Reply)
    → Ends
        (λ n u. (n ≡ 0) × Closed u × (device_lists u ≡ []) × Asked (port_count u) 1 [] u)
        Never
        (main be64toh argv (rs, []))
unfolding main
main02-Asked be64toh argv rs =
    die_if-Ends _ _ _ _ _ _ _ (λ _. tt)
      λ two. call-Ends _ _ _ _ _ _ λ devices s1.
        die_if-Ends _ _ _ _ _ _ _ (λ _. tt)
          λ given.
            bind-Ends _ _ _ _ _
              (find_device-Has [] (devices.ptr ∷ []) [] 0 (second argv) devices.ptrs s1 _
                (ground arith))
              λ d s2 u2 h2.
                bind-Ends _ _ _ _ _ (show_device-Left (devices.ptr ∷ []) be64toh d s2 u2 h2)
                  λ _ s3 u3 a. tell-Ends _ _ _ _ _ _ (
                    ok-Ends _ _ _ _ _
                      (refl, freed_Closed devices.ptr no_reply u3 a.0, ground (arith, a.1), a.2))
