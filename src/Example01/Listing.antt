-- ===== src/Example01/Listing.antt =====
-- What the program prints for the devices of a host.
use Prim.Native.String.{String}
use mathlib.Core.List.{append_assoc}
use rdma_tutorial.Prelude.{ℕ, ◌≡◌, refl, ◌∙◌, sym, List, [], ◌∷◌, ◌++◌, ◌==◌, false, codes, arith}
use rdma_tutorial.External.{pos, Reply, no_reply, Trace, PrintArg, text, number}
use rdma_tutorial.Machine.{call, tell}
use rdma_tutorial.Machine.Reaches.{Reaches, ok-Reaches, bind-Reaches, map-Reaches}
use rdma_tutorial.Machine.Observe.{printed, device_lists}
use rdma_tutorial.Example01.{print_devices, main}

-- A host has devices with names and GUIDs.
pub record Device : Type 0 where
  pub handle : ℕ
  pub name : List ℕ
  pub guid : ℕ

abbrev pub handles : List Device → List ℕ
handles [] = []
handles (d ∷ ds) = d.handle ∷ handles ds

-- the replies that tell the names and GUIDs
abbrev pub told : List Device → List Reply
told [] = []
told (d ∷ ds) = record no_reply { bytes = d.name } ∷ record no_reply { value = d.guid } ∷ told ds

-- the lines of the devices, the newest first
abbrev pub lines : (ℕ → ℕ) → List Device → List (String × List PrintArg)
lines be64toh [] = []
lines be64toh (d ∷ ds) =
    lines be64toh ds ++ ("%-16s\t%016llx\n", text d.name ∷ number (be64toh d.guid) ∷ []) ∷ []

abbrev pub heading : List (String × List PrintArg)
heading =
    ("%-16s\t---------------\n", text (codes "------") ∷ [])
    ∷ ("%-16s\tnode GUID\n", text (codes "device") ∷ [])
    ∷ []

pub print_devices-Reaches :
    (be64toh : ℕ → ℕ) (ds : List Device) (t : Trace)
    → Reaches []
        (λ _ u. (printed u ≡ lines be64toh ds ++ printed t) × (device_lists u ≡ device_lists t))
        (print_devices be64toh (handles ds) (told ds, t))
unfolding print_devices call tell
print_devices-Reaches be64toh [] t = ok-Reaches _ _ _ _ (refl, refl)
print_devices-Reaches be64toh (d ∷ ds) t =
    map-Reaches _ _ _ _ (λ _ u h. (h.0 ∙ sym (append_assoc (lines be64toh ds) _ (printed t)), h.1))
      (print_devices-Reaches be64toh ds _)

-- On a host whose list of devices stands at `p`, main returns 0 with one line for each device under
-- the heading, in the order of the list, with its name and its GUID turned by be64toh, and has
-- freed the list.
pub main-Reaches :
    (be64toh : ℕ → ℕ) (p : ℕ) (ds : List Device)
    → (p == 0) ≡ false
    → Reaches []
        (λ n u. (n ≡ pos 0) × (printed u ≡ lines be64toh ds ++ heading) × (device_lists u ≡ []))
        (main be64toh (record no_reply { ptr = p; ptrs = handles ds } ∷ told ds, []))
unfolding main call tell
main-Reaches be64toh p ds h = rw h (
    bind-Reaches _ _ _ _ _ _ (print_devices-Reaches be64toh ds _)
      λ _ u q. ok-Reaches _ _ _ _ (refl, q.0, ground (arith, q.1)))
