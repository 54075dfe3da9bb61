-- ===== src/Tests/Devices.antt =====
-- A device with the heap at 2^20 and pages of 4096 bytes, started by worker 3 with the pool key 2.
use lc.Base.{ℕ, ◌+◌, ◌^◌, ◌≡◌, ◌≤◌, ◌<◌, refl, [], ◌∷◌, none, some, arith, get_or}
use lc.Cq.{num_pkts}
use lc.Engine.{World}
use lc.Calls.{packet_size}
use lc.Pool.{Pools}
use lc.Device.{Device, base_packet, packet_at, round_up, lci_dev_init}
use lc.Device.Packets.{Holds, packets, IsMarked}
use lc.Device.Layout.{Laid, device-Laid}
use lc.Device.Ready.{lci_dev_init-ready}
use lc.Device.Addresses.{addresses, lc_ep_get_baseaddr-disjoint}
use lc.Tests.{world}

abbrev heap : ℕ
heap = 2 ^ 20

lci_dev_init-ready_example :
    (d : Device) × (w' : World) × (lci_dev_init heap 4096 3 2 (λ wid key. none) world
      ≡ some (3, d, w'))
    × Holds d.pools 3 (packets (base_packet heap 4096) 0 num_pkts)
    × ((i : ℕ) → i < num_pkts → IsMarked w' (packet_at (base_packet heap 4096) i))
    × Laid heap 4096 d
lci_dev_init-ready_example =
    lci_dev_init-ready heap 4096 3 2 (λ wid key. none) world (omega arith) (omega arith)
      (omega arith) (omega arith) refl

abbrev pools : Pools
pools = record { pool = record { key = 2; npools = 0; lpools = λ _. none }; tls = λ wid key. none }

abbrev device : Device
device = record {
  heap = heap;
  curr_addr = round_up 4096 (packet_at (base_packet heap 4096) num_pkts);
  pools = pools;
}

device_at_heap-Laid : Laid heap 4096 device
device_at_heap-Laid = device-Laid heap 4096 (omega arith) (omega arith) pools

-- 100 and 50 bytes.
lc_ep_get_baseaddr-disjoint_example :
    ((i j : ℕ)
      → i < j
      → j < 2
      → get_or (addresses device (100 ∷ 50 ∷ [])) i 0 + get_or (100 ∷ 50 ∷ []) i 0
        ≤ get_or (addresses device (100 ∷ 50 ∷ [])) j 0)
    × ((k i : ℕ)
        → k < num_pkts
        → i < 2
        → packet_at (base_packet heap 4096) k + packet_size
          ≤ get_or (addresses device (100 ∷ 50 ∷ [])) i 0)
lc_ep_get_baseaddr-disjoint_example =
    lc_ep_get_baseaddr-disjoint heap 4096 device (100 ∷ 50 ∷ []) device_at_heap-Laid (omega arith)
