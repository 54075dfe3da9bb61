-- ===== src/Device/Addresses.antt =====
-- The addresses that `lc_ep_get_baseaddr` of src/ep.c gives out.
use lc.Base.{ℕ, zero, suc, ◌+◌, ◌^◌, ◌≤◌, ◌<◌, List, [], ◌∷◌, arith, length, get_or}
use lc.Cq.{num_pkts}
use lc.Calls.{packet_size}
use lc.Device.{Device, base_packet, packet_at, lc_ep_get_baseaddr}
use lc.Device.Layout.{Laid}

-- The answers to calls with the sizes, one after the other.
pub addresses : Device → List ℕ → List ℕ
addresses d [] = []
addresses d (z ∷ zs) = let (s, a, d') = lc_ep_get_baseaddr d z in a ∷ addresses d' zs

abbrev pub sum : List ℕ → ℕ
sum [] = 0
sum (z ∷ zs) = z + sum zs

addresses-above :
    (d : Device) (zs : List ℕ) (i : ℕ)
    → d.curr_addr + sum zs < 2 ^ 64
    → i < length zs
    → d.curr_addr ≤ get_or (addresses d zs) i 0
unfolding addresses lc_ep_get_baseaddr
addresses-above d [] i fits h = absurd (omega arith)
addresses-above d (z ∷ zs) zero fits h = omega arith
addresses-above d (z ∷ zs) (suc i) fits h =
    let d' = (lc_ep_get_baseaddr d z).2 in
    omega (arith, addresses-above d' zs i (omega arith) (omega arith))

addresses-apart :
    (d : Device) (zs : List ℕ) (i j : ℕ)
    → d.curr_addr + sum zs < 2 ^ 64
    → i < j
    → j < length zs
    → get_or (addresses d zs) i 0 + get_or zs i 0 ≤ get_or (addresses d zs) j 0
unfolding addresses lc_ep_get_baseaddr
addresses-apart d [] i j fits h k = absurd (omega arith)
addresses-apart d (z ∷ zs) i zero fits h k = absurd (omega arith)
addresses-apart d (z ∷ zs) zero (suc j) fits h k =
    let d' = (lc_ep_get_baseaddr d z).2 in
    omega (arith, addresses-above d' zs j (omega arith) (omega arith))
addresses-apart d (z ∷ zs) (suc i) (suc j) fits h k =
    let d' = (lc_ep_get_baseaddr d z).2 in
    addresses-apart d' zs i j (omega arith) (omega arith) (omega arith)

-- On a device that is laid out, as long as the addresses stay below 2^64, a stretch that is given
-- out lies behind every packet and behind the stretches that were given out before.
pub lc_ep_get_baseaddr-disjoint :
    (heap page : ℕ) (d : Device) (zs : List ℕ)
    → Laid heap page d
    → d.curr_addr + sum zs < 2 ^ 64
    → ((i j : ℕ)
        → i < j
        → j < length zs
        → get_or (addresses d zs) i 0 + get_or zs i 0 ≤ get_or (addresses d zs) j 0)
      × ((k i : ℕ)
          → k < num_pkts
          → i < length zs
          → packet_at (base_packet heap page) k + packet_size ≤ get_or (addresses d zs) i 0)
lc_ep_get_baseaddr-disjoint heap page d zs laid fits = (
  λ i j h k. addresses-apart d zs i j fits h k,
  λ k i h g. omega (arith, laid.below k h, addresses-above d zs i fits g),
)
