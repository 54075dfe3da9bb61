-- ===== src/Device/Ready.antt =====
-- A device after `lci_dev_init` of src/include/lc_priv.h.
use lc.Base.{ℕ, ◌+◌, ◌*◌, ◌^◌, ◌≤◌, ◌<◌, ◌≡◌, refl, ap, ◌∙◌, [], Option, none, some, arith}
use lc.Cq.{num_pkts}
use lc.Engine.{World, context_size}
use lc.Pool.{Pool, Pools, max_npools, max_local_pool}
use lc.Pool.Worker.{create_lem}
use lc.Device.{
  Device, base_packet, packet_at, round_up, device_of, with_key, over_pool, lci_dev_init,
}
use lc.Device.Packets.{
  Holds, packets, put_packets-Holds, IsMarked, init_all, init_all-all, created-Holds,
}
use lc.Device.Layout.{Laid, device-Laid}

-- With a pool key below 32, a worker below 272 without a deque under it, a page that holds a
-- packet's context and a heap that lies below 2^64 with two pages and 2^24 bytes, the start of a
-- device returns: the worker's deque is the only one and holds the 1024 packets in order, each
-- belongs to pool 0 and its own request points back to it, and they lie one behind the other below
-- the first address that is given out, which begins a page.
pub lci_dev_init-ready :
    (heap page wid nkey : ℕ) (tls : ℕ → ℕ → Option ℕ) (w : World)
    → context_size ≤ page
    → heap + 2 * page + 2 ^ 24 < 2 ^ 64
    → wid < max_npools
    → nkey < max_local_pool
    → tls wid nkey ≡ none
    → (d : Device) × (w' : World) × (lci_dev_init heap page wid nkey tls w ≡ some (nkey + 1, d, w'))
      × Holds d.pools wid (packets (base_packet heap page) 0 num_pkts)
      × ((i : ℕ) → i < num_pkts → IsMarked w' (packet_at (base_packet heap page) i))
      × Laid heap page d
unfolding lci_dev_init
lci_dev_init-ready heap page wid nkey tls w ctx fits hw hk e =
    let base : ℕ = base_packet heap page in
    let pool : Pool = record { key = nkey; npools = 0; lpools = λ _. none } in
    let s : Pools = record { pool = pool; tls = tls } in
    let (s', went, held) =
      put_packets-Holds wid base num_pkts 0 s w [] (created-Holds s wid hw hk refl e)
        (omega arith) in
    (
      record { heap = heap; curr_addr = round_up page (packet_at base num_pkts); pools = s' },
      init_all base 0 num_pkts w,
      ap (over_pool heap page wid tls w) (create_lem nkey (omega arith))
          ∙ ap (λ o. with_key (nkey + 1) (device_of heap page o)) went,
      held,
      init_all-all base num_pkts w,
      device-Laid heap page ctx fits s',
    )
