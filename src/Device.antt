-- ===== src/Device.antt =====
-- Devices and start-up: `lci_dev_init` of src/include/lc_priv.h, `lc_ep_get_baseaddr` of src/ep.c
-- and src/lc.c. The heap of a device, the page size, and the size and rank of the job are what the
-- server layer, the operating system and the process manager answer. `none` is a call of exit, or
-- a device that was not opened.
pub mod Packets
pub mod Layout
pub mod Ready
pub mod Addresses
use lc.Base.{
  ℕ, zero, suc, ◌+◌, ◌-◌, ◌*◌, ◌/◌, ◌%◌, ◌^◌, List, [], ◌∷◌, ◌++◌, Option, none, some, bit_or,
}
use lc.Cq.{Status, ok, num_pkts}
use lc.Endpoint.{Ep, Endpoints, ar_exp, ce_sync, lci_ep_open}
use lc.Engine.{World, set_packet, set_req, req_s, context_size}
use lc.Calls.{packet_size}
use lc.Pool.{Pool, Pools, lc_pool_create, lc_pool_put}

-- The fields of `struct lc_server` that are set up here.
pub record Device : Type 0 where
  pub heap : ℕ
  pub curr_addr : ℕ
  pub pools : Pools

-- `base_packet`, and the packet `i`; addresses have 64 bits.
abbrev pub base_packet : ℕ → ℕ → ℕ
base_packet heap page = (heap + page + 2 ^ 64 - context_size) % 2 ^ 64

abbrev pub packet_at : ℕ → ℕ → ℕ
packet_at base i = (base + i * packet_size) % 2 ^ 64

-- `p->context.poolid = 0; p->context.req_s.parent = p`
abbrev pub init_packet : World → ℕ → World
init_packet w p =
    let w1 = set_packet w p (record (w.packets p) { poolid = 0 }) in
    set_req w1 (req_s p) (record (w1.reqs (req_s p)) { parent = p })

-- The loop over the packets, `n` from number `i` on, by worker `wid`.
unfoldable pub put_packets : ℕ → ℕ → ℕ → ℕ → Pools → World → Option (Pools × World)
put_packets wid base zero i ps w = some (ps, w)
put_packets wid base (suc n) i ps w = elim (lc_pool_put ps wid (packet_at base i)) [
  | none ↦ none
  | some ps' ↦ put_packets wid base n (i + 1) ps' (init_packet w (packet_at base i))
]

abbrev pub round_up : ℕ → ℕ → ℕ
round_up page a = ((a + page + 2 ^ 64 - 1) % 2 ^ 64) / page * page

abbrev pub device_of : ℕ → ℕ → Option (Pools × World) → Option (Device × World)
device_of heap page none = none
device_of heap page (some (ps, w)) = some (
  record {
    heap = heap;
    curr_addr = round_up page (packet_at (base_packet heap page) num_pkts);
    pools = ps;
  },
  w,
)

abbrev pub with_key : ℕ → Option (Device × World) → Option (ℕ × Device × World)
with_key next none = none
with_key next (some (d, w)) = some (next, d, w)

-- The packets go into a new pool over the table `tls_pool_struct`.
abbrev pub over_pool :
    ℕ → ℕ → ℕ → (ℕ → ℕ → Option ℕ) → World → Option (Pool × ℕ) → Option (ℕ × Device × World)
over_pool heap page wid tls w none = none
over_pool heap page wid tls w (some (pool, next)) =
    let s : Pools = record { pool = pool; tls = tls } in
    with_key next (device_of heap page (put_packets wid (base_packet heap page) num_pkts 0 s w))

-- `heap` is `lc_server_heap_ptr`; the number that is returned first is the next key.
unfoldable pub lci_dev_init :
    ℕ → ℕ → ℕ → ℕ → (ℕ → ℕ → Option ℕ) → World → Option (ℕ × Device × World)
lci_dev_init heap page wid nkey tls w = over_pool heap page wid tls w (lc_pool_create nkey)

-- `lc_ep_get_baseaddr`
pub lc_ep_get_baseaddr : Device → ℕ → Status × ℕ × Device
lc_ep_get_baseaddr d size =
    (ok, d.curr_addr, record d { curr_addr = (d.curr_addr + size) % 2 ^ 64 })

-- The globals of src/lc.c, with `lc_pool_nkey` and `tls_pool_struct` of src/pool.c.
pub record Globals : Type 0 where
  pub size : ℕ
  pub rank : ℕ
  pub page_size : ℕ
  pub nkey : ℕ
  pub tls : ℕ → ℕ → Option ℕ
  pub devs : List Device
  pub endpoints : Endpoints

abbrev pub add_device : Globals → Option (ℕ × Device × World) → Option (Globals × World)
add_device g none = none
add_device g (some (next, d, w)) =
    some (record g { nkey = next; tls = d.pools.tls; devs = g.devs ++ d ∷ [] }, w)

-- The loop over the devices; the server of device `i` answers the heap `heaps i`.
unfoldable pub init_devs : ℕ → (ℕ → ℕ) → ℕ → ℕ → Globals → World → Option (Globals × World)
init_devs wid heaps zero i g w = some (g, w)
init_devs wid heaps (suc n) i g w =
    elim (add_device g (lci_dev_init (heaps i) g.page_size wid g.nkey g.tls w)) [
      | none ↦ none
      | some (g', w') ↦ init_devs wid heaps n (i + 1) g' w'
    ]

-- The endpoint of `lc_init`, on the first device.
abbrev pub open_first : Ep → Option (Globals × World) → Option (Status × Ep × Globals × World)
open_first fresh none = none
open_first fresh (some (g, w)) = elim g.devs [
  | [] ↦ none
  | d ∷ ds ↦
      let (ep, es) = lci_ep_open g.endpoints fresh 0 (bit_or ar_exp ce_sync) in
      some (ok, ep, record g { endpoints = es }, w)
]

-- `page`, `size` and `rank` are answers; `fresh` is the memory of the new endpoint.
unfoldable pub lc_init :
    ℕ → (ℕ → ℕ) → ℕ → ℕ → ℕ → Ep → ℕ → Globals → World → Option (Status × Ep × Globals × World)
lc_init wid heaps page size rank fresh ndev g w =
    open_first fresh
      (init_devs wid heaps ndev 0 (record g { page_size = page; size = size; rank = rank }) w)

-- `lc_get_proc_num` and `lc_get_num_proc`
pub lc_get_proc_num : Globals → ℕ
lc_get_proc_num g = g.rank

pub lc_get_num_proc : Globals → ℕ
lc_get_num_proc g = g.size
