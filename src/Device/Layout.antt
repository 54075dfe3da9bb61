-- ===== src/Device/Layout.antt =====
-- Where the packets of a device lie in its heap, and where its heap goes on.
use lc.Base.{ℕ, ◌+◌, ◌-◌, ◌*◌, ◌/◌, ◌%◌, ◌^◌, ◌≤◌, ◌<◌, ◌≡◌, ap, ◌∙◌, arith}
use lc.Cq.{num_pkts}
use native.Mathlib.Nat.{mod-lt, div-add-mod', mod-eq-sub-div-mul, mul-div_left}
use lc.Engine.{context_size}
use lc.Calls.{packet_size}
use lc.Pool.{Pools}
use lc.Device.{Device, base_packet, packet_at, round_up}

-- Where the packets of a device lie: behind the start of the heap, no two over each other, all
-- below the first address that is given out, which begins a page, the next one behind the packets.
pub record Laid (heap page : ℕ) (d : Device) : Type 0 where
  pub first : heap ≤ packet_at (base_packet heap page) 0
  pub apart :
      (i j : ℕ)
      → i < j
      → j < num_pkts
      → packet_at (base_packet heap page) i + packet_size ≤ packet_at (base_packet heap page) j
  pub below :
      (i : ℕ) → i < num_pkts → packet_at (base_packet heap page) i + packet_size ≤ d.curr_addr
  pub on_page : d.curr_addr % page ≡ 0
  pub next_page : d.curr_addr < packet_at (base_packet heap page) num_pkts + page

-- Rounding up to a page.
round_up_bounds :
    (page a : ℕ)
    → 0 < page
    → a + page < 2 ^ 64
    → (a ≤ round_up page a) × (round_up page a < a + page) × (round_up page a % page ≡ 0)
round_up_bounds page a pos fits =
    let x : ℕ = (a + page + 2 ^ 64 - 1) % 2 ^ 64 in
    let e : x ≡ a + page - 1 = omega arith in
    let split = div-add-mod' x page in
    let small = mod-lt x pos in
    (
      omega (arith, e, split, small),
      omega (arith, e, split, small),
      mod-eq-sub-div-mul (x / page * page) page
          ∙ omega (arith, ap (λ q. q * page) (mul-div_left (x / page) pos)),
    )

module _ (heap page : ℕ) (ctx : context_size ≤ page)
    (fits : heap + 2 * page + 2 ^ 24 < 2 ^ 64) where
  packet_at-eq :
      (i : ℕ)
      → i ≤ num_pkts
      → packet_at (base_packet heap page) i ≡ heap + page - context_size + i * packet_size
  packet_at-eq i h = omega arith

  pub device-Laid :
      (ps : Pools)
      → Laid heap page (record {
        heap = heap;
        curr_addr = round_up page (packet_at (base_packet heap page) num_pkts);
        pools = ps;
      })
  device-Laid ps =
      let end : ℕ = packet_at (base_packet heap page) num_pkts in
      let (above, near, whole) =
        round_up_bounds page end (omega arith)
          (omega (arith, packet_at-eq num_pkts (omega arith))) in
      record {
        first = omega (arith, packet_at-eq 0 (omega arith));
        apart =
            λ i j h k. omega (arith, packet_at-eq i (omega arith), packet_at-eq j (omega arith));
        below = λ i h.
            omega (arith, packet_at-eq i (omega arith), packet_at-eq num_pkts (omega arith), above);
        on_page = whole;
        next_page = near;
      }
