-- ===== src/Device/Packets.antt =====
-- The pool of a device after `lci_dev_init` of src/include/lc_priv.h.
use lc.Base.{
  ℕ, zero, suc, ◌+◌, ◌<◌, ◌≡◌, refl, sym, ap, ◌∙◌, List, [], ◌∷◌, ◌++◌, none, some, arith, inl, inr,
  length, append_assoc, append-nil, length-append,
}
use mathlib.Core.Path.{subst}
use lc.Dequeue.{Dequeue, dq_init, max_size}
use lc.Dequeue.Refine.{IsValid, contents, dq_init-IsValid}
use lc.Engine.{World, req_s}
use lc.Pool.{
  Pools, max_npools, max_local_pool, add_local, put_local, lc_pool_get_local, lc_pool_put,
}
use lc.Pool.Conserve.{pushed, put_to-some}
use lc.Pool.Worker.{get_local-known, put-local}
use lc.Device.{packet_at, init_packet, put_packets}

-- The worker's deque, after `lc_pool_get_local`, is valid and holds the list.
pub record Holds (s : Pools) (wid : ℕ) (l : List ℕ) : Type 0 where
  pub pid : ℕ
  pub pools : Pools
  pub deque : Dequeue
  pub local : lc_pool_get_local s wid ≡ some (pid, pools)
  pub known : pools.tls wid pools.pool.key ≡ some pid
  pub worker : wid < max_npools
  pub in_row : pools.pool.key < max_local_pool
  pub there : pools.pool.lpools pid ≡ some deque
  pub valid : IsValid deque
  pub holds : contents deque ≡ l
  pub alone : pools.pool.npools ≡ 1

-- With room in the deque, a put returns and appends.
lc_pool_put-Holds :
    (s : Pools) (wid p : ℕ) (l : List ℕ)
    → Holds s wid l
    → length l + 1 < max_size
    → (s' : Pools) × (lc_pool_put s wid p ≡ some s') × Holds s' wid (l ++ p ∷ [])
lc_pool_put-Holds s wid p l h room = elim (pushed h.deque p h.valid) [
  | inl (stop, full) ↦ absurd (omega (arith, full, ap length h.holds))
  | inr (d', went, valid, holds) ↦
      let s' = put_local h.pools h.pid d' in
      (
        s',
        put-local s h.pools wid p h.pid h.local
            ∙ put_to-some h.pools p h.pid h.deque d' h.there went,
        record {
          pid = h.pid;
          pools = s';
          deque = d';
          local = get_local-known s' wid h.pid h.worker h.in_row h.known;
          known = h.known;
          worker = h.worker;
          in_row = h.in_row;
          there = ground arith;
          valid = valid;
          holds = holds ∙ ap (λ k. k ++ p ∷ []) h.holds;
          alone = h.alone;
        },
      )
]

-- The packets from number `i` on.
pub packets : ℕ → ℕ → ℕ → List ℕ
packets base i zero = []
packets base i (suc n) = packet_at base i ∷ packets base (i + 1) n

put_packets-step :
    (wid base n i : ℕ) (s s' : Pools) (w : World)
    → lc_pool_put s wid (packet_at base i) ≡ some s'
    → put_packets wid base (suc n) i s w
      ≡ put_packets wid base n (i + 1) s' (init_packet w (packet_at base i))
unfolding put_packets
put_packets-step wid base n i s s' w e = rw (e, put_packets) refl

-- The packets' writes, in order.
pub init_all : ℕ → ℕ → ℕ → World → World
init_all base i zero w = w
init_all base i (suc n) w = init_all base (i + 1) n (init_packet w (packet_at base i))

pub put_packets-Holds :
    (wid base n i : ℕ) (s : Pools) (w : World) (l : List ℕ)
    → Holds s wid l
    → length l + n < max_size
    → (s' : Pools) × (put_packets wid base n i s w ≡ some (s', init_all base i n w))
      × Holds s' wid (l ++ packets base i n)
unfolding put_packets packets init_all
put_packets-Holds wid base zero i s w l h room =
    (s, refl, subst (Holds s wid) (sym (append-nil l)) h)
put_packets-Holds wid base (suc n) i s w l h room =
    let p : ℕ = packet_at base i in
    let (s1, went, h1) = lc_pool_put-Holds s wid p l h (omega arith) in
    let (s', rest, h') =
      put_packets-Holds wid base n (i + 1) s1 (init_packet w p) (l ++ p ∷ []) h1
        (omega (arith, length-append l (p ∷ []))) in
    (
      s',
      put_packets-step wid base n i s s1 w went ∙ rest,
      subst (Holds s' wid) (append_assoc l (p ∷ []) (packets base (i + 1) n)) h',
    )

-- A packet belongs to pool 0 and its own request points back to it.
abbrev pub IsMarked : World → ℕ → Type 0
IsMarked w p = ((w.packets p).poolid ≡ 0) × ((w.reqs (req_s p)).parent ≡ p)

init_packet-IsMarked : (w : World) (p : ℕ) → IsMarked (init_packet w p) p
init_packet-IsMarked w p = ground arith

init_packet-keeps : (w : World) (p x : ℕ) → IsMarked w x → IsMarked (init_packet w p) x
init_packet-keeps w p x h = ground arith

init_all-keeps : (base i n x : ℕ) (w : World) → IsMarked w x → IsMarked (init_all base i n w) x
unfolding init_all
init_all-keeps base i zero x w h = h
init_all-keeps base i (suc n) x w h =
    init_all-keeps base (i + 1) n x (init_packet w (packet_at base i))
      (init_packet-keeps w (packet_at base i) x h)

init_all-IsMarked :
    (base i n k : ℕ) (w : World) → k < n → IsMarked (init_all base i n w) (packet_at base (i + k))
unfolding init_all
init_all-IsMarked base i zero k w h = absurd (omega arith)
init_all-IsMarked base i (suc n) zero w h =
    let p : ℕ = packet_at base i in
    let same : packet_at base i ≡ packet_at base (i + 0) =
      ap (packet_at base) {y = i + 0} (omega arith) in
    subst (IsMarked (init_all base i (suc n) w)) same
      (init_all-keeps base (i + 1) n p (init_packet w p) (init_packet-IsMarked w p))
init_all-IsMarked base i (suc n) (suc k) w h =
    let same : packet_at base (i + 1 + k) ≡ packet_at base (i + suc k) =
      ap (packet_at base) {x = i + 1 + k} {y = i + suc k} (omega arith) in
    subst (IsMarked (init_all base i (suc n) w)) same
      (init_all-IsMarked base (i + 1) n k (init_packet w (packet_at base i)) (omega arith))

pub init_all-all :
    (base n : ℕ) (w : World) (k : ℕ) → k < n → IsMarked (init_all base 0 n w) (packet_at base k)
init_all-all base n w k h =
    let same : packet_at base (0 + k) ≡ packet_at base k =
      ap (packet_at base) {x = 0 + k} {y = k} (omega arith) in
    subst (IsMarked (init_all base 0 n w)) same (init_all-IsMarked base 0 n k w h)

-- A new pool has no deque, and the worker gets an empty one.
pub created-Holds :
    (s : Pools) (wid : ℕ)
    → wid < max_npools
    → s.pool.key < max_local_pool
    → s.pool.npools ≡ 0
    → s.tls wid s.pool.key ≡ none
    → Holds s wid []
unfolding lc_pool_get_local
created-Holds s wid h k z e = record {
  pid = (add_local s wid).0;
  pools = (add_local s wid).1;
  deque = dq_init;
  local = ground (arith, e, z, k);
  known = ground arith;
  worker = h;
  in_row = k;
  there = ground arith;
  valid = dq_init-IsValid.0;
  holds = dq_init-IsValid.1;
  alone = omega (arith, z);
}
