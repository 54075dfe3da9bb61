-- ===== src/Tests/Pools.antt =====
-- A pool with one deque that holds the packet 64, used by worker 3 and then by worker 5.
use lc.Base.{
  ℕ, ◌≡◌, ◌<◌, ◌+◌, refl, none, some, arith, ◌∙◌, set, replicate, length-set, length-replicate,
  ◌==◌, if◌then◌else◌,
}
use lc.Dequeue.{Dequeue, max_size}
use lc.Dequeue.Refine.{IsValid}
use lc.Pool.{Pools, lc_pool_get_nb}
use lc.Pool.Conserve.{IsPool, in_pool}
use lc.Pool.Take.{out, lc_pool_get_nb-conserves}

abbrev pub deque : Dequeue
deque = record {
  cache = 0;
  top = 1;
  bot = 0;
  spinlock = 0;
  container = set (replicate max_size 0) 0 64;
}

pub deque-IsValid : IsValid deque
deque-IsValid = record {
  sized = length-set {A = ℕ} (replicate max_size 0) 0 64 ∙ length-replicate {A = ℕ} max_size 0;
  top_in = omega arith;
  bot_in = omega arith;
}

abbrev pub pools : Pools
pools = record {
  pool = record { key = 2; npools = 1; lpools = λ _. some deque };
  tls = λ wid key. if wid == 3 then some 0 else none;
}

one_deque : (wid pid : ℕ) → pools.tls wid 2 ≡ some pid → pid < 1
one_deque wid pid h = ground (arith, h)

pub pools-IsPool : IsPool pools
pools-IsPool = record {
  key = omega arith;
  deque = λ i h. (deque, refl, deque-IsValid, refl);
  local = one_deque;
}

lc_pool_get_nb-conserves_example :
    (elm : ℕ) × (s' : Pools) × (lc_pool_get_nb pools 5 7 ≡ some (elm, s'))
    × IsPool s'
    × ((x : ℕ) → in_pool x pools ≡ in_pool x s' + out x elm)
lc_pool_get_nb-conserves_example =
    lc_pool_get_nb-conserves pools 5 7 pools-IsPool (omega arith) (omega arith)
