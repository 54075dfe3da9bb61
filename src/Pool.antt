-- ===== src/Pool.antt =====
-- include/lc/pool.h and src/pool.c: the pools of packets, one deque for each worker that has used
-- the pool. A worker is what `lc_worker_id` returns, and `rand` an argument. `none` is a call of
-- exit, a NULL that is followed, or an index past the end of an array.
pub mod Conserve
pub mod Take
pub mod Worker
pub mod Blocking
pub mod Bounded
pub mod Available
use lc.Base.{
  ℕ, zero, suc, ◌+◌, ◌%◌, List, [], ◌∷◌, Option, none, some, Bool, true, false, ◌==◌, ltb,
  if◌then◌else◌,
}
use lc.Dequeue.{Dequeue, dq_init, dq_push_top, dq_pop_top, dq_pop_bot}
use lc.Engine.{put_at}

abbrev pub max_npools : ℕ
max_npools = 272

abbrev pub max_local_pool : ℕ
max_local_pool = 32

-- `struct lc_pool`; an entry of `lpools` that was not written is NULL.
pub record Pool : Type 0 where
  pub key : ℕ
  pub npools : ℕ
  pub lpools : ℕ → Option Dequeue

-- A pool with the table `tls_pool_struct`, by worker and key; `none` is POOL_UNINIT.
pub record Pools : Type 0 where
  pub pool : Pool
  pub tls : ℕ → ℕ → Option ℕ

-- `lc_pool_create` takes the next key: the pool, and `lc_pool_nkey` after it.
unfoldable pub lc_pool_create : ℕ → Option (Pool × ℕ)
lc_pool_create nkey =
    if ltb max_local_pool nkey
    then none
    else some (record { key = nkey; npools = 0; lpools = λ _. none }, nkey + 1)

-- A new deque for the worker.
abbrev pub add_local : Pools → ℕ → ℕ × Pools
add_local s wid =
    let pid = s.pool.npools in
    (
      pid,
      record {
        pool = record (s.pool) {
          npools = pid + 1;
          lpools = put_at s.pool.lpools pid (some dq_init);
        };
        tls = put_at s.tls wid (put_at (s.tls wid) s.pool.key (some pid));
      },
    )

unfoldable pub lc_pool_get_local : Pools → ℕ → Option (ℕ × Pools)
lc_pool_get_local s wid =
    let found : Option (ℕ × Pools) = elim (s.tls wid s.pool.key) [
      | some pid ↦ some (pid, s)
      | none ↦ if ltb s.pool.npools max_npools then some (add_local s wid) else none
    ] in
    if ltb wid max_npools then (if ltb s.pool.key max_local_pool then found else none) else none

abbrev pub put_local : Pools → ℕ → Dequeue → Pools
put_local s pid d = record s {
  pool = record (s.pool) { lpools = put_at s.pool.lpools pid (some d) };
}

unfoldable pub lc_pool_put_to : Pools → ℕ → ℕ → Option Pools
lc_pool_put_to s elm pid = elim (s.pool.lpools pid) [
  | none ↦ none
  | some d ↦ elim (dq_push_top d elm) [ none ↦ none | some d' ↦ some (put_local s pid d') ]
]

unfoldable pub lc_pool_put : Pools → ℕ → ℕ → Option Pools
lc_pool_put s wid elm = elim (lc_pool_get_local s wid) [
  | none ↦ none
  | some (pid, s') ↦ lc_pool_put_to s' elm pid
]

-- `dq_pop_top` on the worker's own deque.
unfoldable pub pop_own : Pools → ℕ → Option (ℕ × Pools)
pop_own s pid = elim (s.pool.lpools pid) [
  | none ↦ none
  | some d ↦ let (elm, d') = dq_pop_top d in some (elm, put_local s pid d')
]

-- One attempt to take the oldest element of another deque.
unfoldable pub steal : Pools → ℕ → ℕ × Pools
steal s rand =
    let pid = rand % s.pool.npools in
    elim (s.pool.lpools pid) [
      | none ↦ (0, s)
      | some d ↦ let (elm, d') = dq_pop_bot d in (elm, put_local s pid d')
    ]

-- The attempts of `lc_pool_get_slow`, one for each number; it goes on until one succeeds.
unfoldable pub lc_pool_get_slow : Pools → List ℕ → Option (ℕ × Pools)
lc_pool_get_slow s [] = none
lc_pool_get_slow s (rand ∷ rands) =
    let (elm, s') = steal s rand in
    let rest = lc_pool_get_slow s' rands in if elm == 0 then rest else some (elm, s')

abbrev pub or_steal : ℕ → ℕ × Pools → ℕ × Pools
or_steal rand (elm, s) = if elm == 0 then steal s rand else (elm, s)

unfoldable pub lc_pool_get_nb : Pools → ℕ → ℕ → Option (ℕ × Pools)
lc_pool_get_nb s wid rand = elim (lc_pool_get_local s wid) [
  | none ↦ none
  | some (pid, s') ↦ elim (pop_own s' pid) [ none ↦ none | some r ↦ some (or_steal rand r) ]
]

abbrev pub or_slow : List ℕ → ℕ × Pools → Option (ℕ × Pools)
or_slow rands (elm, s) =
    let slow = lc_pool_get_slow s rands in if elm == 0 then slow else some (elm, s)

unfoldable pub lc_pool_get : Pools → ℕ → List ℕ → Option (ℕ × Pools)
lc_pool_get s wid rands = elim (lc_pool_get_local s wid) [
  | none ↦ none
  | some (pid, s') ↦ elim (pop_own s' pid) [ none ↦ none | some r ↦ or_slow rands r ]
]
