-- ===== src/Dequeue.antt =====
-- include/lc/dequeue.h: the bounded double-ended queue of free packets. A pointer is a number and
-- NULL is 0. Each operation runs under the queue's spin lock, so it is one step; `none` is the
-- call of `exit(EXIT_FAILURE)`.
pub mod Refine
use lc.Base.{ℕ, ◌+◌, ◌-◌, List, Option, none, some, ◌==◌, if◌then◌else◌, get_or, set, replicate}
use lc.Base.{bit_and}
use lc.Base.Bits.{mask, pow2}
use lc.Lock.{unlocked}

-- `1 << 12`
abbrev pub max_size : ℕ
max_size = pow2 12

pub record Dequeue : Type 0 where
  pub cache : ℕ
  pub top : ℕ
  pub bot : ℕ
  pub spinlock : ℕ
  pub container : List ℕ

pub dq_init : Dequeue
dq_init = record {
  cache = 0;
  top = 0;
  bot = 0;
  spinlock = unlocked;
  container = replicate max_size 0;
}

pub dq_push_top : Dequeue → ℕ → Option Dequeue
dq_push_top d p =
    let top' = bit_and (d.top + 1) (max_size - 1) in
    if top' == d.bot
    then none
    else some (record d { container = set d.container d.top p; top = top'; spinlock = unlocked })

pub dq_pop_top : Dequeue → ℕ × Dequeue
dq_pop_top d =
    let top' = bit_and (d.top + max_size - 1) (max_size - 1) in
    if d.top == d.bot
    then (0, record d { spinlock = unlocked })
    else (get_or d.container top' 0, record d { top = top'; spinlock = unlocked })

pub dq_pop_bot : Dequeue → ℕ × Dequeue
dq_pop_bot d = if d.top == d.bot then (0, record d { spinlock = unlocked }) else (
  get_or d.container d.bot 0,
  record d { bot = bit_and (d.bot + 1) (max_size - 1); spinlock = unlocked },
)
