-- ===== src/Cq.antt =====
-- src/include/cq.h and src/cq.c: the completion queue of an endpoint. A request is its pointer,
-- and NULL is 0. Each operation runs under the spin lock; `none` is `exit(EXIT_FAILURE)`.
pub mod Refine
use lc.Base.{ℕ, ◌+◌, ◌-◌, ◌*◌, List, Option, none, some, ◌==◌, if◌then◌else◌, get_or, set}
use lc.Base.{bit_and, replicate}
use lc.Lock.{unlocked}

-- `LC_SERVER_NUM_PKTS` of src/include/config.h, and `CQ_MAX_SIZE`.
abbrev pub num_pkts : ℕ
num_pkts = 1024

abbrev pub cq_max_size : ℕ
cq_max_size = num_pkts * 2

pub record CompQueue : Type 0 where
  pub top : ℕ
  pub bot : ℕ
  pub spinlock : ℕ
  pub container : List ℕ

pub cq_init : CompQueue
cq_init = record { top = 0; bot = 0; spinlock = unlocked; container = replicate cq_max_size 0 }

pub cq_push : CompQueue → ℕ → Option CompQueue
cq_push q req =
    let top' = bit_and (q.top + 1) (cq_max_size - 1) in
    if top' == q.bot
    then none
    else some (record q { container = set q.container q.top req; top = top'; spinlock = unlocked })

pub cq_pop : CompQueue → ℕ × CompQueue
cq_pop q = if q.top == q.bot then (0, record q { spinlock = unlocked }) else (
  get_or q.container q.bot 0,
  record q { bot = bit_and (q.bot + 1) (cq_max_size - 1); spinlock = unlocked },
)

-- `lc_status` of include/lc.h.
pub data Status : Type 0 where
  ok err_retry err_fatal : Status

-- `*req_ptr` is written only where the call succeeds.
pub lc_cq_pop : CompQueue → ℕ → Status × ℕ × CompQueue
lc_cq_pop q req_ptr =
    let (req, q') = cq_pop q in if req == 0 then (err_retry, req_ptr, q') else (ok, req, q')
