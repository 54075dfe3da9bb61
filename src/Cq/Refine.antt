-- ===== src/Cq/Refine.antt =====
-- A completion queue against a FIFO list of at most `cq_max_size - 1` requests, oldest first.
use lc.Base.{
  ℕ, ◌+◌, ◌-◌, ◌%◌, ◌<◌, ◌≡◌, ◌≢◌, ◌⊎◌, refl, List, [], ◌∷◌, ◌++◌, Option, none, some, arith,
  length, length-set, length-replicate, bit_and,
}
use lc.Base.Bits.{bit_and-mask}
use lc.Ring.{held, length-window, count-lt, count_full, held-push, held-empty, held-pop_bot}
use lc.Cq.{CompQueue, ok, err_retry, cq_max_size, cq_init, cq_push, cq_pop, lc_cq_pop}

pub record IsValid (q : CompQueue) : Type 0 where
  pub sized : length q.container ≡ cq_max_size
  pub top_in : q.top < cq_max_size
  pub bot_in : q.bot < cq_max_size

-- The completed requests, oldest first.
abbrev pub contents : CompQueue → List ℕ
contents q = held q.container cq_max_size q.top q.bot

mask_top : (a : ℕ) → bit_and a (cq_max_size - 1) ≡ a % cq_max_size
mask_top a = bit_and-mask 11 a

pub cq_init-IsValid : IsValid cq_init × (contents cq_init ≡ [])
unfolding cq_init
cq_init-IsValid = (
  record {
    sized = length-replicate {A = ℕ} cq_max_size 0;
    top_in = omega arith;
    bot_in = omega arith;
  },
  refl,
)

-- `r` is the exit and the list was full, or a valid queue that holds the list and `req` behind it.
abbrev pub Pushed : List ℕ → ℕ → Option CompQueue → Type 0
Pushed l req none = length l + 1 ≡ cq_max_size
Pushed l req (some q) = IsValid q × (contents q ≡ l ++ req ∷ []) × (length l + 1 < cq_max_size)

-- `cq_push` exits exactly when the FIFO is full, and else appends the request.
pub cq_push-Pushed : {q : CompQueue} (req : ℕ) → IsValid q → Pushed (contents q) req (cq_push q req)
unfolding cq_push
cq_push-Pushed {q} req v = rw mask_top (
    ground (
      arith,
      length-window q.container cq_max_size q.bot ((q.top + cq_max_size - q.bot) % cq_max_size),
      length-set q.container q.top req,
      count-lt cq_max_size q.top q.bot v.top_in v.bot_in,
      count_full cq_max_size q.top q.bot v.top_in v.bot_in,
      held-push cq_max_size q.top q.bot v.top_in v.bot_in q.container req v.sized,
    ))

-- The FIFO's own operation.
pub pop : List ℕ → ℕ × List ℕ
pop [] = (0, [])
pop (x ∷ l) = (x, l)

pub cq_pop_refines :
    {q : CompQueue}
    → IsValid q
    → IsValid (cq_pop q).1 × (((cq_pop q).0, contents (cq_pop q).1) ≡ pop (contents q))
unfolding cq_pop pop
cq_pop_refines {q} v = rw mask_top (
    ground (
      arith,
      held-empty cq_max_size q.top q.bot v.top_in v.bot_in q.container,
      held-pop_bot cq_max_size q.top q.bot v.top_in v.bot_in q.container,
    ))

abbrev pub NoNull : List ℕ → Type 0
NoNull [] = Unit
NoNull (req ∷ l) = (req ≢ 0) × NoNull l

-- Where no queued request is NULL, `lc_cq_pop` either finds the queue empty, returns LC_ERR_RETRY
-- and leaves the caller's pointer as it was, or returns LC_OK with the oldest request, which it
-- removes; the queue stays valid.
pub lc_cq_pop_lem :
    {q : CompQueue} (old : ℕ)
    → IsValid q
    → NoNull (contents q)
    → let (s, req, q') = lc_cq_pop q old in
      IsValid q'
      × ((s ≡ err_retry) × (req ≡ old) × (contents q ≡ []) × (contents q' ≡ [])
          ⊎ (s ≡ ok) × (req ≢ 0) × (contents q ≡ req ∷ contents q'))
unfolding lc_cq_pop pop
lc_cq_pop_lem {q} old v nn = split (contents q) nn refl
  where
    split :
        (l : List ℕ)
        → NoNull l
        → contents q ≡ l
        → let (s, req, q') = lc_cq_pop q old in
          IsValid q'
          × ((s ≡ err_retry) × (req ≡ old) × (contents q ≡ []) × (contents q' ≡ [])
              ⊎ (s ≡ ok) × (req ≢ 0) × (contents q ≡ req ∷ contents q'))
    split [] n e = ground (arith, cq_pop_refines v)
    split (x ∷ l) n e = ground (arith, cq_pop_refines v)
