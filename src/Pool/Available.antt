-- ===== src/Pool/Available.antt =====
-- lc_pool_get of include/lc/pool.h on a pool that is not empty: some outcome of `rand` ends its
-- loop.
use lc.Base.{
  ℕ, zero, suc, ◌%◌, ◌<◌, ◌≡◌, ◌≢◌, refl, sym, ap, ◌∙◌, List, [], ◌∷◌, Option, some, arith, ltb,
  Bool-cases, inl, inr,
}
use mathlib.Core.Path.{subst}
use native.Mathlib.Nat.{mod-eq_of_lt}
use lc.Dequeue.{Dequeue}
use lc.Dequeue.Refine.{contents, pop_bot, dq_pop_bot_refines}
use lc.Pool.{Pools, steal, or_slow, lc_pool_get_slow, lc_pool_get}
use lc.Pool.Conserve.{times, in_local, in_first, in_pool, IsPool}
use lc.Pool.Take.{pop_own-Took, steal-eq}
use lc.Pool.Worker.{get_local-GotLocal}
use lc.Pool.Blocking.{get-eq}
use lc.Pool.Bounded.{CanPut}

-- An element is in one of the deques.
found_in :
    (x n : ℕ) (f : ℕ → Option Dequeue)
    → 0 < in_first x f n
    → (i : ℕ) × (i < n) × (0 < in_local x (f i))
found_in x zero f h = absurd (omega (arith, h))
found_in x (suc n) f h = elim (Bool-cases (ltb 0 (in_local x (f n)))) [
  | inl here ↦ (n, omega arith, ground (arith, here))
  | inr gone ↦
      let (i, below, there) = found_in x n f (ground (arith, gone, h)) in
      (i, omega (arith, below), there)
]

pop_bot-some : (x : ℕ) (l : List ℕ) → 0 < times x l → times 0 l ≡ 0 → (pop_bot l).0 ≢ 0
unfolding pop_bot
pop_bot-some x [] h z e = absurd (omega (arith, h))
pop_bot-some x (y ∷ l) h z e = ground (arith, z, e)

-- Stealing from that deque takes something.
steal-some : (s : Pools) (x : ℕ) → IsPool s → 0 < in_pool x s → (rand : ℕ) × ((steal s rand).0 ≢ 0)
steal-some s x v h =
    let (i, below, there) = found_in x s.pool.npools s.pool.lpools h in
    let (d, e, dv, z) = v.deque i below in
    let at : s.pool.lpools (i % s.pool.npools) ≡ some d =
      ap s.pool.lpools (mod-eq_of_lt below) ∙ e in
    let (_, popped) = dq_pop_bot_refines dv in
    let taken = pop_bot-some x (contents d) (subst (λ o. 0 < in_local x o) e there) z in
    (i, λ n. taken (sym (ap (λ r. r.0) popped) ∙ sym (ap (λ r. r.0) (steal-eq s i d at)) ∙ n))

slow-some :
    (s : Pools) (rand : ℕ)
    → (steal s rand).0 ≢ 0
    → lc_pool_get_slow s (rand ∷ []) ≡ some (steal s rand)
unfolding lc_pool_get_slow
slow-some s rand n = ground (arith, n)

or_slow-some :
    (s : Pools) (elm x : ℕ)
    → IsPool s
    → (elm ≡ 0 → 0 < in_pool x s)
    → (rand : ℕ) × (r : ℕ × Pools) × (or_slow (rand ∷ []) (elm, s) ≡ some r)
or_slow-some s zero x v h =
    let (rand, n) = steal-some s x v (h refl) in (rand, steal s rand, slow-some s rand n)
or_slow-some s (suc a) x v h = (0, (suc a, s), ground arith)

-- For a worker that has a deque or can get one, and a pool in which `x` is, one draw is enough.
pub lc_pool_get-some :
    (s : Pools) (wid x : ℕ)
    → IsPool s
    → CanPut s wid
    → 0 < in_pool x s
    → (rand : ℕ) × (r : ℕ × Pools) × (lc_pool_get s wid (rand ∷ []) ≡ some r)
lc_pool_get-some s wid x v (pid, s1, went) h =
    let l = get_local-GotLocal s s1 wid pid v went in
    let (elm, s2, popped, (v2, _, count)) = pop_own-Took s1 pid l.valid l.below in
    let still : elm ≡ 0 → 0 < in_pool x s2 = λ e. ground (arith, e, count x, l.same x, h) in
    let (rand, r, ran) = or_slow-some s2 elm x v2 still in
    (rand, r, get-eq s s1 s2 wid pid elm (rand ∷ []) went popped ∙ ran)
