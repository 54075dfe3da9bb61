-- ===== src/Pool/Take.antt =====
-- What a get takes from the deques of a pool of include/lc/pool.h.
use lc.Base.{
  ℕ, suc, ◌+◌, ◌%◌, ◌<◌, ◌≡◌, refl, sym, ap, ◌∙◌, List, [], ◌∷◌, Option, none, some, arith, ◌==◌,
  ==_refl, if◌then◌else◌, Bool-cases, Option-cases, inl, inr,
}
use mathlib.Core.Path.{subst}
use native.Mathlib.Nat.{mod-lt}
use lc.Dequeue.{Dequeue, dq_init, dq_pop_top, dq_pop_bot}
use lc.Dequeue.Refine.{
  IsValid, contents, pop_top, pop_bot, dq_init-IsValid, dq_pop_top_refines, dq_pop_bot_refines,
}
use lc.Engine.{put_at}
use lc.Pool.{
  Pools, max_npools, put_local, add_local, lc_pool_get_local, pop_own, steal, or_steal,
  lc_pool_get_nb,
}
use lc.Pool.Conserve.{
  is, times, in_local, in_first, in_pool, IsPool, times-drop_last, put_local-in_pool,
  put_local-IsPool, in_first-above,
}

-- What a get has taken: `elm`, or nothing.
abbrev pub out : ℕ → ℕ → ℕ
out x elm = if elm == 0 then 0 else is x elm

-- A list without NULL, less what is taken from it.
abbrev Less : List ℕ → ℕ × List ℕ → Type 0
Less l (elm, l') = (times 0 l' ≡ 0) × ((x : ℕ) → times x l ≡ times x l' + out x elm)

pop_bot-Less : (l : List ℕ) → times 0 l ≡ 0 → Less l (pop_bot l)
unfolding pop_bot
pop_bot-Less [] z = (refl, λ x. omega arith)
pop_bot-Less (y ∷ l) z = (omega arith, λ x. ground arith)

pop_top-Less : (l : List ℕ) → times 0 l ≡ 0 → Less l (pop_top l)
unfolding pop_top
pop_top-Less [] z = (refl, λ x. omega arith)
pop_top-Less (y ∷ l) z =
    let t = times-drop_last 0 (y ∷ l) (omega arith) in
    (omega arith, λ x. ground (arith, t, times-drop_last x (y ∷ l)))

-- A get of `elm` that leaves `s'`.
abbrev pub Took : Pools → ℕ → Pools → Type 0
Took s elm s' =
    IsPool s'
    × (s'.pool.npools ≡ s.pool.npools)
    × ((x : ℕ) → in_pool x s ≡ in_pool x s' + out x elm)

Took-from :
    (s : Pools) (pid elm : ℕ) (d d' : Dequeue)
    → IsPool s
    → pid < s.pool.npools
    → s.pool.lpools pid ≡ some d
    → IsValid d'
    → Less (contents d) (elm, contents d')
    → Took s elm (put_local s pid d')
Took-from s pid elm d d' v h e dv (z, less) = (
  put_local-IsPool pid s d' v dv z,
  refl,
  λ x. omega (arith, put_local-in_pool x pid s d d' h e, less x),
)

pub pop_own-Took :
    (s : Pools) (pid : ℕ)
    → IsPool s
    → pid < s.pool.npools
    → (elm : ℕ) × (s' : Pools) × (pop_own s pid ≡ some (elm, s')) × Took s elm s'
unfolding pop_own
pop_own-Took s pid v h =
    let (d, e, dv, z) = v.deque pid h in
    let (dv', c) = dq_pop_top_refines dv in
    let (elm, d') = dq_pop_top d in
    (
      elm,
      put_local s pid d',
      rw (e, pop_own) refl,
      Took-from s pid elm d d' v h e dv'
          (subst (Less (contents d)) (sym c) (pop_top-Less (contents d) z)),
    )

pub steal-eq :
    (s : Pools) (rand : ℕ) (d : Dequeue)
    → s.pool.lpools (rand % s.pool.npools) ≡ some d
    → steal s rand ≡ (let (elm, d') = dq_pop_bot d in (elm, put_local s (rand % s.pool.npools) d'))
unfolding steal
steal-eq s rand d e = rw (e, steal) refl

pub steal-Took :
    (s : Pools) (rand : ℕ)
    → IsPool s
    → 0 < s.pool.npools
    → let (elm, s') = steal s rand in Took s elm s'
steal-Took s rand v h =
    let pid : ℕ = rand % s.pool.npools in
    let below : pid < s.pool.npools = mod-lt rand h in
    let (d, e, dv, z) = v.deque pid below in
    let (dv', c) = dq_pop_bot_refines dv in
    let (elm, d') = dq_pop_bot d in
    subst (λ r. Took s r.0 r.1) (sym (steal-eq s rand d e))
      (Took-from s pid elm d d' v below e dv'
        (subst (Less (contents d)) (sym c) (pop_bot-Less (contents d) z)))

-- A worker that is new to the pool adds an empty deque.
pub add_local-IsPool :
    (s : Pools) (wid : ℕ)
    → IsPool s
    → let (pid, s') = add_local s wid in
      IsPool s' × (pid < s'.pool.npools) × ((x : ℕ) → in_pool x s' ≡ in_pool x s)
add_local-IsPool s wid v =
    let n : ℕ = s.pool.npools in
    let last : put_at s.pool.lpools n (some dq_init) n ≡ some dq_init = rw (==_refl n) in
    let (iv, ie) = dq_init-IsValid in
    (
      record {
        key = v.key;
        deque = λ i h. elim (Bool-cases (n == i)) [
          | inl e ↦ (dq_init, rw e, iv, ap (times 0) ie)
          | inr e ↦ let (d0, e0, v0, z0) = v.deque i (ground (arith, e)) in (d0, rw e e0, v0, z0)
        ];
        local = λ w pid h. elim (Bool-cases (wid == w)) [
          | inl e ↦ ground (arith, e, h, ==_refl s.pool.key)
          | inr e ↦ ground (arith, e, h, v.local w pid)
        ];
      },
      omega arith,
      λ x.
          let f : ℕ → Option Dequeue = put_at s.pool.lpools n (some dq_init) in
          let one_more : in_first x f (n + 1) ≡ in_first x f (suc n) =
            ap (in_first x f) {x = n + 1} {y = suc n} (omega arith) in
          omega (
            arith,
            one_more,
            ap (in_local x) last,
            ap (times x) ie,
            in_first-above x n n s.pool.lpools (some dq_init) (omega arith),
          ),
    )

get_local-IsPool :
    (s : Pools) (wid : ℕ)
    → IsPool s
    → wid < max_npools
    → s.pool.npools < max_npools
    → (pid : ℕ) × (s' : Pools) × (lc_pool_get_local s wid ≡ some (pid, s'))
      × IsPool s'
      × (pid < s'.pool.npools)
      × ((x : ℕ) → in_pool x s' ≡ in_pool x s)
get_local-IsPool s wid v hw hn = elim (Option-cases (s.tls wid s.pool.key)) [
  | inr (pid, e) ↦ (pid, s, known pid e, v, v.local wid pid e, λ x. refl)
  | inl e ↦
      let (v', below, same) = add_local-IsPool s wid v in
      ((add_local s wid).0, (add_local s wid).1, new e, v', below, same)
]
  where
    known : (pid : ℕ) → s.tls wid s.pool.key ≡ some pid → lc_pool_get_local s wid ≡ some (pid, s)
    known pid e = unfold lc_pool_get_local in rw (e, lc_pool_get_local) (ground (arith, v.key))

    new : s.tls wid s.pool.key ≡ none → lc_pool_get_local s wid ≡ some (add_local s wid)
    new e = unfold lc_pool_get_local in rw (e, lc_pool_get_local) (ground (arith, v.key))

or_steal-Took :
    (s s' : Pools) (elm rand : ℕ)
    → Took s elm s'
    → 0 < s'.pool.npools
    → let (elm', s'') = or_steal rand (elm, s') in Took s elm' s''
or_steal-Took s s' elm rand (v, n, t) h = elim (Bool-cases (elm == 0)) [
  | inr some_elm ↦
      subst (λ c. let r = if c then steal s' rand else (elm, s') in Took s r.0 r.1) (sym some_elm)
        (v, n, t)
  | inl nothing ↦
      let (v', n', t') = steal-Took s' rand v h in
      subst (λ c. let r = if c then steal s' rand else (elm, s') in Took s r.0 r.1) (sym nothing)
        (v', n' ∙ n, λ x. ground (arith, nothing, t x, t' x))
]

-- For a worker below 272 and with fewer than 272 deques so far, lc_pool_get_nb returns from a
-- well-formed pool, with a key below 32, and keeps it well-formed; a packet that it returns is one
-- fewer in the pool, with NULL none is, and every other packet is there as often as before.
pub lc_pool_get_nb-conserves :
    (s : Pools) (wid rand : ℕ)
    → IsPool s
    → wid < max_npools
    → s.pool.npools < max_npools
    → (elm : ℕ) × (s' : Pools) × (lc_pool_get_nb s wid rand ≡ some (elm, s'))
      × IsPool s'
      × ((x : ℕ) → in_pool x s ≡ in_pool x s' + out x elm)
unfolding lc_pool_get_nb
lc_pool_get_nb-conserves s wid rand v hw hn =
    let (pid, s1, e1, v1, below, same) = get_local-IsPool s wid v hw hn in
    let (elm, s2, e2, (v2, n2, t2)) = pop_own-Took s1 pid v1 below in
    let (v3, n3, t3) = or_steal-Took s1 s2 elm rand (v2, n2, t2) (omega (arith, n2)) in
    let (elm', s3) = or_steal rand (elm, s2) in
    (elm', s3, rw (e1, lc_pool_get_nb) (rw e2 refl), v3, λ x. sym (same x) ∙ t3 x)
