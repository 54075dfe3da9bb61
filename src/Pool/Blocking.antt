-- ===== src/Pool/Blocking.antt =====
-- lc_pool_get of include/lc/pool.h when it returns: what the pool holds, and the worker's deque.
use lc.Base.{
  ℕ, zero, suc, ◌+◌, ◌%◌, ◌<◌, ◌≡◌, ◌≢◌, refl, sym, ◌∙◌, List, [], ◌∷◌, none, some, arith, ◌==◌,
  true, false, Bool-cases, Option-cases, inl, inr,
}
use mathlib.Core.Path.{subst}
use mathlib.Core.Option.{some-injective, none-ne-some}
use lc.Dequeue.{dq_pop_top}
use lc.Pool.{
  Pools, put_local, lc_pool_get_local, pop_own, steal, or_slow, lc_pool_get_slow, lc_pool_get,
}
use lc.Pool.Conserve.{is, in_pool, IsPool}
use lc.Pool.Take.{Took, pop_own-Took, steal-eq, steal-Took}
use lc.Pool.Worker.{HasLocal-Same, get_local-GotLocal, HasLocal, SameTable}

-- The shape of a get that returns `elm`, never NULL.
abbrev pub Got : Pools → ℕ → Pools → Type 0
Got s elm s' = IsPool s' × (elm ≢ 0) × ((x : ℕ) → in_pool x s ≡ in_pool x s' + is x elm)

Got-Took : (s s' : Pools) (elm : ℕ) → elm ≢ 0 → Took s elm s' → Got s elm s'
Got-Took s s' elm n (v, _, t) = (v, n, λ x. ground (arith, t x, n))

pop_own-SameTable : (s s' : Pools) (pid elm : ℕ) → pop_own s pid ≡ some (elm, s') → SameTable s s'
unfolding pop_own
pop_own-SameTable s s' pid elm e = elim (Option-cases (s.pool.lpools pid)) [
  | inl missing ↦ ground (arith, missing, e)
  | inr (d, there) ↦
      let went : pop_own s pid ≡ some ((dq_pop_top d).0, put_local s pid (dq_pop_top d).1) =
        rw (there, pop_own) refl in
      subst (λ (r : ℕ × Pools). SameTable s r.1) (some-injective _ _ (sym went ∙ e)) (refl, refl)
]

steal-SameTable : (s : Pools) (rand : ℕ) → SameTable s (steal s rand).1
unfolding steal
steal-SameTable s rand = elim (Option-cases (s.pool.lpools (rand % s.pool.npools))) [
  | inl missing ↦
      let stays : steal s rand ≡ (0, s) = rw (missing, steal) refl in
      subst (λ (r : ℕ × Pools). SameTable s r.1) (sym stays) (refl, refl)
  | inr (d, there) ↦
      subst (λ (r : ℕ × Pools). SameTable s r.1) (sym (steal-eq s rand d there)) (refl, refl)
]

slow-found :
    (s : Pools) (rand : ℕ) (rands : List ℕ)
    → (steal s rand).0 == 0 ≡ false
    → lc_pool_get_slow s (rand ∷ rands) ≡ some (steal s rand)
unfolding lc_pool_get_slow
slow-found s rand rands h = ground (arith, h)

slow-nothing :
    (s : Pools) (rand : ℕ) (rands : List ℕ)
    → (steal s rand).0 == 0 ≡ true
    → lc_pool_get_slow s (rand ∷ rands) ≡ lc_pool_get_slow (steal s rand).1 rands
unfolding lc_pool_get_slow
slow-nothing s rand rands h = ground (arith, h)

slow-Got :
    (rands : List ℕ) (s s' : Pools) (elm : ℕ)
    → IsPool s
    → 0 < s.pool.npools
    → lc_pool_get_slow s rands ≡ some (elm, s')
    → Got s elm s' × SameTable s s'
unfolding lc_pool_get_slow
slow-Got [] s s' elm v h e = absurd (none-ne-some _ e)
slow-Got (rand ∷ rands) s s' elm v h e =
    let t1 = steal-Took s rand v h in
    let q1 = steal-SameTable s rand in
    elim (Bool-cases ((steal s rand).0 == 0)) [
      | inr found ↦
          subst (λ (r : ℕ × Pools). Got s r.0 r.1 × SameTable s r.1)
            (some-injective _ _ (sym (slow-found s rand rands found) ∙ e))
            (Got-Took s (steal s rand).1 (steal s rand).0 (ground (arith, found)) t1, q1)
      | inl nothing ↦
          let ((v', n', c'), q') =
            slow-Got rands (steal s rand).1 s' elm t1.0 (omega (arith, h, t1.1))
              (sym (slow-nothing s rand rands nothing) ∙ e) in
          ((v', n', λ x. ground (arith, c' x, t1.2 x, nothing)), (q'.0 ∙ q1.0, q'.1 ∙ q1.1))
    ]

get-stops :
    (s : Pools) (wid : ℕ) (rands : List ℕ)
    → lc_pool_get_local s wid ≡ none
    → lc_pool_get s wid rands ≡ none
unfolding lc_pool_get
get-stops s wid rands e = rw (e, lc_pool_get) refl

pub get-eq :
    (s s1 s2 : Pools) (wid pid elm : ℕ) (rands : List ℕ)
    → lc_pool_get_local s wid ≡ some (pid, s1)
    → pop_own s1 pid ≡ some (elm, s2)
    → lc_pool_get s wid rands ≡ or_slow rands (elm, s2)
unfolding lc_pool_get
get-eq s s1 s2 wid pid elm rands e f = rw (e, lc_pool_get) (rw f refl)

or_slow-Got :
    (s s2 s' : Pools) (elm2 elm : ℕ) (rands : List ℕ)
    → Took s elm2 s2
    → SameTable s s2
    → 0 < s2.pool.npools
    → or_slow rands (elm2, s2) ≡ some (elm, s')
    → Got s elm s' × SameTable s s'
or_slow-Got s s2 s' zero elm rands t q h e =
    let ((v, n, c), q') = slow-Got rands s2 s' elm t.0 h e in
    ((v, n, λ x. ground (arith, c x, t.2 x)), (q'.0 ∙ q.0, q'.1 ∙ q.1))
or_slow-Got s s2 s' (suc a) elm rands t q h e =
    let stays : or_slow rands (suc a, s2) ≡ some (suc a, s2) = ground arith in
    subst (λ (r : ℕ × Pools). Got s r.0 r.1 × SameTable s r.1) (some-injective _ _ (sym stays ∙ e))
      (Got-Took s s2 (suc a) (omega arith) t, q)

-- A get that returns takes one element that is not NULL, and the worker has a deque then.
pub get-Kept :
    (s s' : Pools) (wid elm : ℕ) (rands : List ℕ)
    → IsPool s
    → lc_pool_get s wid rands ≡ some (elm, s')
    → Got s elm s' × ((pid : ℕ) × HasLocal s' wid pid)
unfolding lc_pool_get
get-Kept s s' wid elm rands v e = elim (Option-cases (lc_pool_get_local s wid)) [
  | inl stop ↦ absurd (none-ne-some _ (sym (get-stops s wid rands stop) ∙ e))
  | inr ((pid, s1), went) ↦
      let l = get_local-GotLocal s s1 wid pid v went in
      let (elm2, s2, popped, t) = pop_own-Took s1 pid l.valid l.below in
      let ran : or_slow rands (elm2, s2) ≡ some (elm, s') =
        sym (get-eq s s1 s2 wid pid elm2 rands went popped) ∙ e in
      let q = pop_own-SameTable s1 s2 pid elm2 popped in
      let (g, q') = or_slow-Got s1 s2 s' elm2 elm rands t q (omega (arith, l.below, t.1)) ran in
      ((g.0, g.1, λ x. omega (arith, g.2 x, l.same x)), (pid, HasLocal-Same s1 s' wid pid q' l.has))
]
