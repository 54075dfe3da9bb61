-- ===== src/Pool/Worker.antt =====
-- lc_pool_get_local of include/lc/pool.h when it returns, and a put into the worker's deque.
use lc.Base.{
  ℕ, ◌+◌, ◌≤◌, ◌<◌, ◌≡◌, ◌≢◌, refl, sym, ap, ◌∙◌, none, some, arith, ltb, if◌then◌else◌, Bool-cases,
  Option-cases, inl, inr,
}
use mathlib.Core.Path.{subst}
use mathlib.Core.Option.{some-injective, none-ne-some}
use lc.Dequeue.{dq_push_top}
use lc.Pool.{
  Pools, max_npools, max_local_pool, lc_pool_create, add_local, lc_pool_get_local, lc_pool_put_to,
  lc_pool_put,
}
use lc.Pool.Conserve.{is, in_pool, IsPool, put_to-some, lc_pool_put_to-conserves}
use lc.Pool.Take.{add_local-IsPool}

-- The table and the key are as they were.
abbrev pub SameTable : Pools → Pools → Type 0
SameTable s s' = (s'.tls ≡ s.tls) × (s'.pool.key ≡ s.pool.key)

-- The worker has the deque `pid`.
abbrev pub HasLocal : Pools → ℕ → ℕ → Type 0
HasLocal s wid pid = (wid < max_npools) × (s.tls wid s.pool.key ≡ some pid)

pub HasLocal-Same :
    (s s' : Pools) (wid pid : ℕ) → SameTable s s' → HasLocal s wid pid → HasLocal s' wid pid
HasLocal-Same s s' wid pid (t, k) (h, e) = (h, (λ i. t i wid s'.pool.key) ∙ ap (s.tls wid) k ∙ e)

-- What `lc_pool_get_local` does when it returns.
pub record GotLocal (s : Pools) (wid pid : ℕ) (s' : Pools) : Type 0 where
  pub valid : IsPool s'
  pub has : HasLocal s' wid pid
  pub below : pid < s'.pool.npools
  pub same : (x : ℕ) → in_pool x s' ≡ in_pool x s

pub create_lem :
    (nkey : ℕ)
    → nkey ≤ max_local_pool
    → lc_pool_create nkey ≡ some (record { key = nkey; npools = 0; lpools = λ _. none }, nkey + 1)
unfolding lc_pool_create
create_lem nkey h = ground arith

get_local-worker :
    (s s' : Pools) (wid pid : ℕ) → lc_pool_get_local s wid ≡ some (pid, s') → wid < max_npools
unfolding lc_pool_get_local
get_local-worker s s' wid pid e = elim (Bool-cases (ltb wid max_npools)) [
  | inl below ↦ ground (arith, below)
  | inr above ↦ ground (arith, above, e)
]

pub get_local-known :
    (s : Pools) (wid pid : ℕ)
    → wid < max_npools
    → s.pool.key < max_local_pool
    → s.tls wid s.pool.key ≡ some pid
    → lc_pool_get_local s wid ≡ some (pid, s)
unfolding lc_pool_get_local
get_local-known s wid pid h k e = ground (arith, h, k, e)

pub get_local-new :
    (s : Pools) (wid : ℕ)
    → wid < max_npools
    → s.pool.key < max_local_pool
    → s.tls wid s.pool.key ≡ none
    → lc_pool_get_local s wid
      ≡ (if ltb s.pool.npools max_npools then some (add_local s wid) else none)
unfolding lc_pool_get_local
get_local-new s wid h k e = ground (arith, h, k, e)

known-GotLocal : (s : Pools) (wid pid : ℕ) → IsPool s → HasLocal s wid pid → GotLocal s wid pid s
known-GotLocal s wid pid v h = record {
  valid = v;
  has = h;
  below = v.local wid pid h.1;
  same = λ x. refl;
}

new-GotLocal :
    (s : Pools) (wid : ℕ)
    → IsPool s
    → wid < max_npools
    → GotLocal s wid (add_local s wid).0 (add_local s wid).1
new-GotLocal s wid v h =
    let (v', below, same) = add_local-IsPool s wid v in
    record { valid = v'; has = (h, ground arith); below = below; same = same }

pub get_local-GotLocal :
    (s s' : Pools) (wid pid : ℕ)
    → IsPool s
    → lc_pool_get_local s wid ≡ some (pid, s')
    → GotLocal s wid pid s'
get_local-GotLocal s s' wid pid v e =
    let worker = get_local-worker s s' wid pid e in
    elim (Option-cases (s.tls wid s.pool.key)) [
      | inr (pid0, known) ↦
          subst (λ (r : ℕ × Pools). GotLocal s wid r.0 r.1)
            (some-injective _ _ (sym (get_local-known s wid pid0 worker v.key known) ∙ e))
            (known-GotLocal s wid pid0 v (worker, known))
      | inl new ↦ elim (Bool-cases (ltb s.pool.npools max_npools)) [
        | inl room ↦
            subst (λ (r : ℕ × Pools). GotLocal s wid r.0 r.1)
              (some-injective _ _ (
                sym (
                  get_local-new s wid worker v.key new
                  ∙ ap (λ c. if c then some (add_local s wid) else none) room)
                ∙ e))
              (new-GotLocal s wid v worker)
        | inr full ↦ absurd (ground (arith, get_local-new s wid worker v.key new, full, e))
      ]
    ]

pub put-local :
    (s s1 : Pools) (wid p pid : ℕ)
    → lc_pool_get_local s wid ≡ some (pid, s1)
    → lc_pool_put s wid p ≡ lc_pool_put_to s1 p pid
unfolding lc_pool_put
put-local s s1 wid p pid e = rw (e, lc_pool_put) refl

put-stops : (s : Pools) (wid p : ℕ) → lc_pool_get_local s wid ≡ none → lc_pool_put s wid p ≡ none
unfolding lc_pool_put
put-stops s wid p e = rw (e, lc_pool_put) refl

put_to-SameTable :
    (s s' : Pools) (elm pid : ℕ) → lc_pool_put_to s elm pid ≡ some s' → SameTable s s'
unfolding lc_pool_put_to
put_to-SameTable s s' elm pid e = elim (Option-cases (s.pool.lpools pid)) [
  | inl missing ↦ ground (arith, missing, e)
  | inr (d, there) ↦ elim (Option-cases (dq_push_top d elm)) [
    | inl full ↦ ground (arith, there, full, e)
    | inr (d', pushed) ↦
        let went = some-injective _ _ (sym (put_to-some s elm pid d d' there pushed) ∙ e) in
        subst (SameTable s) went (refl, refl)
  ]
]

-- A put that returns leaves one more of `elm`, and the worker with its deque.
pub put-Kept :
    (s s' : Pools) (wid elm : ℕ)
    → IsPool s
    → elm ≢ 0
    → lc_pool_put s wid elm ≡ some s'
    → IsPool s'
      × ((pid : ℕ) × HasLocal s' wid pid)
      × ((x : ℕ) → in_pool x s' ≡ in_pool x s + is x elm)
put-Kept s s' wid elm v n e = elim (Option-cases (lc_pool_get_local s wid)) [
  | inl stop ↦ absurd (none-ne-some _ (sym (put-stops s wid elm stop) ∙ e))
  | inr ((pid, s1), went) ↦
      let l = get_local-GotLocal s s1 wid pid v went in
      let put = sym (put-local s s1 wid elm pid went) ∙ e in
      elim (lc_pool_put_to-conserves s1 elm pid l.valid n l.below) [
        | inl (stop, _) ↦ absurd (none-ne-some _ (sym stop ∙ put))
        | inr (s2, put2, v2, count) ↦
            let same = some-injective _ _ (sym put2 ∙ put) in
            (
              subst IsPool same v2,
              (pid, HasLocal-Same s1 s' wid pid (put_to-SameTable s1 s' elm pid put) l.has),
              λ x. omega (arith, ap (in_pool x) same, count x, l.same x),
            )
      ]
]
