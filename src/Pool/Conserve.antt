-- ===== src/Pool/Conserve.antt =====
-- What the deques of a pool of include/lc/pool.h hold, before and after a put.
use lc.Base.{
  ℕ, zero, suc, ◌+◌, ◌-◌, ◌≤◌, ◌<◌, ◌≡◌, ◌≢◌, refl, ap, ◌∙◌, List, [], ◌∷◌, ◌++◌, Option, none,
  some, arith, ◌==◌, ltb, if◌then◌else◌, Bool-cases, inl, inr, ◌⊎◌, ltb→le, length, get_or,
  drop_last,
}
use mathlib.Core.Path.{subst}
use lc.Dequeue.{max_size, Dequeue, dq_push_top}
use lc.Dequeue.Refine.{IsValid, contents, Agrees, push, dq_push_top_refines}
use lc.Engine.{put_at}
use lc.Pool.{max_local_pool, Pools, put_local, lc_pool_put_to}

-- How often `x` stands in a list, and whether it is one element.
abbrev pub is : ℕ → ℕ → ℕ
is x y = if x == y then 1 else 0

abbrev pub times : ℕ → List ℕ → ℕ
times x [] = 0
times x (y ∷ l) = is x y + times x l

-- How often it is in a deque, and in the first `n` deques of a pool.
abbrev pub in_local : ℕ → Option Dequeue → ℕ
in_local x none = 0
in_local x (some d) = times x (contents d)

abbrev pub in_first : ℕ → (ℕ → Option Dequeue) → ℕ → ℕ
in_first x lpools zero = 0
in_first x lpools (suc n) = in_local x (lpools n) + in_first x lpools n

abbrev pub in_pool : ℕ → Pools → ℕ
in_pool x s = in_first x s.pool.lpools s.pool.npools

pub times-append : (x y : ℕ) (l : List ℕ) → times x (l ++ y ∷ []) ≡ times x l + is x y
times-append x y [] = omega arith
times-append x y (z ∷ l) = omega (arith, times-append x y l)

pub times-drop_last :
    (x : ℕ) (l : List ℕ)
    → 0 < length l
    → times x l ≡ times x (drop_last l) + is x (get_or l (length l - 1) 0)
times-drop_last x [] h = absurd (omega arith)
times-drop_last x (y ∷ []) h = ground arith
times-drop_last x (y ∷ z ∷ l) h =
    let last : get_or (y ∷ z ∷ l) (suc (suc (length l)) - 1) 0
        ≡ get_or (z ∷ l) (length (z ∷ l) - 1) 0 =
      ap (λ i. get_or (y ∷ z ∷ l) i 0) {x = suc (suc (length l)) - 1} {y = suc (length l)}
        (omega arith)
      ∙ ap (λ i. get_or (z ∷ l) i 0) {x = length l} {y = length (z ∷ l) - 1} (omega arith) in
    omega (arith, times-drop_last x (z ∷ l) (omega arith), ap (is x) last)

-- Writing a deque beyond those that are counted.
pub in_first-above :
    (x n pid : ℕ) (f : ℕ → Option Dequeue) (o : Option Dequeue)
    → n ≤ pid
    → in_first x (put_at f pid o) n ≡ in_first x f n
in_first-above x zero pid f o h = refl
in_first-above x (suc n) pid f o h = ground (arith, in_first-above x n pid f o (omega arith))

-- Writing one of them: the old deque's elements go and the new one's come.
in_first-put :
    (x n pid : ℕ) (f : ℕ → Option Dequeue) (o : Option Dequeue)
    → pid < n
    → in_local x (f pid) + in_first x (put_at f pid o) n ≡ in_first x f n + in_local x o
in_first-put x zero pid f o h = absurd (omega arith)
in_first-put x (suc n) pid f o h = elim (Bool-cases (pid == n)) [
  | inl e ↦
      let same : pid ≡ n = ground (arith, e) in
      let written : put_at f pid o n ≡ o = rw e in
      omega (
        arith,
        ap (λ i. in_local x (f i)) same,
        ap (in_local x) written,
        in_first-above x n pid f o (omega arith),
      )
  | inr e ↦ ground (arith, e, in_first-put x n pid f o)
]

-- The key is in a row of the table, the deques that are counted are valid and hold no NULL, and a
-- worker's is one of them.
pub record IsPool (s : Pools) : Type 0 where
  pub key : s.pool.key < max_local_pool
  pub deque :
      (i : ℕ)
      → i < s.pool.npools
      → (d : Dequeue) × (s.pool.lpools i ≡ some d) × IsValid d × (times 0 (contents d) ≡ 0)
  pub local : (wid pid : ℕ) → s.tls wid s.pool.key ≡ some pid → pid < s.pool.npools

pub put_local-in_pool :
    (x pid : ℕ) (s : Pools) (d d' : Dequeue)
    → pid < s.pool.npools
    → s.pool.lpools pid ≡ some d
    → times x (contents d) + in_pool x (put_local s pid d') ≡ in_pool x s + times x (contents d')
put_local-in_pool x pid s d d' h e =
    omega (arith, in_first-put x s.pool.npools pid s.pool.lpools (some d') h, ap (in_local x) e)

pub put_local-IsPool :
    (pid : ℕ) (s : Pools) (d : Dequeue)
    → IsPool s
    → IsValid d
    → times 0 (contents d) ≡ 0
    → IsPool (put_local s pid d)
put_local-IsPool pid s d v dv z = record {
  key = v.key;
  deque = λ i h. elim (Bool-cases (pid == i)) [
    | inl e ↦ (d, rw e, dv, z)
    | inr e ↦ let (d0, e0, v0, z0) = v.deque i h in (d0, rw e e0, v0, z0)
  ];
  local = v.local;
}

-- One deque's push, in numbers.
pub pushed :
    (d : Dequeue) (elm : ℕ)
    → IsValid d
    → (dq_push_top d elm ≡ none) × (max_size ≤ length (contents d) + 1)
      ⊎ ((d' : Dequeue) × (dq_push_top d elm ≡ some d')
          × IsValid d'
          × (contents d' ≡ contents d ++ elm ∷ []))
unfolding push
pushed d elm v = go (dq_push_top d elm) refl (dq_push_top_refines elm v)
  where
    go :
        (o : Option Dequeue)
        → dq_push_top d elm ≡ o
        → Agrees o (push (contents d) elm)
        → (dq_push_top d elm ≡ none) × (max_size ≤ length (contents d) + 1)
          ⊎ ((d' : Dequeue) × (dq_push_top d elm ≡ some d')
              × IsValid d'
              × (contents d' ≡ contents d ++ elm ∷ []))
    go o e a = elim (Bool-cases (ltb (length (contents d) + 1) max_size)) [
      | inl room ↦ inr (
          roomy o e
            (subst (λ t. Agrees o (if t then some (contents d ++ elm ∷ []) else none)) room a))
      | inr full ↦ inl (
        e
            ∙ exits o
                (subst (λ t. Agrees o (if t then some (contents d ++ elm ∷ []) else none)) full a),
        ltb→le _ _ full,
      )
    ]
      where
        roomy :
            (o : Option Dequeue)
            → dq_push_top d elm ≡ o
            → Agrees o (some (contents d ++ elm ∷ []))
            → (d' : Dequeue) × (dq_push_top d elm ≡ some d')
              × IsValid d'
              × (contents d' ≡ contents d ++ elm ∷ [])
        roomy none e a = absurd a
        roomy (some d') e (v', c) = (d', e, v', c)

        exits : (o : Option Dequeue) → Agrees o none → o ≡ none
        exits none a = refl
        exits (some d') a = absurd a

-- The deque of a pool has no room.
abbrev pub IsFull : Pools → ℕ → Type 0
IsFull s pid = (d : Dequeue) × (s.pool.lpools pid ≡ some d) × (max_size ≤ length (contents d) + 1)

put_to-none :
    (s : Pools) (elm pid : ℕ) (d : Dequeue)
    → s.pool.lpools pid ≡ some d
    → dq_push_top d elm ≡ none
    → lc_pool_put_to s elm pid ≡ none
unfolding lc_pool_put_to
put_to-none s elm pid d e h = rw (e, lc_pool_put_to) (rw h refl)

pub put_to-some :
    (s : Pools) (elm pid : ℕ) (d d' : Dequeue)
    → s.pool.lpools pid ≡ some d
    → dq_push_top d elm ≡ some d'
    → lc_pool_put_to s elm pid ≡ some (put_local s pid d')
unfolding lc_pool_put_to
put_to-some s elm pid d d' e h = rw (e, lc_pool_put_to) (rw h refl)

-- On a pool in which the deque is one of those that are counted, `lc_pool_put_to` exits only where
-- it is full, and else leaves one `elm` more than there was and all else as often as before.
pub lc_pool_put_to-conserves :
    (s : Pools) (elm pid : ℕ)
    → IsPool s
    → elm ≢ 0
    → pid < s.pool.npools
    → (lc_pool_put_to s elm pid ≡ none) × IsFull s pid
      ⊎ ((s' : Pools) × (lc_pool_put_to s elm pid ≡ some s')
          × IsPool s'
          × ((x : ℕ) → in_pool x s' ≡ in_pool x s + is x elm))
lc_pool_put_to-conserves s elm pid v n h =
    let (d, e, dv, z) = v.deque pid h in
    elim (pushed d elm dv) [
      | inl (stop, full) ↦ inl (put_to-none s elm pid d e stop, (d, e, full))
      | inr (d', some_d', dv', c) ↦
          let count : (x : ℕ) → times x (contents d') ≡ times x (contents d) + is x elm =
            λ x. ap (times x) c ∙ times-append x elm (contents d) in
          inr (
            put_local s pid d',
            put_to-some s elm pid d d' e some_d',
            put_local-IsPool pid s d' v dv' (ground (arith, count 0, z, n)),
            λ x. omega (arith, put_local-in_pool x pid s d d' h e, count x),
          )
    ]
