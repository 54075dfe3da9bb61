-- ===== src/Pool/Bounded.antt =====
-- A pool of include/lc/pool.h that holds no more than a list that fits into a deque: lc_pool_put
-- returns.
use lc.Base.{
  ℕ, zero, suc, ◌+◌, ◌≤◌, ◌<◌, ◌≡◌, ◌≢◌, ap, ◌∙◌, List, [], ◌∷◌, Option, some, arith, ◌==◌,
  if◌then◌else◌, length, Bool-cases, inl, inr,
}
use lc.Dequeue.{Dequeue, max_size}
use lc.Dequeue.Refine.{contents}
use lc.Pool.{Pools, lc_pool_get_local, lc_pool_put}
use lc.Pool.Conserve.{
  is, times, in_local, in_first, in_pool, IsPool, IsFull, lc_pool_put_to-conserves,
}
use lc.Pool.Worker.{HasLocal, get_local-GotLocal, put-local, put-Kept}

-- A list without the first `y`.
abbrev remove : ℕ → List ℕ → List ℕ
remove y [] = []
remove y (z ∷ m) = if z == y then m else z ∷ remove y m

times-remove : (x y : ℕ) (m : List ℕ) → 0 < times y m → times x m ≡ times x (remove y m) + is x y
times-remove x y [] h = absurd (omega arith)
times-remove x y (z ∷ m) h = elim (Bool-cases (z == y)) [
  | inl same ↦ ground (arith, same)
  | inr other ↦ ground (arith, other, times-remove x y m)
]

length-remove : (y : ℕ) (m : List ℕ) → 0 < times y m → length m ≡ suc (length (remove y m))
length-remove y [] h = absurd (omega arith)
length-remove y (z ∷ m) h = elim (Bool-cases (z == y)) [
  | inl same ↦ ground (arith, same)
  | inr other ↦ ground (arith, other, length-remove y m)
]

-- What is in a list no more often than in another is no longer.
times-length : (l m : List ℕ) → ((x : ℕ) → times x l ≤ times x m) → length l ≤ length m
times-length [] m h = omega arith
times-length (y ∷ l) m h =
    let there : 0 < times y m = ground (arith, h y) in
    let rest : (x : ℕ) → times x l ≤ times x (remove y m) =
      λ x. omega (arith, h x, times-remove x y m there) in
    omega (arith, times-length l (remove y m) rest, length-remove y m there)

in_first-le : (x i n : ℕ) (f : ℕ → Option Dequeue) → i < n → in_local x (f i) ≤ in_first x f n
in_first-le x i zero f h = absurd (omega arith)
in_first-le x i (suc n) f h = elim (Bool-cases (i == n)) [
  | inl e ↦ let same : i ≡ n = ground (arith, e) in omega (arith, ap (λ k. in_local x (f k)) same)
  | inr e ↦ ground (arith, e, in_first-le x i n f)
]

-- The worker has a deque or gets one.
abbrev pub CanPut : Pools → ℕ → Type 0
CanPut s wid = (pid : ℕ) × (s1 : Pools) × (lc_pool_get_local s wid ≡ some (pid, s1))

-- The pool's elements are elements of a list that a deque has room for.
pub record Within (all : List ℕ) (s : Pools) : Type 0 where
  pub valid : IsPool s
  pub part : (x : ℕ) → in_pool x s ≤ times x all
  pub fits : length all + 1 < max_size

Within-room :
    (all : List ℕ) (s : Pools) (pid : ℕ) → Within all s → pid < s.pool.npools → ¬ IsFull s pid
Within-room all s pid w h (d, there, full) =
    let fewer = times-length (contents d) all (λ x.
      omega (
        arith,
        w.part x,
        in_first-le x pid s.pool.npools s.pool.lpools h,
        ap (in_local x) there,
      )) in
    omega (arith, fewer, full, w.fits)

-- What a put that returns leaves.
pub record PutInto (s : Pools) (wid elm : ℕ) : Type 0 where
  pub pools : Pools
  pub returned : lc_pool_put s wid elm ≡ some pools
  pub valid : IsPool pools
  pub pid : ℕ
  pub has : HasLocal pools wid pid
  pub count : (x : ℕ) → in_pool x pools ≡ in_pool x s + is x elm

put-PutInto :
    (s s' : Pools) (wid elm : ℕ)
    → IsPool s
    → elm ≢ 0
    → lc_pool_put s wid elm ≡ some s'
    → PutInto s wid elm
put-PutInto s s' wid elm v n e =
    let (v', (pid, has), count) = put-Kept s s' wid elm v n e in
    record { pools = s'; returned = e; valid = v'; pid = pid; has = has; count = count }

pub lc_pool_put-PutInto :
    (all : List ℕ) (s : Pools) (wid elm : ℕ)
    → Within all s
    → CanPut s wid
    → elm ≢ 0
    → PutInto s wid elm
lc_pool_put-PutInto all s wid elm w (pid, s1, went) n =
    let l = get_local-GotLocal s s1 wid pid w.valid went in
    let w1 : Within all s1 = record {
      valid = l.valid;
      part = λ x. omega (arith, l.same x, w.part x);
      fits = w.fits;
    } in
    elim (lc_pool_put_to-conserves s1 elm pid l.valid n l.below) [
      | inl (_, full) ↦ absurd (Within-room all s1 pid w1 l.below full)
      | inr (s', put, _, _) ↦
          put-PutInto s s' wid elm w.valid n (put-local s s1 wid elm pid went ∙ put)
    ]
