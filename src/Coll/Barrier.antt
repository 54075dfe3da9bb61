-- ===== src/Coll/Barrier.antt =====
-- The rounds of the barrier of src/coll/ibarrier.h: who receives from whom, and who is heard.
use lc.Base.{
  ℕ, zero, suc, ◌+◌, ◌-◌, ◌*◌, ◌%◌, ◌^◌, ◌≤◌, ◌<◌, ◌≡◌, refl, sym, ap, ◌∙◌, List, [], ◌∷◌, ◌++◌,
  append-nil, append_assoc, arith, ◌⊎◌, inl, inr,
}
use native.Mathlib.Decide.{dec_lt}
use lc.Base.Bits.{pow2, pow2-pos}
use lc.Ring.{wrap_cases}
use mathlib.Core.Path.{subst}
use lc.Coll.{Sched, send, recv, tag_ibarrier, barrier_schedule, to_rank, from_rank}

-- In a round with a distance below the size, the rank that sends to `rank` is the one from which
-- `rank` receives, and the rank that receives from it is the one to which it sends.
pub barrier-paired :
    (size rank distance : ℕ)
    → rank < size
    → distance < size
    → (to_rank size (from_rank size rank distance) distance ≡ rank)
      × (from_rank size (to_rank size rank distance) distance ≡ rank)
      × (to_rank size rank distance < size)
      × (from_rank size rank distance < size)
unfolding to_rank from_rank
barrier-paired size rank distance r d =
    let up = wrap_cases size (rank + distance) (omega arith) in
    let down = wrap_cases size (rank + size - distance) (omega arith) in
    let there =
      wrap_cases size ((rank + size - distance) % size + distance) (omega (arith, down)) in
    let back = wrap_cases size ((rank + distance) % size + size - distance) (omega (arith, up)) in
    omega (arith, up, down, there, back)

-- `Heard size k rank s`: that `rank` has received in its first `k` rounds implies that `s` has
-- entered the barrier, since every message was sent after the rounds before it. A message of `q` is
-- received in a round only if `q` sends to `rank` in it and `rank` receives from `q`.
pub data Heard (size : ℕ) : ℕ → ℕ → ℕ → Type 0 where
  self : {k rank : ℕ} → Heard size k rank rank
  before : {k rank s : ℕ} → Heard size k rank s → Heard size (suc k) rank s
  received :
      {k rank s : ℕ} (q : ℕ)
      → to_rank size q (pow2 k) ≡ rank
      → from_rank size rank (pow2 k) ≡ q
      → Heard size k q s
      → Heard size (suc k) rank s

from_rank-cases :
    (size rank d : ℕ)
    → rank < size
    → 0 < d
    → d < size
    → (rank < d) × (from_rank size rank d ≡ rank + size - d)
      ⊎ (d ≤ rank) × (from_rank size rank d ≡ rank - d)
unfolding from_rank
from_rank-cases size rank d r p h = omega (arith, wrap_cases size (rank + size - d) (omega arith))

-- After `k` rounds the `pow2 k` ranks up to one's own are heard, going round.
Heard-near :
    (size k rank s j : ℕ)
    → rank < size
    → s < size
    → j < size
    → j < pow2 k
    → (s + j ≡ rank) ⊎ (s + j ≡ rank + size)
    → Heard size k rank s
Heard-near size zero rank s j r h a b e =
    let same : rank ≡ s = omega (arith, e) in subst (Heard size zero rank) same self
Heard-near size (suc k) rank s j r h a b e = elim (dec_lt j (pow2 k)) [
  | yes near ↦ before (Heard-near size k rank s j r h a near e)
  | no far ↦
      let c = from_rank-cases size rank (pow2 k) r (pow2-pos k) (omega arith) in
      received (from_rank size rank (pow2 k)) (barrier-paired size rank (pow2 k) r (omega arith)).0
        refl
        (Heard-near size k (from_rank size rank (pow2 k)) s (j - pow2 k) (omega (arith, c)) h
          (omega arith) (omega arith) (ground (arith, c, e)))
]

Heard-all : (size k rank s : ℕ) → size ≤ pow2 k → rank < size → s < size → Heard size k rank s
Heard-all size k rank s p r h = elim (dec_lt rank s) [
  | yes after ↦
      Heard-near size k rank s (rank + size - s) r h (omega arith) (omega arith) (inr (omega arith))
  | no up_to ↦
      Heard-near size k rank s (rank - s) r h (omega arith) (omega arith) (inl (omega arith))
]

-- The entries of the first `k` rounds.
pub rounds : ℕ → ℕ → ℕ → ℕ → ℕ → List Sched
rounds zero size rank empty ep = []
rounds (suc k) size rank empty ep =
    rounds k size rank empty ep
    ++ send empty 1 (to_rank size rank (pow2 k)) tag_ibarrier ep
      ∷ recv empty 1 (from_rank size rank (pow2 k)) tag_ibarrier ep
      ∷ []

barrier_schedule-more :
    (fuel k size rank empty ep : ℕ)
    → pow2 k < size
    → barrier_schedule (suc fuel) (pow2 k) size rank empty ep
      ≡ send empty 1 (to_rank size rank (pow2 k)) tag_ibarrier ep
        ∷ recv empty 1 (from_rank size rank (pow2 k)) tag_ibarrier ep
        ∷ barrier_schedule fuel (pow2 (suc k)) size rank empty ep
unfolding barrier_schedule
barrier_schedule-more fuel k size rank empty ep h =
    let double : pow2 k * 2 ≡ pow2 (suc k) = omega arith in
    ground (arith, ap (λ d. barrier_schedule fuel d size rank empty ep) double)

barrier_schedule-end :
    (fuel d size rank empty ep : ℕ) → size ≤ d → barrier_schedule fuel d size rank empty ep ≡ []
unfolding barrier_schedule
barrier_schedule-end zero d size rank empty ep h = refl
barrier_schedule-end (suc fuel) d size rank empty ep h = ground arith

rounds-last :
    (fuel k size rank empty ep : ℕ)
    → size ≤ pow2 k
    → rounds k size rank empty ep ++ barrier_schedule fuel (pow2 k) size rank empty ep
      ≡ rounds k size rank empty ep
rounds-last fuel k size rank empty ep h =
    ap (λ l. rounds k size rank empty ep ++ l)
      (barrier_schedule-end fuel (pow2 k) size rank empty ep h)
    ∙ append-nil (rounds k size rank empty ep)

rounds-more :
    (fuel k size rank empty ep : ℕ)
    → pow2 k < size
    → rounds k size rank empty ep ++ barrier_schedule (suc fuel) (pow2 k) size rank empty ep
      ≡ rounds (suc k) size rank empty ep ++ barrier_schedule fuel (pow2 (suc k)) size rank empty ep
unfolding rounds
rounds-more fuel k size rank empty ep h =
    ap (λ l. rounds k size rank empty ep ++ l) (barrier_schedule-more fuel k size rank empty ep h)
    ∙ sym (
        append_assoc (rounds k size rank empty ep)
          (send empty 1 (to_rank size rank (pow2 k)) tag_ibarrier ep
            ∷ recv empty 1 (from_rank size rank (pow2 k)) tag_ibarrier ep
            ∷ [])
          (barrier_schedule fuel (pow2 (suc k)) size rank empty ep))

schedule-rounds :
    (fuel k size rank empty ep : ℕ)
    → size ≤ pow2 (k + fuel)
    → (m : ℕ) × (rounds k size rank empty ep ++ barrier_schedule fuel (pow2 k) size rank empty ep
        ≡ rounds m size rank empty ep)
      × (size ≤ pow2 m)
schedule-rounds zero k size rank empty ep h =
    let enough : size ≤ pow2 k = subst (λ x. size ≤ pow2 x) (omega arith) h in
    (k, rounds-last zero k size rank empty ep enough, enough)
schedule-rounds (suc fuel) k size rank empty ep h = elim (dec_lt (pow2 k) size) [
  | no all ↦ (k, rounds-last (suc fuel) k size rank empty ep (omega arith), omega arith)
  | yes more ↦
      let shift : k + suc fuel ≡ suc k + fuel = omega arith in
      let (m, e, l) =
        schedule-rounds fuel (suc k) size rank empty ep (subst (λ x. size ≤ pow2 x) shift h) in
      (m, rounds-more fuel k size rank empty ep more ∙ e, l)
]

-- For a rank of fewer than 2^31 processes the schedule of the barrier consists of rounds at the
-- distances 1, 2, 4, ..., and they are enough: a rank that has done them has heard, directly or
-- through others, from every rank that it has entered the barrier, where a message counts only if
-- its sender's round sends it to the rank that receives it.
pub barrier-Heard :
    (size rank empty ep : ℕ)
    → size < 2 ^ 31
    → rank < size
    → (m : ℕ) × (barrier_schedule 32 1 size rank empty ep ≡ rounds m size rank empty ep)
      × ((s : ℕ) → s < size → Heard size m rank s)
unfolding rounds
barrier-Heard size rank empty ep b r =
    let (m, e, l) = schedule-rounds 32 0 size rank empty ep (omega arith) in
    (m, e, λ s h. Heard-all size m rank s l r h)
