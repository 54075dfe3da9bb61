-- ===== src/Coll/Schedule.antt =====
-- How a collective's entries stand in the array `next` of include/lc.h, and their number.
use lc.Base.{
  ℕ, zero, suc, ◌+◌, ◌-◌, ◌*◌, ◌/◌, ◌%◌, ◌^◌, ◌≤◌, ◌<◌, ◌≡◌, refl, sym, ap, ◌∙◌, List, [], ◌∷◌,
  ◌++◌, Option, none, some, arith, Bool, true, false, ltb, ◌==◌, if◌then◌else◌, ◌&&◌, length,
  ==_refl, length-append, append_assoc, append-nil,
}
use native.Mathlib.Nat.{mul_assoc}
use native.Mathlib.Decide.{dec_lt}
use lc.Base.Bits.{pow2}
use lc.Engine.{put_at}
use lc.Coll.{
  Sched, mem, free, ColReq, max_sched, col_add, col_add_all, bit_length, next_poweroftwo, new_rank,
  exchange, exchange_if, fold_in, fold_out, allreduce_schedule, barrier_schedule,
}

-- The first `n` entries of the array.
abbrev pub entries : (ℕ → Sched) → ℕ → List Sched
entries next zero = []
entries next (suc n) = entries next n ++ next n ∷ []

entries-put :
    (next : ℕ → Sched) (n i : ℕ) (s : Sched) → n ≤ i → entries (put_at next i s) n ≡ entries next n
entries-put next zero i s h = refl
entries-put next (suc n) i s h = ground (arith, entries-put next n i s (omega arith))

-- The request with the entries written, or the write past the end.
abbrev pub Written : ColReq → List Sched → Option ColReq → Type 0
Written r l none = max_sched < r.total + length l
Written r l (some r') =
    (r.total + length l ≤ max_sched)
    × (r'.total ≡ r.total + length l)
    × (entries r'.next r'.total ≡ entries r.next r.total ++ l)
    × (r'.cur ≡ r.cur)
    × (r'.flag ≡ r.flag)
    × (r'.sync0 ≡ r.sync0)
    × (r'.sync1 ≡ r.sync1)
    × (r'.done ≡ r.done)

-- One entry more in front.
Written-step :
    (r : ColReq) (s : Sched) (l : List Sched) (o : Option ColReq)
    → r.total < max_sched
    → Written (record r { next = put_at r.next r.total s; total = r.total + 1 }) l o
    → Written r (s ∷ l) o
Written-step r s l none h w = omega arith
Written-step r s l (some r') h (a, b, c, d, e, f, g, i) = (
  omega arith,
  omega arith,
  c
      ∙ ap (λ n. entries (put_at r.next r.total s) n ++ l) {x = r.total + 1} {y = suc r.total}
          (omega arith)
      ∙ ap (λ x. (x ++ put_at r.next r.total s r.total ∷ []) ++ l)
          (entries-put r.next r.total r.total s (omega arith))
      ∙ append_assoc (entries r.next r.total) (put_at r.next r.total s r.total ∷ []) l
      ∙ ap (λ x. entries r.next r.total ++ x ∷ l) (rw (==_refl r.total)),
  d,
  e,
  f,
  g,
  i,
)

col_add-room :
    (r : ColReq) (s : Sched)
    → r.total < max_sched
    → col_add r s ≡ some (record r { next = put_at r.next r.total s; total = r.total + 1 })
unfolding col_add
col_add-room r s h = ground arith

col_add-full : (r : ColReq) (s : Sched) → max_sched ≤ r.total → col_add r s ≡ none
unfolding col_add
col_add-full r s h = ground arith

-- Calls of `lc_col_*` on a request that is not overfull write their entries in order behind the
-- ones that are there and change nothing else, unless there are more than 128 in all: then one of
-- them writes past the end of the array.
pub col_add_all-Written :
    (l : List Sched) (r : ColReq) → r.total ≤ max_sched → Written r l (col_add_all r l)
unfolding col_add_all
col_add_all-Written [] r h = (
  omega arith,
  omega arith,
  sym (append-nil (entries r.next r.total)),
  refl,
  refl,
  refl,
  refl,
  refl,
)
col_add_all-Written (s ∷ l) r h = elim (dec_lt r.total max_sched) [
  | yes room ↦
      let next' = put_at r.next r.total s in
      rw (col_add-room r s room, Written)
        (Written-step r s l (col_add_all (record r { next = next'; total = r.total + 1 }) l) room
          (col_add_all-Written l (record r { next = next'; total = r.total + 1 }) (omega arith)))
  | no full ↦ rw (col_add-full r s (omega arith), Written) (omega arith)
]

-- `opal_next_poweroftwo` on 32 bits.
bit_length-zero : (fuel : ℕ) → bit_length fuel 0 ≡ 0
unfolding bit_length
bit_length-zero zero = refl
bit_length-zero (suc fuel) = refl

bit_length-bounds :
    (fuel m v : ℕ)
    → 0 < v
    → v < pow2 m
    → m ≤ fuel
    → (k : ℕ) × (bit_length fuel v ≡ suc k) × (k < m) × (pow2 k ≤ v) × (v < 2 * pow2 k)
unfolding bit_length
bit_length-bounds fuel zero v h b f = absurd (omega arith)
bit_length-bounds zero (suc m) v h b f = absurd (omega arith)
bit_length-bounds (suc fuel) (suc m) v h b f = elim (dec_lt v 2) [
  | yes one ↦
      let e : v / 2 ≡ 0 = omega arith in
      (
        0,
        ground (arith, ap (bit_length fuel) e, bit_length-zero fuel),
        omega arith,
        omega arith,
        omega arith,
      )
  | no more ↦
      let (k, e, f, l, u) =
        bit_length-bounds fuel m (v / 2) (omega arith) (omega arith) (omega arith) in
      (suc k, ground (arith, e), omega arith, omega arith, omega arith)
]

-- For a number of processes, half of the next power of two is the largest power of two that is not
-- larger.
pub next_poweroftwo-half :
    (size : ℕ)
    → 0 < size
    → size < 2 ^ 31
    → (k : ℕ) × (next_poweroftwo size / 2 ≡ pow2 k)
      × (k < 31)
      × (pow2 k ≤ size)
      × (size < 2 * pow2 k)
unfolding next_poweroftwo
next_poweroftwo-half size h b =
    let (k, e, f, l, u) = bit_length-bounds 32 31 size h b (omega arith) in
    (k, ground (arith, ap pow2 e), f, l, u)

-- Two entries for each distance below the power of two.
length-exchange :
    (fuel d n adjsize extra newrank s t count ep : ℕ)
    → adjsize ≡ d * pow2 n
    → 0 < d
    → n ≤ fuel
    → length (exchange fuel d adjsize extra newrank s t count ep) ≤ 2 * n
unfolding exchange
length-exchange zero d n adjsize extra newrank s t count ep e h f = omega arith
length-exchange (suc fuel) d zero adjsize extra newrank s t count ep e h f = ground arith
length-exchange (suc fuel) d (suc n) adjsize extra newrank s t count ep e h f = ground (
  arith,
  length-exchange fuel (d * 2) n adjsize extra newrank s t count ep
      (e ∙ sym (mul_assoc d 2 (pow2 n))) (omega arith) (omega arith),
)

length-fold_in : (extra rank s t count ep : ℕ) → length (fold_in extra rank s t count ep) ≤ 2
unfolding fold_in
length-fold_in extra rank s t count ep = ground arith

length-fold_out : (extra rank s t count ep : ℕ) → length (fold_out extra rank s t count ep) ≤ 1
unfolding fold_out
length-fold_out extra rank s t count ep = ground arith

length-exchange_if :
    (o : Option ℕ) (k adjsize extra s t count ep : ℕ)
    → adjsize ≡ pow2 k
    → k < 31
    → length (exchange_if o adjsize extra s t count ep) ≤ 60
unfolding exchange_if
length-exchange_if none k adjsize extra s t count ep e h = omega arith
length-exchange_if (some n) k adjsize extra s t count ep e h = omega (
  arith,
  length-exchange 32 1 k adjsize extra n s t count ep (omega arith) (omega arith) (omega arith),
)

length-five :
    (a b c d e : List Sched)
    → length (a ++ b ++ c ++ d ++ e) ≡ length a + length b + length c + length d + length e
length-five a b c d e = omega (
  arith,
  length-append (a ++ b ++ c ++ d) e,
  length-append (a ++ b ++ c) d,
  length-append (a ++ b) c,
  length-append a b,
)

length-unless : (t : Bool) (s : Sched) → length (if t then [] else s ∷ []) ≤ 1
length-unless true s = omega arith
length-unless false s = omega arith

-- The schedule of an allreduce of up to 2^31 - 1 processes has at most 65 entries, on every rank.
pub length-allreduce_schedule :
    (rank size buf rbuf count ep : ℕ)
    → 0 < size
    → size < 2 ^ 31
    → length (allreduce_schedule rank size buf rbuf count ep) ≤ 65
unfolding allreduce_schedule
length-allreduce_schedule rank size buf rbuf count ep h b =
    let (k, e, f, l, u) = next_poweroftwo-half size h b in
    let extra : ℕ = size - next_poweroftwo size / 2 in
    let even_low : Bool = ltb rank (2 * extra) && (rank % 2 == 0) in
    let tmpsend : ℕ = if even_low then rbuf else buf in
    omega (
      arith,
      length-five (fold_in extra rank buf rbuf count ep)
          (exchange_if (new_rank extra rank) (next_poweroftwo size / 2) extra buf rbuf count ep)
          (fold_out extra rank buf rbuf count ep)
          (if tmpsend == rbuf then [] else mem rbuf tmpsend count ∷ [])
          (if buf == 0 then [] else free buf ∷ []),
      length-unless (tmpsend == rbuf) (mem rbuf tmpsend count),
      length-unless (buf == 0) (free buf),
      length-fold_in extra rank buf rbuf count ep,
      length-fold_out extra rank buf rbuf count ep,
      length-exchange_if (new_rank extra rank) k (next_poweroftwo size / 2) extra buf rbuf count ep
          e f,
    )

pub length-barrier_schedule :
    (fuel d m size rank empty ep : ℕ)
    → size ≤ d * pow2 m
    → 0 < d
    → m ≤ fuel
    → length (barrier_schedule fuel d size rank empty ep) ≤ 2 * m
unfolding barrier_schedule
length-barrier_schedule zero d m size rank empty ep e h f = omega arith
length-barrier_schedule (suc fuel) d zero size rank empty ep e h f = ground arith
length-barrier_schedule (suc fuel) d (suc m) size rank empty ep e h f = ground (
  arith,
  mul_assoc d 2 (pow2 m),
  length-barrier_schedule fuel (d * 2) m size rank empty ep (omega (arith, mul_assoc d 2 (pow2 m)))
      (omega arith) (omega arith),
)
