-- ===== src/Coll/Value/Messages.antt =====
-- The allreduce of src/coll/ialreduce.h over all ranks: what they send to each other.
use lc.Base.{
  ℕ, zero, suc, ◌+◌, ◌-◌, ◌*◌, ◌/◌, ◌%◌, ◌^◌, ◌≤◌, ◌<◌, ◌≡◌, ◌≢◌, sym, ap, ◌∙◌, List, arith,
  bit_xor,
}
use native.Mathlib.Decide.{dec_lt}
use mathlib.Core.Path.{subst}
use lc.Base.Bits.{pow2, bit_xor-lt, bit_xor-twice}
use lc.Coll.{
  Sched, fold_in, fold_out, exchange, exchange_if, new_rank, remote_of, next_poweroftwo,
  allreduce_schedule,
}
use lc.Coll.Schedule.{next_poweroftwo-half}
use lc.Coll.Partner.{new_rank-remote_of, remote_of-lt}
use lc.Coll.Value.{after, Sends}
use lc.Coll.Value.Blocks.{held, folded}
use lc.Coll.Value.Exchange.{pow2-above, Sends-append, exchange-sends}
use lc.Coll.Value.Fold.{reduced, answered, copied, after-fold_in, Sends-fold_in}

pub remote_of-low : (extra n : ℕ) → n < extra → remote_of extra n ≡ n * 2 + 1
unfolding remote_of
remote_of-low extra n h = ground arith

pub remote_of-high : (extra n : ℕ) → extra ≤ n → remote_of extra n ≡ n + extra
unfolding remote_of
remote_of-high extra n h = ground arith

-- Every rank works off its schedule: it starts with its value `x` in `buf`, apart from `rbuf`, and
-- what it receives from a rank, `msg` of the two, is what that rank's schedule sends to it.
pub record Run {A : Type 0} (f : A → A → A) (x : ℕ → A) (size count ep : ℕ) : Type 0 where
  pub msg : ℕ → ℕ → A
  pub mems : ℕ → ℕ → A
  pub buf : ℕ → ℕ
  pub rbuf : ℕ → ℕ
  pub some_ranks : 0 < size
  pub bound : size < 2 ^ 31
  pub apart : (r : ℕ) → r < size → buf r ≢ rbuf r
  pub given : (r : ℕ) → r < size → mems r (buf r) ≡ x r
  pub sends :
      (r : ℕ)
      → r < size
      → Sends f
          (λ s. msg s r)
          (msg r)
          (allreduce_schedule r size (buf r) (rbuf r) count ep)
          (mems r)

module _ {A : Type 0} {f : A → A → A} {x : ℕ → A} {size count ep : ℕ}
    (run : Run f x size count ep) where
  abbrev pub log : ℕ
  log = (next_poweroftwo-half size run.some_ranks run.bound).0

  abbrev pub adjsize : ℕ
  adjsize = next_poweroftwo size / 2

  abbrev pub extra : ℕ
  extra = size - adjsize

  pub adjsize-eq : adjsize ≡ pow2 log
  adjsize-eq = (next_poweroftwo-half size run.some_ranks run.bound).1

  pub log-lt : log < 31
  log-lt = (next_poweroftwo-half size run.some_ranks run.bound).2

  pub size-eq : size ≡ pow2 log + extra
  size-eq =
      let (k, e, _, l, _) = next_poweroftwo-half size run.some_ranks run.bound in
      omega (arith, e, l)

  pub extra-lt : extra < pow2 log
  extra-lt =
      let (k, e, _, _, u) = next_poweroftwo-half size run.some_ranks run.bound in
      omega (arith, e, u)

  abbrev pub inb : ℕ → ℕ → A
  inb r s = run.msg s r

  abbrev pub parts_in : ℕ → List Sched
  parts_in r = fold_in extra r (run.buf r) (run.rbuf r) count ep

  abbrev pub parts_reduced : ℕ → List Sched
  parts_reduced r = reduced extra adjsize r (run.buf r) (run.rbuf r) count ep

  abbrev pub parts_answered : ℕ → List Sched
  parts_answered r = answered extra adjsize r (run.buf r) (run.rbuf r) count ep

  Sends-answered : (r : ℕ) → r < size → Sends f (inb r) (run.msg r) (parts_answered r) (run.mems r)
  unfolding allreduce_schedule
  Sends-answered r h =
      (Sends-append f (inb r) (run.msg r) (parts_answered r) _ (run.mems r)
        (Sends-append f (inb r) (run.msg r)
          (copied extra adjsize r (run.buf r) (run.rbuf r) count ep) _ (run.mems r)
          (run.sends r h)).0).0

  pub Sends-out :
      (r : ℕ)
      → r < size
      → Sends f (inb r) (run.msg r) (parts_reduced r) (run.mems r)
        × Sends f
            (inb r)
            (run.msg r)
            (fold_out extra r (run.buf r) (run.rbuf r) count ep)
            (after f (inb r) (parts_reduced r) (run.mems r))
  Sends-out r h =
      Sends-append f (inb r) (run.msg r) (parts_reduced r) _ (run.mems r) (Sends-answered r h)

  Sends-in :
      (r : ℕ)
      → r < size
      → Sends f (inb r) (run.msg r) (parts_in r) (run.mems r)
        × Sends f
            (inb r)
            (run.msg r)
            (exchange_if (new_rank extra r) adjsize extra (run.buf r) (run.rbuf r) count ep)
            (after f (inb r) (parts_in r) (run.mems r))
  Sends-in r h = Sends-append f (inb r) (run.msg r) (parts_in r) _ (run.mems r) (Sends-out r h).0

  even_sends : (r : ℕ) → r < size → r < 2 * extra → r % 2 ≡ 0 → run.msg r (r + 1) ≡ x r
  even_sends r h l e =
      Sends-fold_in extra adjsize r (run.buf r) (run.rbuf r) count ep f (inb r) (run.msg r)
        (run.apart r h) (run.mems r) (Sends-in r h).0 l e
      ∙ run.given r h

  pub remote-lt : (n : ℕ) → n < pow2 log → remote_of extra n < size
  remote-lt n h = remote_of-lt extra (pow2 log) size n size-eq extra-lt h

  pub folded_in :
      (n : ℕ)
      → n < pow2 log
      → after f
          (inb (remote_of extra n))
          (parts_in (remote_of extra n))
          (run.mems (remote_of extra n))
          (run.buf (remote_of extra n))
        ≡ folded f x extra n
  folded_in n h =
      let r : ℕ = remote_of extra n in
      let (odd, high) =
        after-fold_in extra adjsize r (run.buf r) (run.rbuf r) count ep f (inb r) (run.msg r)
          (run.apart r (remote-lt n h)) (run.mems r) in
      elim (dec_lt n extra) [
        | yes l ↦
            let e : r ≡ n * 2 + 1 = remote_of-low extra n l in
            let rh = remote-lt n h in
            let back : r ≡ r - 1 + 1 = omega arith in
            let from : run.msg (r - 1) r ≡ x (r - 1) =
              ap (run.msg (r - 1)) back
              ∙ even_sends (r - 1) (omega (arith, rh)) (omega arith) (omega arith) in
            let below : r - 1 ≡ n * 2 = omega arith in
            odd (omega arith) (omega arith)
            ∙ (λ i. f (run.given r rh i) (from i))
            ∙ (λ i. f (x (e i)) (x (below i)))
            ∙ ground (arith, l)
        | no g ↦
            let e : r ≡ n + extra = remote_of-high extra n (omega arith) in
            high (omega arith) ∙ run.given r (remote-lt n h) ∙ ap x e ∙ ground (arith, g)
      ]

  exchange-Sends :
      (n : ℕ)
      → n < pow2 log
      → let r = remote_of extra n in
        Sends f
          (inb r)
          (run.msg r)
          (exchange 32 (pow2 0) (pow2 log) extra n (run.buf r) (run.rbuf r) count ep)
          (after f (inb r) (parts_in r) (run.mems r))
  unfolding exchange_if
  exchange-Sends n h =
      let r : ℕ = remote_of extra n in
      subst (λ o. Sends f (inb r) (run.msg r) o (after f (inb r) (parts_in r) (run.mems r)))
        (λ i.
          exchange_if (new_rank-remote_of extra n i) (adjsize-eq i) extra (run.buf r) (run.rbuf r)
            count ep)
        (Sends-in r (remote-lt n h)).1

  -- What the number `n` sends to its partner at the distance `pow2 k`.
  abbrev Told : ℕ → ℕ → Type 0
  Told k n =
      run.msg (remote_of extra n) (remote_of extra (bit_xor n (pow2 k)))
      ≡ held f (folded f x extra) k n

  Told-back :
      (k n : ℕ)
      → k < log
      → n < pow2 log
      → Told k (bit_xor n (pow2 k))
      → run.msg (remote_of extra (bit_xor n (pow2 k))) (remote_of extra n)
        ≡ held f (folded f x extra) k (bit_xor n (pow2 k))
  Told-back k n u h told =
      let other : ℕ = bit_xor n (pow2 k) in
      ap (λ t. run.msg (remote_of extra other) (remote_of extra t))
        (sym (bit_xor-twice log n (pow2 k) h (pow2-above k log u)))
      ∙ told

  partner-lt : (k n : ℕ) → k < log → n < pow2 log → bit_xor n (pow2 k) < pow2 log
  partner-lt k n u h = bit_xor-lt log n (pow2 k) h (pow2-above k log u)

  messages : (j k n : ℕ) → k < j → j ≤ log → n < pow2 log → Told k n
  messages zero k n u l h = absurd (omega arith)
  messages (suc j) k n u l h = elim (dec_lt k j) [
    | yes before ↦ messages j k n before (omega arith) h
    | no now ↦
        let r : ℕ = remote_of extra n in
        let at : j ≡ k = omega arith in
        exchange-sends f (inb r) (run.msg r) (folded f x extra) extra n log (run.buf r) (run.rbuf r)
          count ep (run.apart r (remote-lt n h)) 32 0 k (after f (inb r) (parts_in r) (run.mems r))
          (omega (arith, log-lt)) (omega arith) (omega arith) (folded_in n h)
          (λ i g v. Told-back i n (omega arith) h (
            messages j i (bit_xor n (pow2 i)) (omega arith) (omega arith)
              (partner-lt i n (omega arith) h)))
          (exchange-Sends n h)
  ]

  pub heard :
      (k n : ℕ)
      → k < log
      → n < pow2 log
      → run.msg (remote_of extra (bit_xor n (pow2 k))) (remote_of extra n)
        ≡ held f (folded f x extra) k (bit_xor n (pow2 k))
  heard k n u h =
      Told-back k n u h (messages log k (bit_xor n (pow2 k)) u (omega arith) (partner-lt k n u h))
