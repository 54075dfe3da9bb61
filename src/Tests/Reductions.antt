-- ===== src/Tests/Reductions.antt =====
-- An allreduce of three processes with the values 5, 6 and 7, summed up.
use lc.Base.{ℕ, zero, suc, ◌+◌, ◌≡◌, ◌<◌, refl, arith, List, [], ◌∷◌, true, false, inr, length}
use lc.Coll.{
  allreduce_schedule, barrier_schedule, bcast_schedule, bcast_sends, fold_in, fold_out, exchange,
  exchange_if, new_rank, remote_of, next_poweroftwo, bit_length,
}
use lc.Coll.Value.{after, effect, Sends}
use lc.Coll.Value.Blocks.{over}
use lc.Coll.Value.Allreduce.{allreduce-total}
use lc.Coll.Value.Broadcast.{bcast-spreads}
use lc.Coll.Wait.{Turn, complete, Done, AllTake, lc_alreduce, lc_barrier, lc_bcast, blocking-Done}
use lc.Tests.Collectives.{blank, late, late-taken}

abbrev value : ℕ → ℕ
value r = r + 5

-- Rank 0 is folded into rank 1, which exchanges with rank 2.
abbrev msg : ℕ → ℕ → ℕ
msg zero to = 5
msg (suc zero) zero = 18
msg (suc zero) (suc to) = 11
msg (suc (suc r)) to = 7

sends :
    (r : ℕ)
    → r < 3
    → Sends
        (λ a b. a + b)
        (λ s. msg s r)
        (msg r)
        (allreduce_schedule r 3 700 800 8 2)
        (λ addr. value r)
unfolding allreduce_schedule fold_in fold_out exchange exchange_if new_rank remote_of
    next_poweroftwo bit_length effect
sends zero h = (refl, (tt, (tt, tt)))
sends (suc zero) h = (tt, (tt, (refl, (tt, (refl, (tt, (tt, tt)))))))
sends (suc (suc zero)) h = (refl, (tt, (tt, (tt, tt))))
sends (suc (suc (suc r))) h = absurd (omega arith)

allreduce-total_example :
    after (λ a b. a + b) (λ s. msg s 0) (allreduce_schedule 0 3 700 800 8 2) (λ addr. value 0) 800
    ≡ over (λ a b. a + b) value 0 2
allreduce-total_example =
    allreduce-total (λ a b. a + b) (λ a b c. omega arith) (λ a b. omega arith) msg value
      (λ r addr. value r) (λ _. 700) (λ _. 800) 3 8 2 (omega arith) (omega arith)
      (λ r h e. omega (arith, e)) (λ r h. refl) sends 0 (omega arith)

sum_up : over (λ a b. a + b) value 0 2 ≡ 18
sum_up = refl

-- Rank 1 broadcasts; in the end rank 2 has its value.
spread : Sends (λ a b. a + b) (λ s. 6) (λ to. 6) (bcast_schedule 1 3 700 8 1 2) (λ addr. value 1)
unfolding bcast_schedule bcast_sends effect
spread = (refl, (refl, tt))

bcast-spreads_example :
    after (λ a b. a + b) (λ s. 6) (bcast_schedule 2 3 700 8 1 2) (λ addr. value 2) 700 ≡ 6
bcast-spreads_example =
    bcast-spreads (λ a b. a + b) (λ s to. 6) (λ r addr. value r) (λ _. 700) 3 8 1 2 (omega arith)
      spread 2 (omega arith)

-- Before every second call what is pending has been signalled.
abbrev halting : ℕ → List Turn
halting zero = []
halting (suc n) =
    record { sent = true; got = false; answers = late }
    ∷ record { sent = true; got = true; answers = late }
    ∷ halting n

short :
    (length (allreduce_schedule 1 3 800 700 8 2) < complete (halting 8))
    × (length (barrier_schedule 32 1 3 1 640 2) < complete (halting 8))
    × (length (bcast_schedule 1 3 800 8 1 2) < complete (halting 8))
unfolding allreduce_schedule fold_in fold_out exchange exchange_if new_rank remote_of
    next_poweroftwo bit_length barrier_schedule bcast_schedule bcast_sends
short = (omega arith, omega arith, omega arith)

halting-take : (n : ℕ) → AllTake (halting n)
halting-take zero = tt
halting-take (suc n) = (late-taken, (late-taken, halting-take n))

blocking-Done_example :
    Done
      (allreduce_schedule 1 3 800 700 8 2)
      (lc_alreduce (halting 8) late 1 3 600 700 800 8 2 blank).1
    × Done (barrier_schedule 32 1 3 1 640 2) (lc_barrier (halting 8) late 1 3 2 blank)
    × Done (bcast_schedule 1 3 800 8 1 2) (lc_bcast (halting 8) late 1 3 800 8 1 2 blank)
blocking-Done_example =
    blocking-Done (halting 8) late 1 3 600 700 800 8 1 2 blank late-taken (halting-take 8)
      (omega arith) (omega arith) (omega arith) (inr (omega arith)) short.0 short.1 short.2
