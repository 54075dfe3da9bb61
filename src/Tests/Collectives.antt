-- ===== src/Tests/Collectives.antt =====
-- Collectives of six processes, where two of them stay out of the exchange.
use lc.Base.{
  ℕ, zero, suc, ◌-◌, ◌/◌, ◌≡◌, ◌≢◌, ◌≤◌, ◌<◌, refl, [], ◌∷◌, none, some, true, false, arith,
}
use lc.Coll.{
  send, recv, ColReq, Answers, colreq_init, col_add_all, lc_col_progress, col_loop, turn, run_sched,
  lc_safe, next_poweroftwo, bit_length, new_rank, barrier_schedule, bcast_schedule,
}
use lc.Coll.Schedule.{entries}
use lc.Coll.Fits.{IsReady, bcast-limit}
use lc.Coll.Turns.{InOrder}
use lc.Coll.Ends.{Progressed}
use lc.Coll.Progress.{
  lc_col_progress-Progressed, progress, signal0, Steps, no_step, then_step, Steps-InOrder,
}
use lc.Coll.Barrier.{Heard, rounds, barrier-Heard}

abbrev pub blank : ColReq
blank = record {
  flag = 0;
  cur = 0;
  total = 0;
  sync0 = 1;
  sync1 = 1;
  next = λ _. send 0 0 0 0 0;
  empty = 640;
  done = [];
}

bcast-limit_example :
    let l = bcast_schedule 1 6 500 4 1 2 in
    (6 ≤ 129 → IsReady l (col_add_all (colreq_init blank) l))
    × (129 < 6 → col_add_all (colreq_init blank) l ≡ none)
bcast-limit_example = bcast-limit blank 1 6 500 4 2 (omega arith)

-- Rank 3 of 6 has the number 1 in the exchange.
numbered : new_rank (6 - next_poweroftwo 6 / 2) 3 ≡ some 1
unfolding new_rank next_poweroftwo bit_length
numbered = refl

four : next_poweroftwo 6 / 2 ≡ 4
unfolding next_poweroftwo bit_length
four = refl

barrier-Heard_example :
    (m : ℕ) × (barrier_schedule 32 1 6 1 640 2 ≡ rounds m 6 1 640 2)
    × ((s : ℕ) → s < 6 → Heard 6 m 1 s)
barrier-Heard_example = barrier-Heard 6 1 640 2 (omega arith) (omega arith)

-- Two entries; the receive is left pending.
abbrev two_entries : ColReq
two_entries = record blank {
  total = 2;
  next = λ i. elim i [ zero ↦ send 500 4 1 1342 2 | suc _ ↦ recv 500 4 1 1342 2 ];
}

abbrev pub late : Answers
late _ = record { sends = false ∷ true ∷ []; sent = true; got = false }

two_entries-InOrder : InOrder two_entries
two_entries-InOrder = record { bounded = omega arith; ran = refl; flagged = λ f. absurd (f refl) }

pub late-taken : (i : ℕ) → lc_safe (late i).sends ≡ true
unfolding lc_safe
late-taken i = refl

lc_col_progress-Progressed_example : Progressed late two_entries (lc_col_progress late two_entries)
lc_col_progress-Progressed_example =
    lc_col_progress-Progressed late two_entries two_entries-InOrder refl (λ i _ _ _. late-taken i)

abbrev stopped : ColReq
stopped = record two_entries {
  cur = 2;
  sync0 = 0;
  done = send 500 4 1 1342 2 ∷ recv 500 4 1 1342 2 ∷ [];
}

ran : lc_col_progress late two_entries ≡ some stopped
unfolding lc_col_progress col_loop turn run_sched lc_safe
ran = refl

abbrev signalled : ColReq
signalled = record stopped { sync0 = 1 }

abbrev flagged : ColReq
flagged = record signalled { flag = 1 }

ran_on : lc_col_progress late signalled ≡ some flagged
unfolding lc_col_progress col_loop
ran_on = refl

steps : Steps two_entries flagged
steps = then_step (then_step (then_step no_step (progress late ran)) signal0) (progress late ran_on)

Steps-InOrder_example :
    (flagged.done ≡ entries two_entries.next 2)
    × (flagged.flag ≢ 0 → flagged.done ≡ entries two_entries.next 2)
Steps-InOrder_example = Steps-InOrder two_entries-InOrder steps
