-- ===== src/Tests/Requests.antt =====
-- 1024 requests of 32 bytes from 64 on, by worker 3: a send of 5 ints. Then a pool of two requests,
-- of which a caller holds 128.
use lc.Base.{
  ℕ, ◌+◌, ◌<◌, ◌≤◌, ◌≡◌, ◌≢◌, [], ◌∷◌, ◌++◌, Option, none, some, true, false, refl, arith,
}
use lc.Pool.Conserve.{times, in_pool}
use lc.Pool.Worker.{get_local-known}
use lc.Pool.Bounded.{CanPut}
use lc.Mpi.{Mpi, send_tag, size_of, num_requests, mpi_init, mpi_isend, mpi_waitall}
use lc.Mpi.Balance.{nonnull, Balanced}
use lc.Mpi.Start.{requests, mpi_init-Balanced}
use lc.Mpi.Taken.{held_with}
use lc.Mpi.Waitall.{Waited, waitall-Waited}
use lc.Mpi.Sent.{tries, answers, isend-Sent}
use lc.Mpi.Runs.{Steps, start, isend, Steps-conserves}
use lc.Tests.Pools as PoolTests

abbrev tls : ℕ → ℕ → Option ℕ
tls wid key = none

ready :
    (s : Mpi) × (mpi_init 3 64 32 2 tls ≡ some (3, s))
    × Balanced (requests 64 32 0 num_requests) (λ x. 0) s
    × CanPut s.pools 3
ready =
    mpi_init-Balanced 3 64 32 (omega arith) (omega arith) 2 tls (omega arith) (λ other. refl)
      (omega arith)

first_free : 0 < in_pool 64 ready.0.pools
unfolding requests
first_free = omega (arith, ready.2.balance 64)

-- The first send in that state, taken at the second attempt and not done.
sent :
    (rand : ℕ) × (ctx : ℕ) × (s' : Mpi) × (mpi_isend ready.0 3
        (rand ∷ [])
        500
        5
        4
        1
        9
        (answers 1)
        false
      ≡ some (ctx, s'))
    × (ctx ≢ 0)
    × (s'.calls ≡ ready.0.calls ++ tries (send_tag 500 (size_of 4 5) 1 9 ctx) 1)
    × Balanced (requests 64 32 0 num_requests) (held_with ctx (λ x. 0)) s'
sent =
    isend-Sent (requests 64 32 0 num_requests) (λ x. 0) ready.0 3 64 1 500 5 4 1 9 false ready.2
      ready.3 first_free

run : Steps ready.0 (sent.1 ∷ []) sent.2
run = isend start 3 500 5 4 1 9 (sent.0 ∷ []) (answers 1) false sent.3

Steps-conserves_example :
    (in_pool 64 sent.2.pools + times 64 (nonnull (sent.1 ∷ []))
      ≡ times 64 (requests 64 32 0 num_requests))
    × (times 64 (requests 64 32 0 num_requests) ≤ 1)
Steps-conserves_example =
    Steps-conserves 3 64 32 2 3 tls (omega arith) (omega arith) (λ other. refl) (omega arith)
      (omega arith) (omega arith) ready.1 run 64

abbrev holding : Mpi
holding = record { pools = PoolTests.pools; calls = [] }

holding-Balanced : Balanced (64 ∷ 128 ∷ []) (λ x. times x (nonnull (128 ∷ 0 ∷ [])) + 0) holding
holding-Balanced = record {
  valid = PoolTests.pools-IsPool;
  balance = λ x. omega arith;
  fits = omega arith;
}

holding-CanPut : CanPut holding.pools 3
holding-CanPut =
    (0, holding.pools, get_local-known holding.pools 3 0 (omega arith) (omega arith) refl)

waitall-Waited_example :
    Waited
      (64 ∷ 128 ∷ [])
      (λ x. 0)
      3
      (λ i. false)
      (128 ∷ 0 ∷ [])
      holding
      (mpi_waitall 3 (λ i. false) (128 ∷ 0 ∷ []) 2 holding)
waitall-Waited_example =
    waitall-Waited (64 ∷ 128 ∷ []) (λ x. 0) 3 (λ i. false) (128 ∷ 0 ∷ []) holding holding-Balanced
      holding-CanPut (omega arith)

isend-Sent_example :
    (rand : ℕ) × (ctx : ℕ) × (s' : Mpi) × (mpi_isend holding 3
        (rand ∷ [])
        500
        5
        4
        1
        9
        (answers 2)
        true
      ≡ some (0, s'))
    × (ctx ≢ 0)
    × (s'.calls ≡ holding.calls ++ tries (send_tag 500 (size_of 4 5) 1 9 ctx) 2)
    × Balanced (64 ∷ 128 ∷ []) (held_with 0 (λ x. times x (nonnull (128 ∷ 0 ∷ [])) + 0)) s'
isend-Sent_example =
    isend-Sent (64 ∷ 128 ∷ []) (λ x. times x (nonnull (128 ∷ 0 ∷ [])) + 0) holding 3 64 2 500 5 4 1
      9 true holding-Balanced holding-CanPut (omega arith)
