-- ===== src/Mpi/Runs.antt =====
-- Runs of the calls of src/mpiv.c after MPI_Init, in any order and by any workers.
use lc.Base.{
  ℕ, zero, suc, ◌+◌, ◌*◌, ◌^◌, ◌≤◌, ◌<◌, ◌≡◌, sym, ap, ◌∙◌, List, [], ◌∷◌, Option, none, some, Bool,
  false, arith, length,
}
use mathlib.Core.Path.{subst}
use mathlib.Core.Option.{some-injective}
use lc.Pool.{max_npools, max_local_pool}
use lc.Pool.Conserve.{times, in_pool, IsPool}
use lc.Pool.Bounded.{CanPut}
use lc.Mpi.{
  Mpi, num_requests, send_tag, recv_tag, size_of, mpi_send, mpi_recv, mpi_isend, mpi_irecv,
  mpi_waitall, mpi_init,
}
use lc.Mpi.Balance.{nonnull, Balanced}
use lc.Mpi.Waitall.{waitall-Waited}
use lc.Mpi.Start.{requests, mpi_init-Balanced, requests-once}
use lc.Mpi.Taken.{held_with, until_taken-pools, then_wait-pools, with_request-Balanced}

-- The values of the callers' requests, and the state. A call of MPI_Waitall is on requests that are
-- held, each once, in an array of fewer than 2^31 entries.
pub data Steps (s0 : Mpi) : List ℕ → Mpi → Type 0 where
  start : Steps s0 [] s0
  send :
      {held : List ℕ} {s s' : Mpi}
      → Steps s0 held s
      → (buf count datatype rank tag ctx : ℕ) (answers : List Bool)
      → mpi_send s buf count datatype rank tag ctx answers ≡ some s'
      → Steps s0 held s'
  recv :
      {held : List ℕ} {s s' : Mpi}
      → Steps s0 held s
      → (buf count datatype rank tag ctx : ℕ) (answers : List Bool)
      → mpi_recv s buf count datatype rank tag ctx answers ≡ some s'
      → Steps s0 held s'
  isend :
      {held : List ℕ} {s s' : Mpi} {req : ℕ}
      → Steps s0 held s
      → (wid buf count datatype rank tag : ℕ) (rands : List ℕ) (answers : List Bool) (done : Bool)
      → mpi_isend s wid rands buf count datatype rank tag answers done ≡ some (req, s')
      → Steps s0 (req ∷ held) s'
  irecv :
      {held : List ℕ} {s s' : Mpi} {req : ℕ}
      → Steps s0 held s
      → (wid buf count datatype rank tag : ℕ) (rands : List ℕ) (answers : List Bool)
      → mpi_irecv s wid rands buf count datatype rank tag answers ≡ some (req, s')
      → Steps s0 (req ∷ held) s'
  waitall :
      {held rest : List ℕ} {s s' : Mpi}
      → Steps s0 held s
      → (wid : ℕ) (oks : ℕ → Bool) (reqs reqs' : List ℕ) (count : ℕ)
      → ((x : ℕ) → times x (nonnull held) ≡ times x (nonnull reqs) + times x (nonnull rest))
      → length reqs < 2 ^ 31
      → CanPut s.pools wid
      → mpi_waitall wid oks reqs (length reqs) s ≡ some (reqs', count, s')
      → Steps s0 rest s'

-- A state with the same pool.
same_pools :
    (all : List ℕ) (held : ℕ → ℕ) (s s' : Mpi)
    → s'.pools ≡ s.pools
    → Balanced all held s
    → Balanced all held s'
same_pools all held s s' e b = record {
  valid = subst IsPool (sym e) b.valid;
  balance = λ x. ap (λ p. in_pool x p + held x) e ∙ b.balance x;
  fits = b.fits;
}

one_more :
    (all : List ℕ) (req : ℕ) (held : List ℕ) (s : Mpi)
    → Balanced all (held_with req (λ x. times x (nonnull held))) s
    → Balanced all (λ x. times x (nonnull (req ∷ held))) s
one_more all zero held s b = record {
  valid = b.valid;
  balance = λ x. omega (arith, b.balance x);
  fits = b.fits;
}
one_more all (suc r) held s b = record {
  valid = b.valid;
  balance = λ x. omega (arith, b.balance x);
  fits = b.fits;
}

Steps-Balanced :
    {all : List ℕ} {s0 s : Mpi} {held : List ℕ}
    → Balanced all (λ x. 0) s0
    → Steps s0 held s
    → Balanced all (λ x. times x (nonnull held)) s
unfolding mpi_send mpi_recv mpi_isend mpi_irecv
Steps-Balanced b start = b
Steps-Balanced {all = all} b (send {held} {s} {s'} r buf count datatype rank tag ctx answers e) =
    let c = send_tag buf (size_of datatype count) rank tag ctx in
    same_pools all (λ x. times x (nonnull held)) s s'
      (then_wait-pools ctx _ s (λ t. until_taken-pools c answers s t) s' e) (Steps-Balanced b r)
Steps-Balanced {all = all} b (recv {held} {s} {s'} r buf count datatype rank tag ctx answers e) =
    let c = recv_tag buf (size_of datatype count) rank tag ctx in
    same_pools all (λ x. times x (nonnull held)) s s'
      (then_wait-pools ctx _ s (λ t. until_taken-pools c answers s t) s' e) (Steps-Balanced b r)
Steps-Balanced {all = all} b
      (isend {held} {s} {s'} {req} r wid buf count datatype rank tag rands answers done e) =
    one_more all req held s' (
      with_request-Balanced all (λ x. times x (nonnull held)) wid done
        (send_tag buf (size_of datatype count) rank tag) answers rands s s' req (Steps-Balanced b r)
        e)
Steps-Balanced {all = all} b
      (irecv {held} {s} {s'} {req} r wid buf count datatype rank tag rands answers e) =
    one_more all req held s' (
      with_request-Balanced all (λ x. times x (nonnull held)) wid false
        (recv_tag buf (size_of datatype count) rank tag) answers rands s s' req (Steps-Balanced b r)
        e)
Steps-Balanced {all = all} b
      (waitall {held} {rest} {s} {s'} r wid oks reqs reqs' count split short can e) =
    let h = Steps-Balanced b r in
    let before : Balanced all (λ x. times x (nonnull reqs) + times x (nonnull rest)) s = record {
      valid = h.valid;
      balance = λ x. omega (arith, h.balance x, split x);
      fits = h.fits;
    } in
    let w = waitall-Waited all (λ x. times x (nonnull rest)) wid oks reqs s before can short in
    subst (λ (t : List ℕ × ℕ × Mpi). Balanced all (λ x. times x (nonnull rest)) t.2)
      (some-injective _ _ (sym w.returned ∙ e)) w.balanced

-- After MPI_Init by a worker below 272, with a pool key below 32 under which no worker has a deque
-- and requests between the addresses 0 and 2^64: in any run of the calls by any workers, where
-- MPI_Waitall is called on requests that are held, in arrays of fewer than 2^31 entries and by
-- workers that have a deque or can get one, each of the 1024 requests is either in the pool or held
-- by one caller, once, and nothing else is.
pub Steps-conserves :
    (wid ctxs size nkey next : ℕ) (tls : ℕ → ℕ → Option ℕ) {s0 s : Mpi} {held : List ℕ}
    → wid < max_npools
    → nkey < max_local_pool
    → ((other : ℕ) → tls other nkey ≡ none)
    → 0 < ctxs
    → 0 < size
    → ctxs + num_requests * size < 2 ^ 64
    → mpi_init wid ctxs size nkey tls ≡ some (next, s0)
    → Steps s0 held s
    → (x : ℕ)
    → (in_pool x s.pools + times x (nonnull held) ≡ times x (requests ctxs size 0 num_requests))
      × (times x (requests ctxs size 0 num_requests) ≤ 1)
Steps-conserves wid ctxs size nkey next tls hw hk new real pos fits e r x =
    let (s1, returned, b, _) = mpi_init-Balanced wid ctxs size real fits nkey tls hw new hk in
    let b0 =
      subst (λ (t : ℕ × Mpi). Balanced (requests ctxs size 0 num_requests) (λ x. 0) t.1)
        (some-injective _ _ (sym returned ∙ e)) b in
    (
      (Steps-Balanced b0 r).balance x,
      requests-once wid ctxs size real fits pos num_requests 0 x (omega arith),
    )
