-- ===== src/Coll/Fits.antt =====
-- The schedules of src/coll/ against the 128 entries of a request.
use lc.Base.{
  ℕ, zero, suc, ◌+◌, ◌^◌, ◌≤◌, ◌<◌, ◌≡◌, ◌≢◌, ◌⊎◌, inl, inr, Bool-cases, ◌==◌, refl, List, [],
  Option, none, some, arith, ==_refl, length,
}
use mathlib.Core.Path.{subst}
use lc.Coll.{
  Sched, ColReq, max_sched, colreq_init, col_add_all, allreduce_schedule, barrier_schedule,
  bcast_sends, bcast_schedule,
}
use lc.Coll.Schedule.{
  entries, Written, col_add_all-Written, length-allreduce_schedule, length-barrier_schedule,
}

-- A request that is ready to be worked off: it holds just these entries and none has run.
pub record IsReady (l : List Sched) (o : Option ColReq) : Type 0 where
  pub req : ColReq
  pub written : o ≡ some req
  pub held : entries req.next req.total ≡ l
  pub total : req.total ≡ length l
  pub cur : req.cur ≡ 0
  pub flag : req.flag ≡ 0
  pub sync0 : req.sync0 ≡ 1
  pub sync1 : req.sync1 ≡ 1
  pub done : req.done ≡ []

ready :
    (req : ColReq) (l : List Sched) (o : Option ColReq)
    → length l ≤ max_sched
    → Written (colreq_init req) l o
    → IsReady l o
unfolding colreq_init
ready req l none h w = absurd (omega arith)
ready req l (some r) h (a, b, c, d, e, f, g, i) = record {
  req = r;
  written = refl;
  held = c;
  total = omega (arith, b);
  cur = d;
  flag = e;
  sync0 = f;
  sync1 = g;
  done = i;
}

fits :
    (req : ColReq) (l : List Sched)
    → length l ≤ max_sched
    → IsReady l (col_add_all (colreq_init req) l)
fits req l h =
    ready req l (col_add_all (colreq_init req) l) h
      (col_add_all-Written l (colreq_init req) (start req))
  where
    start : (req : ColReq) → (colreq_init req).total ≤ max_sched
    start req = unfold colreq_init in omega arith

overflow :
    (req : ColReq) (l : List Sched) (o : Option ColReq)
    → max_sched < length l
    → Written (colreq_init req) l o
    → o ≡ none
unfolding colreq_init
overflow req l none h w = refl
overflow req l (some r) h w = absurd (omega (arith, w.0))

-- For up to 2^31 - 1 processes the schedule of an allreduce is written within the request, on
-- every rank.
pub allreduce-IsReady :
    (req : ColReq) (rank size buf rbuf count ep : ℕ)
    → 0 < size
    → size < 2 ^ 31
    → let l = allreduce_schedule rank size buf rbuf count ep in
      IsReady l (col_add_all (colreq_init req) l)
allreduce-IsReady req rank size buf rbuf count ep h b =
    fits req (allreduce_schedule rank size buf rbuf count ep)
      (omega (arith, length-allreduce_schedule rank size buf rbuf count ep h b))

-- So is the schedule of a barrier.
pub barrier-IsReady :
    (req : ColReq) (rank size ep : ℕ)
    → size < 2 ^ 31
    → let l = barrier_schedule 32 1 size rank req.empty ep in
      IsReady l (col_add_all (colreq_init req) l)
barrier-IsReady req rank size ep b = fits req (barrier_schedule 32 1 size rank req.empty ep) (
    omega (
      arith,
      length-barrier_schedule 32 1 31 size rank req.empty ep (omega arith) (omega arith)
          (omega arith),
    ))

-- The root of a broadcast sends once to each of the ranks `i` to `i + n - 1` but itself.
length-bcast_sends :
    (n i rank buf count ep : ℕ)
    → (i ≤ rank → rank < i + n → length (bcast_sends n i rank buf count ep) + 1 ≡ n)
      × (rank < i → length (bcast_sends n i rank buf count ep) ≡ n)
unfolding bcast_sends
length-bcast_sends zero i rank buf count ep = (λ a b. absurd (omega arith), λ a. refl)
length-bcast_sends (suc n) i rank buf count ep =
    let (inside, past) = length-bcast_sends n (i + 1) rank buf count ep in
    (λ a b. ground (arith, inside, past), λ a. ground (arith, past))

length-bcast_root :
    (rank size buf count ep : ℕ)
    → rank < size
    → length (bcast_schedule rank size buf count rank ep) + 1 ≡ size
unfolding bcast_schedule
length-bcast_root rank size buf count ep h =
    rw (==_refl rank) ((length-bcast_sends size 0 rank buf count ep).0 (omega arith) (omega arith))

-- At the root a broadcast fits for up to 129 processes; for more, one of its entries is written
-- past the end of the array.
pub bcast-limit :
    (req : ColReq) (rank size buf count ep : ℕ)
    → rank < size
    → let l = bcast_schedule rank size buf count rank ep in
      (size ≤ 129 → IsReady l (col_add_all (colreq_init req) l))
      × (129 < size → col_add_all (colreq_init req) l ≡ none)
bcast-limit req rank size buf count ep h =
    let l : List Sched = bcast_schedule rank size buf count rank ep in
    let n = length-bcast_root rank size buf count ep h in
    (
      λ small. fits req l (omega arith),
      λ large.
          overflow req l (col_add_all (colreq_init req) l) (omega arith)
            (col_add_all-Written l (colreq_init req) (unfold colreq_init in omega arith)),
    )

length-bcast_other :
    (rank size buf count root ep : ℕ)
    → rank ≢ root
    → length (bcast_schedule rank size buf count root ep) ≡ 1
unfolding bcast_schedule
length-bcast_other rank size buf count root ep h = ground (arith, h)

-- A broadcast's schedule fits at another rank than the root, and at the root up to 129 processes.
pub bcast-IsReady :
    (req : ColReq) (rank size buf count root ep : ℕ)
    → rank < size
    → (rank ≢ root) ⊎ (size ≤ 129)
    → let l = bcast_schedule rank size buf count root ep in
      IsReady l (col_add_all (colreq_init req) l)
bcast-IsReady req rank size buf count root ep h o = elim (Bool-cases (rank == root)) [
  | inr different ↦
      let other : rank ≢ root = ground (arith, different) in
      fits req (bcast_schedule rank size buf count root ep)
        (omega (arith, length-bcast_other rank size buf count root ep other))
  | inl same ↦
      let at : rank ≡ root = ground (arith, same) in
      subst
        (λ t.
          let l = bcast_schedule rank size buf count t ep in
          IsReady l (col_add_all (colreq_init req) l))
        at
        ((bcast-limit req rank size buf count ep h).0
          (elim o [ inl other ↦ absurd (other at) | inr few ↦ few ]))
]
