-- ===== src/Mpi/Balance.antt =====
-- Which requests of src/mpiv.c are in the pool and which a caller holds.
use lc.Base.{ℕ, zero, suc, ◌+◌, ◌<◌, ◌≡◌, ◌≢◌, refl, List, [], ◌∷◌, some, arith, length}
use lc.Dequeue.{max_size}
use lc.Pool.Conserve.{is, times, in_pool, IsPool}
use lc.Pool.Worker.{get_local-known}
use lc.Pool.Bounded.{CanPut, Within, PutInto, lc_pool_put-PutInto}
use lc.Mpi.{Mpi, Below, put_request}

-- The requests among the values of an array.
abbrev pub nonnull : List ℕ → List ℕ
nonnull [] = []
nonnull (zero ∷ rs) = nonnull rs
nonnull (suc r ∷ rs) = suc r ∷ nonnull rs

-- Of the requests `all`, which a deque has room for, `held x` are held outside and the others are
-- in the pool.
pub record Balanced (all : List ℕ) (held : ℕ → ℕ) (s : Mpi) : Type 0 where
  pub valid : IsPool s.pools
  pub balance : (x : ℕ) → in_pool x s.pools + held x ≡ times x all
  pub fits : length all + 1 < max_size

-- The count and the calls may be written otherwise.
pub Balanced-same :
    (all : List ℕ) (f g : ℕ → ℕ) (s : Mpi) (calls : List Below)
    → ((x : ℕ) → f x ≡ g x)
    → Balanced all f s
    → Balanced all g (record s { calls = calls })
Balanced-same all f g s calls e b = record {
  valid = b.valid;
  balance = λ x. omega (arith, b.balance x, e x);
  fits = b.fits;
}

-- A request that is put back: the call returns and asks nothing of the layer below.
pub record PutBack (all : List ℕ) (held : ℕ → ℕ) (wid r : ℕ) (s : Mpi) : Type 0 where
  pub after : Mpi
  pub returned : put_request s wid r ≡ some after
  pub balanced : Balanced all held after
  pub calls : after.calls ≡ s.calls
  pub can : CanPut after.pools wid

pub put_request-eq :
    (s : Mpi) (wid r : ℕ) (p : PutInto s.pools wid r)
    → put_request s wid r ≡ some (record s { pools = p.pools })
unfolding put_request
put_request-eq s wid r p = rw (p.returned, put_request) refl

pub put_request-PutBack :
    (all : List ℕ) (held held' : ℕ → ℕ) (wid r : ℕ) (s : Mpi)
    → Balanced all held s
    → CanPut s.pools wid
    → r ≢ 0
    → ((x : ℕ) → held x ≡ is x r + held' x)
    → PutBack all held' wid r s
put_request-PutBack all held held' wid r s b can n split =
    let w : Within all s.pools = record {
      valid = b.valid;
      part = λ x. omega (arith, b.balance x);
      fits = b.fits;
    } in
    let p = lc_pool_put-PutInto all s.pools wid r w can n in
    record {
      after = record s { pools = p.pools };
      returned = put_request-eq s wid r p;
      balanced = record {
        valid = p.valid;
        balance = λ x. omega (arith, b.balance x, p.count x, split x);
        fits = b.fits;
      };
      calls = refl;
      can = (p.pid, p.pools, get_local-known p.pools wid p.pid p.has.0 p.valid.key p.has.1);
    }
