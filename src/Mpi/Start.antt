-- ===== src/Mpi/Start.antt =====
-- MPI_Init of src/mpiv.c: the requests of the pool.
use lc.Base.{
  ℕ, zero, suc, ◌+◌, ◌*◌, ◌^◌, ◌≤◌, ◌<◌, ◌≡◌, refl, sym, ap, ◌∙◌, List, [], ◌∷◌, ◌++◌, Option, none,
  some, arith, length, length-append, append_assoc, append-nil, ◌==◌, Bool-cases, inl, inr,
}
use mathlib.Core.Path.{subst}
use mathlib.Core.Option.{none-ne-some}
use native.Mathlib.Nat.{mul-le-mul_right}
use lc.Pool.{max_npools, max_local_pool, add_local}
use lc.Pool.Conserve.{times, times-append}
use lc.Pool.Worker.{get_local-known, get_local-new, create_lem}
use lc.Pool.Bounded.{CanPut, Within, lc_pool_put-PutInto}
use lc.Mpi.{Mpi, num_requests, request_at, put_request, put_requests, into_pool, mpi_init}
use lc.Mpi.Balance.{Balanced, put_request-eq}

-- The requests from number `i` on.
unfoldable pub requests : ℕ → ℕ → ℕ → ℕ → List ℕ
requests ctxs size i zero = []
requests ctxs size i (suc n) = request_at ctxs size i ∷ requests ctxs size (i + 1) n

-- What the loop leaves: the requests `all` are in the pool.
record Filled (all : List ℕ) (wid : ℕ) (o : Option Mpi) : Type 0 where
  pub after : Mpi
  pub returned : o ≡ some after
  pub balanced : Balanced all (λ x. 0) after
  pub can : CanPut after.pools wid

module _ (wid ctxs size : ℕ) (real : 0 < ctxs) (fits : ctxs + num_requests * size < 2 ^ 64) where
  put-step :
      (n i : ℕ) (s s' : Mpi)
      → put_request s wid (request_at ctxs size i) ≡ some s'
      → put_requests wid ctxs size (suc n) i s ≡ put_requests wid ctxs size n (i + 1) s'
  unfolding put_requests
  put-step n i s s' e = rw (e, put_requests) refl

  number-lem : (i : ℕ) → i < num_requests → request_at ctxs size i ≡ ctxs + i * size
  number-lem i h =
      omega (arith, fits, mul-le-mul_right {m = i} {n = num_requests} size (omega arith))

  put_requests-Filled :
      (n i : ℕ) (s : Mpi) (all : List ℕ)
      → i + n ≤ num_requests
      → length all ≤ i
      → Balanced all (λ x. 0) s
      → CanPut s.pools wid
      → Filled (all ++ requests ctxs size i n) wid (put_requests wid ctxs size n i s)
  unfolding put_requests requests
  put_requests-Filled zero i s all h len b can = record {
    after = s;
    returned = refl;
    balanced = subst (λ l. Balanced l (λ x. 0) s) (sym (append-nil all)) b;
    can = can;
  }
  put_requests-Filled (suc n) i s all h len b can =
      let r = request_at ctxs size i in
      let w : Within all s.pools = record {
        valid = b.valid;
        part = λ x. omega (arith, b.balance x);
        fits = b.fits;
      } in
      let p =
        lc_pool_put-PutInto all s.pools wid r w can
          (λ e. omega (arith, e, number-lem i (omega arith), real)) in
      let s1 : Mpi = record s { pools = p.pools } in
      let b1 : Balanced (all ++ r ∷ []) (λ x. 0) s1 = record {
        valid = p.valid;
        balance = λ x. omega (arith, b.balance x, p.count x, times-append x r all);
        fits = omega (arith, length-append all (r ∷ []));
      } in
      let rest =
        put_requests-Filled n (i + 1) s1 (all ++ r ∷ []) (omega arith)
          (omega (arith, length-append all (r ∷ []))) b1
          (p.pid, p.pools, get_local-known p.pools wid p.pid p.has.0 p.valid.key p.has.1) in
      record {
        after = rest.after;
        returned = put-step n i s s1 (put_request-eq s wid r p) ∙ rest.returned;
        balanced =
            subst (λ l. Balanced l (λ x. 0) rest.after)
              (append_assoc all (r ∷ []) (requests ctxs size (i + 1) n)) rest.balanced;
        can = rest.can;
      }

  -- The pool before: it has no deque, nor has any worker one under its key.
  module _ (nkey : ℕ) (tls : ℕ → ℕ → Option ℕ) (worker : wid < max_npools)
      (new : (other : ℕ) → tls other nkey ≡ none) (in_row : nkey < max_local_pool) where
    abbrev first : Mpi
    first = record {
      pools = record { pool = record { key = nkey; npools = 0; lpools = λ _. none }; tls = tls };
      calls = [];
    }

    first-Balanced : Balanced [] (λ x. 0) first
    first-Balanced = record {
      valid = record {
        key = in_row;
        deque = λ i h. absurd (omega (arith, h));
        local = λ other pid e. absurd (none-ne-some _ (sym (new other) ∙ e));
      };
      balance = λ x. omega arith;
      fits = omega arith;
    }

    first-CanPut : CanPut first.pools wid
    first-CanPut = (
      (add_local first.pools wid).0,
      (add_local first.pools wid).1,
      get_local-new first.pools wid worker in_row (new wid),
    )

    -- MPI_Init, for a worker below 272 and a pool key below 32 under which no worker has a deque,
    -- and requests that lie between the addresses 0 and 2^64: it returns, and the 1024 requests are
    -- in the pool.
    pub mpi_init-Balanced :
        (s : Mpi) × (mpi_init wid ctxs size nkey tls ≡ some (nkey + 1, s))
        × Balanced (requests ctxs size 0 num_requests) (λ x. 0) s
        × CanPut s.pools wid
    unfolding mpi_init
    mpi_init-Balanced =
        let filled =
          put_requests-Filled num_requests 0 first [] (omega arith) (omega arith) first-Balanced
            first-CanPut in
        (
          filled.after,
          ap (into_pool wid ctxs size tls) (create_lem nkey (omega arith))
              ∙ ap (λ o. elim o [ none ↦ none | some t ↦ some (nkey + 1, t) ]) filled.returned,
          filled.balanced,
          filled.can,
        )

  -- No request is in the array twice.
  requests-below :
      (n i x : ℕ)
      → i + n ≤ num_requests
      → x < ctxs + i * size
      → times x (requests ctxs size i n) ≡ 0
  unfolding requests
  requests-below zero i x h lt = refl
  requests-below (suc n) i x h lt =
      let next : (i + 1) * size ≡ i * size + size = omega arith in
      ground (
        arith,
        number-lem i (omega arith),
        requests-below n (i + 1) x (omega arith) (omega (arith, lt, next)),
      )

  pub requests-once :
      0 < size → (n i x : ℕ) → i + n ≤ num_requests → times x (requests ctxs size i n) ≤ 1
  unfolding requests
  requests-once pos zero i x h = omega arith
  requests-once pos (suc n) i x h = elim (Bool-cases (x == request_at ctxs size i)) [
    | inl e ↦
        let next : (i + 1) * size ≡ i * size + size = omega arith in
        let at : x ≡ ctxs + i * size = ground (arith, e, number-lem i (omega arith)) in
        ground (arith, e, requests-below n (i + 1) x (omega arith) (omega (arith, at, next, pos)))
    | inr e ↦ ground (arith, e, requests-once pos n (i + 1) x (omega arith))
  ]
