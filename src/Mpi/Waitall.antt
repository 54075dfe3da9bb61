-- ===== src/Mpi/Waitall.antt =====
-- MPI_Waitall of src/mpiv.c as a whole.
use lc.Base.{
  ℕ, zero, suc, ◌+◌, ◌≤◌, ◌<◌, ◌^◌, ◌≡◌, refl, ap, ◌∙◌, List, [], ◌∷◌, ◌++◌, Option, some, Bool,
  arith, length, replicate, map, append_assoc,
}
use lc.Pool.Conserve.{times}
use lc.Pool.Bounded.{CanPut}
use lc.Mpi.{Mpi, sync_wait, count_pending, post_all, then_wait_all, mpi_waitall}
use lc.Mpi.Balance.{nonnull, Balanced, Balanced-same}
use lc.Mpi.Loops.{left, posts, count_pending_lem, post_all-Looped, wait_all-Looped}

-- The requests that `lc_post` did not find over.
abbrev pub late : (ℕ → Bool) → List ℕ → List ℕ
late oks reqs = nonnull (left oks 0 reqs)

-- Every entry is null, and of the requests only those of `held` are not in the pool. There was one
-- `lc_post` for each request and then one `lc_sync_wait` for each that was not over; the counter is
-- the number of these.
pub record Waited (all : List ℕ) (held : ℕ → ℕ) (wid : ℕ) (oks : ℕ → Bool) (reqs : List ℕ) (s : Mpi)
    (o : Option (List ℕ × ℕ × Mpi)) : Type 0 where
  pub after : Mpi
  pub returned : o ≡ some (replicate (length reqs) 0, length (late oks reqs), after)
  pub balanced : Balanced all held after
  pub calls :
      after.calls
      ≡ s.calls ++ (posts oks 0 reqs (length (nonnull reqs)) ++ map sync_wait (late oks reqs))
  pub can : CanPut after.pools wid

length-nonnull : (rs : List ℕ) → length (nonnull rs) ≤ length rs
length-nonnull [] = omega arith
length-nonnull (zero ∷ rs) = omega (arith, length-nonnull rs)
length-nonnull (suc r ∷ rs) = omega (arith, length-nonnull rs)

length-left : (oks : ℕ → Bool) (i : ℕ) (rs : List ℕ) → length (left oks i rs) ≡ length rs
length-left oks i [] = refl
length-left oks i (zero ∷ rs) = ap suc (length-left oks (i + 1) rs)
length-left oks i (suc r ∷ rs) = ap suc (length-left oks (i + 1) rs)

nonnull-replicate : (n : ℕ) → nonnull (replicate n 0) ≡ []
nonnull-replicate zero = refl
nonnull-replicate (suc n) = nonnull-replicate n

waitall-loops :
    (wid : ℕ) (oks : ℕ → Bool) (reqs : List ℕ) (s : Mpi)
    → mpi_waitall wid oks reqs (length reqs) s
      ≡ then_wait_all wid (post_all wid oks 0 reqs (length (nonnull reqs)) s)
unfolding mpi_waitall
waitall-loops wid oks reqs s =
    let n : count_pending reqs (length reqs) ≡ length (nonnull reqs) =
      omega (arith, count_pending_lem reqs (length reqs) (omega arith)) in
    ap (λ c. then_wait_all wid (post_all wid oks 0 reqs c s)) n

-- Where the array's requests and those of `held` are all that are not in the pool, the array has
-- fewer than 2^31 entries, and the worker has a deque of the pool or can get one, MPI_Waitall
-- returns: every entry is null and each of the array's requests is in the pool again; `lc_post` was
-- called once for each, with the number of those not found over so far, and then `lc_sync_wait`
-- once for each that was not over, whose number is what the call left of the counter.
pub waitall-Waited :
    (all : List ℕ) (held : ℕ → ℕ) (wid : ℕ) (oks : ℕ → Bool) (reqs : List ℕ) (s : Mpi)
    → Balanced all (λ x. times x (nonnull reqs) + held x) s
    → CanPut s.pools wid
    → length reqs < 2 ^ 31
    → Waited all held wid oks reqs s (mpi_waitall wid oks reqs (length reqs) s)
waitall-Waited all held wid oks reqs s b can short =
    let n : ℕ = length (nonnull reqs) in
    let first =
      post_all-Looped all wid oks reqs held 0 n 0 s b can (omega arith)
        (omega (arith, length-nonnull reqs)) in
    let second =
      wait_all-Looped all wid (left oks 0 reqs) held (length (late oks reqs) + 0) first.after
        first.balanced first.can in
    record {
      after = second.after;
      returned =
          waitall-loops wid oks reqs s
          ∙ ap (then_wait_all wid) first.returned
          ∙ second.returned
          ∙ (λ i. some (
            replicate (length-left oks 0 reqs i) 0,
            unit_sum (length (late oks reqs)) i,
            second.after,
          ));
      balanced =
          Balanced-same all
            (λ x. times x (nonnull (replicate (length (left oks 0 reqs)) 0)) + held x) held
            second.after second.after.calls
            (λ x.
              ap (λ l. times x l + held x) (nonnull-replicate (length (left oks 0 reqs)))
              ∙ (omega arith))
            second.balanced;
      calls =
          second.calls
          ∙ ap (λ l. l ++ map sync_wait (late oks reqs)) first.calls
          ∙ append_assoc s.calls (posts oks 0 reqs n) (map sync_wait (late oks reqs));
      can = second.can;
    }
  where
    unit_sum : (k : ℕ) → k + 0 ≡ k
    unit_sum k = omega arith
