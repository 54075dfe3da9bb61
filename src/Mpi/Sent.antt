-- ===== src/Mpi/Sent.antt =====
-- MPI_Isend of src/mpiv.c when a request is free and the layer below takes the message in the end.
use lc.Base.{
  ℕ, zero, suc, ◌<◌, ◌≡◌, ◌≢◌, refl, ap, ◌∙◌, List, [], ◌∷◌, ◌++◌, some, Bool, true, false, arith,
  replicate, append_assoc,
}
use lc.Pool.Conserve.{in_pool}
use lc.Pool.Worker.{get_local-known}
use lc.Pool.Blocking.{get-Kept}
use lc.Pool.Bounded.{CanPut}
use lc.Pool.Available.{lc_pool_get-some}
use lc.Mpi.{
  Mpi, Below, send_tag, thread_yield, ask, size_of, until_taken, hand_out, with_request,
  after_taken, mpi_isend, request_null,
}
use lc.Mpi.Balance.{Balanced, put_request-PutBack}
use lc.Mpi.Taken.{held_with, times-one, with_request-Balanced}

-- The attempts of a call that is refused `n` times, each followed by a yield, and then taken.
abbrev pub tries : Below → ℕ → List Below
tries c zero = c ∷ []
tries c (suc n) = c ∷ thread_yield ∷ tries c n

abbrev pub answers : ℕ → List Bool
answers n = replicate n false ++ true ∷ []

until_taken-tries :
    (c : Below) (n : ℕ) (s : Mpi)
    → until_taken c (answers n) s ≡ some (record s { calls = s.calls ++ tries c n })
unfolding until_taken
until_taken-tries c zero s = refl
until_taken-tries c (suc n) s =
    until_taken-tries c n (ask (ask s c) thread_yield)
    ∙ ap (λ l. some (record s { calls = l }))
        (append_assoc (s.calls ++ c ∷ []) (thread_yield ∷ []) (tries c n)
          ∙ append_assoc s.calls (c ∷ []) (thread_yield ∷ tries c n))

-- What the caller gets.
abbrev pub value_of : Bool → ℕ → ℕ
value_of true ctx = request_null
value_of false ctx = ctx

hand_out-returns :
    (done : Bool) (all : List ℕ) (held : ℕ → ℕ) (wid ctx : ℕ) (s : Mpi)
    → Balanced all (held_with ctx held) s
    → CanPut s.pools wid
    → ctx ≢ 0
    → (s' : Mpi) × (hand_out done wid ctx s ≡ some (value_of done ctx, s')) × (s'.calls ≡ s.calls)
unfolding hand_out
hand_out-returns false all held wid ctx s b can n = (s, refl, refl)
hand_out-returns true all held wid ctx s b can n =
    let p =
      put_request-PutBack all (held_with ctx held) held wid ctx s b can n
        (λ x. omega (arith, times-one x ctx n)) in
    (p.after, rw (p.returned, hand_out) refl, p.calls)

-- held_with a request `x` in the pool, a worker that has a deque or can get one, and a layer below
-- that takes the message after `n` refusals: for some outcome of `rand` MPI_Isend returns. It has
-- made the attempts, with a yield after each refusal, with one request of the pool; this one is
-- held by the caller if the send is not done, and back in the pool, with a null value, if it is.
pub isend-Sent :
    (all : List ℕ) (held : ℕ → ℕ) (s : Mpi) (wid x n buf count datatype rank tag : ℕ) (done : Bool)
    → Balanced all held s
    → CanPut s.pools wid
    → 0 < in_pool x s.pools
    → (rand : ℕ) × (ctx : ℕ) × (s' : Mpi) × (mpi_isend s wid
          (rand ∷ [])
          buf
          count
          datatype
          rank
          tag
          (answers n)
          done
        ≡ some (value_of done ctx, s'))
      × (ctx ≢ 0)
      × (s'.calls ≡ s.calls ++ tries (send_tag buf (size_of datatype count) rank tag ctx) n)
      × Balanced all (held_with (value_of done ctx) held) s'
unfolding mpi_isend
isend-Sent all held s wid x n buf count datatype rank tag done b can free =
    let (rand, (ctx, pools), got) = lc_pool_get-some s.pools wid x b.valid can free in
    let ((v, real, counts), (pid, has)) = get-Kept s.pools pools wid ctx (rand ∷ []) b.valid got in
    let c = send_tag buf (size_of datatype count) rank tag ctx in
    let taken : Mpi = record { pools = pools; calls = s.calls ++ tries c n } in
    let (s', out, calls) =
      hand_out-returns done all held wid ctx taken
        (record {
          valid = v;
          balance = λ y. omega (arith, b.balance y, counts y, times-one y ctx real);
          fits = b.fits;
        })
        (pid, pools, get_local-known pools wid pid has.0 v.key has.1) real in
    let ran =
      ap
        (with_request
          (λ p t.
            after_taken (hand_out done wid p)
              (until_taken (send_tag buf (size_of datatype count) rank tag p) (answers n) t))
          s)
        got
      ∙ ap (after_taken (hand_out done wid ctx))
          (until_taken-tries c n (record s { pools = pools }))
      ∙ out in
    (
      rand,
      ctx,
      s',
      ran,
      real,
      calls,
      with_request-Balanced all held wid done (send_tag buf (size_of datatype count) rank tag)
          (answers n) (rand ∷ []) s s' (value_of done ctx) b ran,
    )
