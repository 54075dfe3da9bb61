-- ===== src/Mpi/Taken.antt =====
-- MPI_Isend, MPI_Irecv and the blocking calls of src/mpiv.c when they return: which requests are in
-- the pool.
use lc.Base.{
  ℕ, zero, suc, ◌+◌, ◌≡◌, ◌≢◌, refl, sym, ap, ◌∙◌, List, [], ◌∷◌, Option, none, some, Bool, true,
  false, arith, Option-cases, inl, inr,
}
use mathlib.Core.Path.{subst}
use mathlib.Core.Option.{some-injective, none-ne-some}
use lc.Pool.{lc_pool_get, lc_pool_put}
use lc.Pool.Conserve.{is, times, in_pool, IsPool}
use lc.Pool.Worker.{put-Kept}
use lc.Pool.Blocking.{get-Kept}
use lc.Mpi.{
  Mpi, Below, ask, thread_yield, until_taken, then_wait, put_request, hand_out, with_request,
  after_taken,
}
use lc.Mpi.Balance.{nonnull, Balanced}

pub until_taken-pools :
    (c : Below) (answers : List Bool) (s s' : Mpi)
    → until_taken c answers s ≡ some s'
    → s'.pools ≡ s.pools
unfolding until_taken
until_taken-pools c [] s s' e = absurd (none-ne-some _ e)
until_taken-pools c (true ∷ answers) s s' e = ap (λ t. t.pools) (sym (some-injective _ _ e))
until_taken-pools c (false ∷ answers) s s' e =
    until_taken-pools c answers (ask (ask s c) thread_yield) s' e

pub then_wait-pools :
    (ctx : ℕ) (o : Option Mpi) (s : Mpi)
    → ((t : Mpi) → o ≡ some t → t.pools ≡ s.pools)
    → (s' : Mpi) → then_wait ctx o ≡ some s'
    → s'.pools ≡ s.pools
then_wait-pools ctx none s same s' e = absurd (none-ne-some _ e)
then_wait-pools ctx (some t) s same s' e =
    ap (λ v. v.pools) (sym (some-injective _ _ e)) ∙ same t refl

pub times-one : (x ctx : ℕ) → ctx ≢ 0 → times x (nonnull (ctx ∷ [])) ≡ is x ctx
times-one x zero n = absurd (n refl)
times-one x (suc c) n = omega arith

put_request-count :
    (all : List ℕ) (held held' : ℕ → ℕ) (s s' : Mpi) (wid r : ℕ)
    → Balanced all held s
    → r ≢ 0
    → ((x : ℕ) → held x ≡ is x r + held' x)
    → put_request s wid r ≡ some s'
    → Balanced all held' s'
unfolding put_request
put_request-count all held held' s s' wid r b n split e =
    elim (Option-cases (lc_pool_put s.pools wid r)) [
      | inl stop ↦ ground (arith, stop, e)
      | inr (pools, went) ↦
          let (v, _, count) = put-Kept s.pools pools wid r b.valid n went in
          let same : record s { pools = pools } ≡ s' =
            some-injective _ _ (sym (rw (went, put_request) refl) ∙ e) in
          subst (Balanced all held') same (record {
            valid = v;
            balance = λ x. omega (arith, b.balance x, count x, split x);
            fits = b.fits;
          })
    ]

-- What the caller gets, beside what is held already.
abbrev pub held_with : ℕ → (ℕ → ℕ) → ℕ → ℕ
held_with req held x = times x (nonnull (req ∷ [])) + held x

hand_out-Balanced :
    (done : Bool) (all : List ℕ) (held : ℕ → ℕ) (s s' : Mpi) (wid ctx req : ℕ)
    → ctx ≢ 0
    → Balanced all (held_with ctx held) s
    → hand_out done wid ctx s ≡ some (req, s')
    → Balanced all (held_with req held) s'
unfolding hand_out
hand_out-Balanced false all held s s' wid ctx req n b e =
    subst (λ (r : ℕ × Mpi). Balanced all (held_with r.0 held) r.1)
      (some-injective (ctx, s) (req, s') e) b
hand_out-Balanced true all held s s' wid ctx req n b e =
    elim (Option-cases (put_request s wid ctx)) [
      | inl stop ↦ ground (arith, stop, e)
      | inr (t, went) ↦
          let is_t : hand_out true wid ctx s ≡ some (0, t) = rw (went, hand_out) refl in
          subst (λ (r : ℕ × Mpi). Balanced all (held_with r.0 held) r.1)
            (some-injective (0, t) (req, s') (sym is_t ∙ e))
            (put_request-count all (held_with ctx held) (held_with 0 held) s t wid ctx b n
              (λ x. omega (arith, times-one x ctx n)) went)
    ]

-- A call that starts with a request from the pool.
module _ (all : List ℕ) (held : ℕ → ℕ) (wid : ℕ) (done : Bool) (c : ℕ → Below)
    (answers : List Bool) where
  abbrev starting : ℕ → Mpi → Option (ℕ × Mpi)
  starting ctx v = after_taken (hand_out done wid ctx) (until_taken (c ctx) answers v)

  starting-Balanced :
      (ctx req : ℕ) (v s' : Mpi)
      → ctx ≢ 0
      → Balanced all (held_with ctx held) v
      → starting ctx v ≡ some (req, s')
      → Balanced all (held_with req held) s'
  starting-Balanced ctx req v s' n b e = elim (Option-cases (until_taken (c ctx) answers v)) [
    | inl stop ↦ absurd (none-ne-some _ (sym (ap (after_taken (hand_out done wid ctx)) stop) ∙ e))
    | inr (t, went) ↦
        let same = until_taken-pools (c ctx) answers v t went in
        hand_out-Balanced done all held t s' wid ctx req n
          (record {
            valid = subst IsPool (sym same) b.valid;
            balance = λ x. ap (λ p. in_pool x p + held_with ctx held x) same ∙ b.balance x;
            fits = b.fits;
          })
          (sym (ap (after_taken (hand_out done wid ctx)) went) ∙ e)
  ]

  pub with_request-Balanced :
      (rands : List ℕ) (s s' : Mpi) (req : ℕ)
      → Balanced all held s
      → with_request starting s (lc_pool_get s.pools wid rands) ≡ some (req, s')
      → Balanced all (held_with req held) s'
  with_request-Balanced rands s s' req b e = elim (Option-cases (lc_pool_get s.pools wid rands)) [
    | inl stop ↦ absurd (none-ne-some _ (sym (ap (with_request starting s) stop) ∙ e))
    | inr ((ctx, pools), went) ↦
        let ((v, n, count), _) = get-Kept s.pools pools wid ctx rands b.valid went in
        starting-Balanced ctx req (record s { pools = pools }) s' n
          (record {
            valid = v;
            balance = λ x. omega (arith, b.balance x, count x, times-one x ctx n);
            fits = b.fits;
          })
          (sym (ap (with_request starting s) went) ∙ e)
  ]
