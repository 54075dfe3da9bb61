-- ===== src/Coll/Value/Allreduce.antt =====
-- The allreduce of src/coll/ialreduce.h over all ranks: what each of them has in the end.
use lc.Base.{ℕ, ◌+◌, ◌-◌, ◌*◌, ◌/◌, ◌%◌, ◌^◌, ◌<◌, ◌≡◌, ◌≢◌, sym, ap, ◌∙◌, arith}
use native.Mathlib.Decide.{dec_lt}
use mathlib.Core.Path.{subst}
use lc.Base.Bits.{pow2}
use lc.Coll.{fold_out, exchange_if, remote_of, allreduce_schedule}
use lc.Coll.Partner.{new_rank-remote_of}
use lc.Coll.Value.{after, Sends}
use lc.Coll.Value.Blocks.{folded, over, held-all}
use lc.Coll.Value.Exchange.{after-append, exchange-held}
use lc.Coll.Value.Messages.{
  Run, remote_of-low, remote_of-high, log, adjsize, extra, inb, parts_in, parts_reduced,
  parts_answered, adjsize-eq, log-lt, size-eq, extra-lt, Sends-out, remote-lt, folded_in, heard,
}
use lc.Coll.Value.Fold.{result, after-whole, after-fold_out, Sends-fold_out}

module _ {A : Type 0} {f : A → A → A} (assoc : (a b c : A) → f (f a b) c ≡ f a (f b c))
    (comm : (a b : A) → f a b ≡ f b a) {x : ℕ → A} {size count ep : ℕ}
    (run : Run f x size count ep) where
  abbrev all_of : A
  all_of = over f x 0 (size - 1)

  reduced-all :
      (n : ℕ)
      → n < pow2 (log run)
      → let r = remote_of (extra run) n in
        after f ((inb run) r) ((parts_reduced run) r) (run.mems r) (run.buf r) ≡ all_of
  unfolding exchange_if
  reduced-all n h =
      let r : ℕ = remote_of (extra run) n in
      let y = folded f x (extra run) in
      let m : ℕ → A = after f ((inb run) r) ((parts_in run) r) (run.mems r) in
      ap (λ g. g (run.buf r))
        (after-append f ((inb run) r) (run.msg r) ((parts_in run) r) _ (run.mems r))
      ∙ (λ i.
          after f ((inb run) r)
            (exchange_if (new_rank-remote_of (extra run) n i) ((adjsize-eq run) i) (extra run)
              (run.buf r) (run.rbuf r) count ep)
            m (run.buf r))
      ∙ exchange-held f ((inb run) r) (run.msg r) y (extra run) n (log run) (run.buf r) (run.rbuf r)
          count ep (run.apart r ((remote-lt run) n h)) 32 0 m (omega (arith, (log-lt run)))
          (omega arith) ((folded_in run) n h) (λ k g v. (heard run) k n v h)
      ∙ held-all f assoc comm x (extra run) (log run) n h (extra-lt run)
      ∙ ap (over f x 0) (omega (arith, (size-eq run)))

  even-all : (r : ℕ) → r < size → r < 2 * (extra run) → r % 2 ≡ 0 → run.msg (r + 1) r ≡ all_of
  even-all r h l e =
      let n : ℕ = r / 2 in
      let low : n < (extra run) = omega arith in
      let at : remote_of (extra run) n ≡ r + 1 = remote_of-low (extra run) n low ∙ omega arith in
      let lt : n < pow2 (log run) = omega (arith, (extra-lt run)) in
      let q : ℕ = remote_of (extra run) n in
      let back : q - 1 ≡ r = omega (arith, at) in
      let sent : run.msg q (q - 1) ≡ all_of =
        Sends-fold_out (extra run) (adjsize run) q (run.buf q) (run.rbuf q) count ep f ((inb run) q)
          (run.msg q) (run.apart q ((remote-lt run) n lt))
          (after f ((inb run) q) ((parts_reduced run) q) (run.mems q))
          ((Sends-out run) q ((remote-lt run) n lt)).1 (omega (arith, at)) (omega (arith, at))
        ∙ reduced-all n lt in
      (λ i. run.msg (sym at i) (sym back i)) ∙ sent

  number_of :
      (r : ℕ)
      → r < size
      → (r < 2 * (extra run) → r % 2 ≡ 1)
      → (n : ℕ) × (n < pow2 (log run)) × (remote_of (extra run) n ≡ r)
  number_of r h odd = elim (dec_lt r (2 * (extra run))) [
    | yes l ↦ (
      r / 2,
      omega (arith, (extra-lt run)),
      remote_of-low (extra run) (r / 2) (omega arith) ∙ omega (arith, odd l),
    )
    | no g ↦ (
      r - (extra run),
      omega (arith, (size-eq run)),
      remote_of-high (extra run) (r - (extra run)) (omega arith) ∙ omega arith,
    )
  ]

  own :
      (r : ℕ)
      → r < size
      → (r < 2 * (extra run) → r % 2 ≡ 1)
      → after f ((inb run) r) ((parts_reduced run) r) (run.mems r) (run.buf r) ≡ all_of
  own r h odd =
      let (n, lt, at) = number_of r h odd in
      subst (λ q. after f ((inb run) q) ((parts_reduced run) q) (run.mems q) (run.buf q) ≡ all_of)
        at (reduced-all n lt)

  answered-all :
      (r : ℕ)
      → r < size
      → after f
          ((inb run) r)
          ((parts_answered run) r)
          (run.mems r)
          (result (extra run) (adjsize run) r (run.buf r) (run.rbuf r) count ep)
        ≡ all_of
  answered-all r h =
      let m : ℕ → A = after f ((inb run) r) ((parts_reduced run) r) (run.mems r) in
      let (even, other) =
        after-fold_out (extra run) (adjsize run) r (run.buf r) (run.rbuf r) count ep f ((inb run) r)
          (run.msg r) (run.apart r h) m in
      let out = fold_out (extra run) r (run.buf r) (run.rbuf r) count ep in
      ap (λ g. g (result (extra run) (adjsize run) r (run.buf r) (run.rbuf r) count ep))
        (after-append f ((inb run) r) (run.msg r) ((parts_reduced run) r) out (run.mems r))
      ∙ elim (dec_lt r (2 * (extra run))) [
        | no g ↦ other (λ l. absurd (omega arith)) ∙ own r h (λ l. absurd (omega arith))
        | yes l ↦ elim (dec_lt (r % 2) 1) [
          | yes e ↦ even l (omega arith) ∙ even-all r h l (omega arith)
          | no o ↦ other (λ _. omega arith) ∙ own r h (λ _. omega arith)
        ]
      ]

  run-total :
      (r : ℕ)
      → r < size
      → after f
          (λ s. run.msg s r)
          (allreduce_schedule r size (run.buf r) (run.rbuf r) count ep)
          (run.mems r)
          (run.rbuf r)
        ≡ over f x 0 (size - 1)
  unfolding allreduce_schedule
  run-total r h =
      after-whole (extra run) (adjsize run) r (run.buf r) (run.rbuf r) count ep f (inb run r)
        (run.msg r) (run.apart r h) (run.mems r)
      ∙ answered-all r h

-- For an associative and commutative `f`, an allreduce of fewer than 2^31 processes in which each
-- starts with its value in a buffer apart from its result, works off its schedule, and receives
-- from each other one what that one's schedule sends to it: in the end every process has `f` of the
-- values of all, each taken once.
pub allreduce-total :
    {A : Type 0} (f : A → A → A)
    → ((a b c : A) → f (f a b) c ≡ f a (f b c))
    → ((a b : A) → f a b ≡ f b a)
    → (msg : ℕ → ℕ → A) (x : ℕ → A) (mems : ℕ → ℕ → A) (buf rbuf : ℕ → ℕ) (size count ep : ℕ)
    → 0 < size
    → size < 2 ^ 31
    → ((r : ℕ) → r < size → buf r ≢ rbuf r)
    → ((r : ℕ) → r < size → mems r (buf r) ≡ x r)
    → ((r : ℕ)
        → r < size
        → Sends f
            (λ s. msg s r)
            (msg r)
            (allreduce_schedule r size (buf r) (rbuf r) count ep)
            (mems r))
    → (r : ℕ) → r < size
    → after f (λ s. msg s r) (allreduce_schedule r size (buf r) (rbuf r) count ep) (mems r) (rbuf r)
      ≡ over f x 0 (size - 1)
allreduce-total f assoc comm msg x mems buf rbuf size count ep some_ranks bound apart given sends =
    run-total assoc comm (record {
      msg = msg;
      mems = mems;
      buf = buf;
      rbuf = rbuf;
      some_ranks = some_ranks;
      bound = bound;
      apart = apart;
      given = given;
      sends = sends;
    })
