-- ===== src/Coll/Value/Broadcast.antt =====
-- The broadcast of src/coll/ibcast.h over all ranks.
use lc.Base.{
  ℕ, zero, suc, ◌+◌, ◌≤◌, ◌<◌, ◌≡◌, ◌≢◌, refl, ap, ◌∙◌, [], ◌∷◌, arith, Bool-cases, inl, inr, ◌==◌,
  ==_refl,
}
use native.Mathlib.Decide.{dec_lt}
use mathlib.Core.Path.{subst}
use lc.Coll.{send, recv, tag_ibcast, bcast_sends, bcast_schedule}
use lc.Coll.Value.{effect, after, Sends}

bcast_sends-skip :
    (n i root buf count ep : ℕ)
    → i ≡ root
    → bcast_sends (suc n) i root buf count ep ≡ bcast_sends n (i + 1) root buf count ep
unfolding bcast_sends
bcast_sends-skip n i root buf count ep h = ground (arith, h)

bcast_sends-next :
    (n i root buf count ep : ℕ)
    → i ≢ root
    → bcast_sends (suc n) i root buf count ep
      ≡ send buf count i tag_ibcast ep ∷ bcast_sends n (i + 1) root buf count ep
unfolding bcast_sends
bcast_sends-next n i root buf count ep h = ground (arith, h)

bcast_schedule-root :
    (size buf count root ep : ℕ)
    → bcast_schedule root size buf count root ep ≡ bcast_sends size 0 root buf count ep
unfolding bcast_schedule
bcast_schedule-root size buf count root ep = rw (==_refl root) refl

bcast_schedule-other :
    (rank size buf count root ep : ℕ)
    → rank ≢ root
    → bcast_schedule rank size buf count root ep ≡ recv buf count root tag_ibcast ep ∷ []
unfolding bcast_schedule
bcast_schedule-other rank size buf count root ep h = ground (arith, h)

module _ {A : Type 0} (f : A → A → A) (inbox outbox : ℕ → A) where
  -- The root sends what it has in its buffer to each other rank.
  sends-root :
      (n i root buf count ep j : ℕ) (m : ℕ → A)
      → Sends f inbox outbox (bcast_sends n i root buf count ep) m
      → i ≤ j
      → j < i + n
      → j ≢ root
      → outbox j ≡ m buf
  unfolding effect
  sends-root zero i root buf count ep j m s l u o = absurd (omega arith)
  sends-root (suc n) i root buf count ep j m s l u o = elim (Bool-cases (i == root)) [
    | inl at ↦
        let e : i ≡ root = ground (arith, at) in
        sends-root n (i + 1) root buf count ep j m
          (subst (λ z. Sends f inbox outbox z m) (bcast_sends-skip n i root buf count ep e) s)
          (omega (arith, o, e)) (omega arith) o
    | inr away ↦
        let (now, later) =
          subst (λ z. Sends f inbox outbox z m)
            (bcast_sends-next n i root buf count ep (ground (arith, away))) s in
        elim (dec_lt i j) [
          | no here ↦ ap outbox {x = j} {y = i} (omega arith) ∙ now
          | yes past ↦
              sends-root n (i + 1) root buf count ep j m later (omega arith) (omega arith) o
        ]
  ]

  after-sends :
      (n i root buf count ep : ℕ) (m : ℕ → A)
      → after f inbox (bcast_sends n i root buf count ep) m ≡ m
  unfolding bcast_sends effect after
  after-sends zero i root buf count ep m = refl
  after-sends (suc n) i root buf count ep m =
      ground (arith, after-sends n (i + 1) root buf count ep m)

  after-other :
      (rank size buf count root ep : ℕ) (m : ℕ → A)
      → rank ≢ root
      → after f inbox (bcast_schedule rank size buf count root ep) m buf ≡ inbox root
  unfolding effect after
  after-other rank size buf count root ep m h =
      rw (bcast_schedule-other rank size buf count root ep h) (ground arith)

-- In a broadcast in which each process works off its schedule and receives from the root what the
-- root's schedule sends to it, in the end every process has in its buffer what the root had.
pub bcast-spreads :
    {A : Type 0} (f : A → A → A) (msg : ℕ → ℕ → A) (mems : ℕ → ℕ → A) (buf : ℕ → ℕ)
    (size count root ep : ℕ)
    → root < size
    → Sends f
        (λ s. msg s root)
        (msg root)
        (bcast_schedule root size (buf root) count root ep)
        (mems root)
    → (r : ℕ) → r < size
    → after f (λ s. msg s r) (bcast_schedule r size (buf r) count root ep) (mems r) (buf r)
      ≡ mems root (buf root)
bcast-spreads f msg mems buf size count root ep h sends r l = elim (Bool-cases (r == root)) [
  | inl same ↦
      let at : r ≡ root = ground (arith, same) in
      ap
        (λ q. after f (λ s. msg s q) (bcast_schedule q size (buf q) count root ep) (mems q) (buf q))
        at
      ∙ ap (λ z. after f (λ s. msg s root) z (mems root) (buf root))
          (bcast_schedule-root size (buf root) count root ep)
      ∙ ap (λ g. g (buf root))
          (after-sends f (λ s. msg s root) (msg root) size 0 root (buf root) count ep (mems root))
  | inr away ↦
      let other : r ≢ root = ground (arith, away) in
      after-other f (λ s. msg s r) (msg r) r size (buf r) count root ep (mems r) other
      ∙ sends-root f (λ s. msg s root) (msg root) size 0 root (buf root) count ep r (mems root)
          (subst (λ z. Sends f (λ s. msg s root) (msg root) z (mems root))
            (bcast_schedule-root size (buf root) count root ep) sends)
          (omega arith) (omega arith) other
]
