-- ===== src/Coll/Value/Exchange.antt =====
-- The exchange of src/coll/ialreduce.h on one rank, and what it sends at each distance.
use lc.Base.{
  ℕ, zero, suc, ◌+◌, ◌*◌, ◌≤◌, ◌<◌, ◌≡◌, ◌≢◌, refl, sym, ap, ◌∙◌, List, [], ◌∷◌, ◌++◌, arith,
  bit_xor,
}
use native.Mathlib.Decide.{dec_lt}
use mathlib.Core.Path.{subst}
use lc.Base.Bits.{pow2}
use lc.Coll.{Sched, sendrecv, op, exchange, remote_of, tag_iallreduce}
use lc.Coll.Value.{effect, after, Sends}
use lc.Coll.Value.Blocks.{held}

pub pow2-above : (k n : ℕ) → k < n → pow2 k < pow2 n
pow2-above k zero h = absurd (omega arith)
pow2-above zero (suc zero) h = omega arith
pow2-above zero (suc (suc n)) h = omega (arith, pow2-above zero (suc n) (omega arith))
pow2-above (suc k) (suc n) h = omega (arith, pow2-above k n (omega arith))

pow2-up_to : (k n : ℕ) → k ≤ n → pow2 k ≤ pow2 n
pow2-up_to k n h = elim (dec_lt k n) [
  | yes l ↦ omega (arith, pow2-above k n l)
  | no g ↦ let same : k ≡ n = omega arith in omega (arith, ap pow2 same)
]

exchange-more :
    (fuel k adjsize extra n s t count ep : ℕ)
    → pow2 k < adjsize
    → exchange (suc fuel) (pow2 k) adjsize extra n s t count ep
      ≡ sendrecv s t count (remote_of extra (bit_xor n (pow2 k))) tag_iallreduce ep
        ∷ op s t count
        ∷ exchange fuel (pow2 (suc k)) adjsize extra n s t count ep
unfolding exchange
exchange-more fuel k adjsize extra n s t count ep h =
    let double : pow2 k * 2 ≡ pow2 (suc k) = omega arith in
    ground (arith, ap (λ d. exchange fuel d adjsize extra n s t count ep) double)

exchange-end :
    (fuel d adjsize extra n s t count ep : ℕ)
    → adjsize ≤ d
    → exchange fuel d adjsize extra n s t count ep ≡ []
unfolding exchange
exchange-end zero d adjsize extra n s t count ep h = refl
exchange-end (suc fuel) d adjsize extra n s t count ep h = ground arith

module _ {A : Type 0} (f : A → A → A) (inbox outbox : ℕ → A) where
  pub after-append :
      (l l' : List Sched) (m : ℕ → A)
      → after f inbox (l ++ l') m ≡ after f inbox l' (after f inbox l m)
  unfolding after
  after-append [] l' m = refl
  after-append (s ∷ l) l' m = after-append l l' (effect f inbox s m)

  pub Sends-append :
      (l l' : List Sched) (m : ℕ → A)
      → Sends f inbox outbox (l ++ l') m
      → Sends f inbox outbox l m × Sends f inbox outbox l' (after f inbox l m)
  unfolding after
  Sends-append [] l' m h = (tt, h)
  Sends-append (s ∷ l) l' m (h, hs) =
      let (a, b) = Sends-append l l' (effect f inbox s m) hs in ((h, a), b)

  module _ (y : ℕ → A) (extra n last s t count ep : ℕ) (apart : s ≢ t) where
    -- The partner's number and its rank.
    abbrev other : ℕ → ℕ
    other k = bit_xor n (pow2 k)

    -- What the partners at the distances from `k` to `j` have sent.
    abbrev pub Heard : ℕ → ℕ → Type 0
    Heard k j = (i : ℕ) → k ≤ i → i < j → inbox (remote_of extra (other i)) ≡ held f y i (other i)

    abbrev round : ℕ → (ℕ → A) → ℕ → A
    round k m =
        effect f inbox (op s t count)
          (effect f inbox (sendrecv s t count (remote_of extra (other k)) tag_iallreduce ep) m)

    round-held :
        (k : ℕ) (m : ℕ → A)
        → m s ≡ held f y k n
        → inbox (remote_of extra (other k)) ≡ held f y k (other k)
        → round k m s ≡ held f y (suc k) n
    unfolding effect
    round-held k m h e = ground (arith, h, e, apart)

    pub exchange-held :
        (fuel k : ℕ) (m : ℕ → A)
        → last ≤ k + fuel
        → k ≤ last
        → m s ≡ held f y k n
        → Heard k last
        → after f inbox (exchange fuel (pow2 k) (pow2 last) extra n s t count ep) m s
          ≡ held f y last n
    unfolding after
    exchange-held zero k m b l h e =
        ap (λ o. after f inbox o m s)
          (exchange-end zero (pow2 k) (pow2 last) extra n s t count ep
            (pow2-up_to last k (omega arith)))
        ∙ h
        ∙ ap (λ i. held f y i n) (omega arith)
    exchange-held (suc fuel) k m b l h e = elim (dec_lt k last) [
      | no all ↦
          ap (λ o. after f inbox o m s)
            (exchange-end (suc fuel) (pow2 k) (pow2 last) extra n s t count ep
              (pow2-up_to last k (omega arith)))
          ∙ h
          ∙ ap (λ i. held f y i n) (omega arith)
      | yes more ↦
          ap (λ o. after f inbox o m s)
            (exchange-more fuel k (pow2 last) extra n s t count ep (pow2-above k last more))
          ∙ exchange-held fuel (suc k) (round k m) (omega arith) (omega arith)
              (round-held k m h (e k (omega arith) more)) (λ i g u. e i (omega arith) u)
    ]

    pub exchange-sends :
        (fuel k j : ℕ) (m : ℕ → A)
        → last ≤ k + fuel
        → k ≤ j
        → j < last
        → m s ≡ held f y k n
        → Heard k j
        → Sends f inbox outbox (exchange fuel (pow2 k) (pow2 last) extra n s t count ep) m
        → outbox (remote_of extra (other j)) ≡ held f y j n
    exchange-sends zero k j m b l u h e d = absurd (omega arith)
    exchange-sends (suc fuel) k j m b l u h e d =
        let (now, (_, rest)) =
          subst (λ o. Sends f inbox outbox o m)
            (exchange-more fuel k (pow2 last) extra n s t count ep
              (pow2-above k last (omega arith)))
            d in
        elim (dec_lt k j) [
          | no here ↦
              let same : j ≡ k = omega arith in
              subst (λ i. outbox (remote_of extra (other i)) ≡ held f y i n) (sym same) (now ∙ h)
          | yes later ↦
              exchange-sends fuel (suc k) j (round k m) (omega arith) (omega arith) u
                (round-held k m h (e k (omega arith) later)) (λ i g v. e i (omega arith) v) rest
        ]
