-- ===== src/Coll/Progress.antt =====
-- `lc_col_progress` of src/coll/common.h: one call, and calls in any order with the signals.
use lc.Base.{
  ℕ, zero, suc, ◌+◌, ◌-◌, ◌<◌, ◌≡◌, ◌≢◌, ◌⊎◌, inl, inr, refl, sym, ap, ◌∙◌, some, arith, true,
  false, Bool-cases,
}
use native.Mathlib.Decide.{dec_lt}
use mathlib.Core.Path.{subst}
use mathlib.Core.Option.{none-ne-some}
use mathlib.Core.Bool.{true≢false}
use lc.Coll.{ColReq, Answers, waits, col_loop, lc_col_progress}
use lc.Coll.Schedule.{entries}
use lc.Coll.Turns.{InOrder, turn-Turned, after_turn}
use lc.Coll.Ends.{
  Progressed, Accepts, Spins, col_loop-turn, Progressed-turn, Spins-turn, ended_here, stopped_here,
}

col_loop-ends :
    (fuel : ℕ) (answers : Answers) (r : ColReq)
    → r.total < r.cur + fuel
    → InOrder r
    → waits r ≡ false
    → Progressed answers r (col_loop fuel answers r) ⊎ Spins answers r (col_loop fuel answers r)
col_loop-ends zero answers r h v n = absurd (omega (arith, v.bounded))
col_loop-ends (suc fuel) answers r h v n = elim (dec_lt r.cur r.total) [
  | no all ↦ inl (ended_here answers fuel r v n (omega arith))
  | yes left ↦ elim (turn-Turned answers r n) [
    | inr (stuck, refused) ↦
        inr (col_loop-turn fuel answers r left ∙ rw stuck refl, (r.cur, omega arith, left, refused))
    | inl (r', went, t, w) ↦
        let v' = after_turn t left v in
        elim (Bool-cases (waits r')) [
          | inl stops ↦ inl (
              stopped_here answers r r' _ t v' stops (sym w ∙ stops)
                (col_loop-turn fuel answers r left ∙ rw went (rw stops refl)))
          | inr goes ↦
              let on : col_loop (suc fuel) answers r ≡ col_loop fuel answers r' =
                col_loop-turn fuel answers r left ∙ rw went (rw goes refl) in
              elim (col_loop-ends fuel answers r' (omega (arith, t.cur, t.total)) v' goes) [
                | inl p ↦ inl (Progressed-turn answers r r' _ _ t (sym w ∙ goes) on p)
                | inr s ↦ inr (Spins-turn answers r r' _ _ t on s)
              ]
        ]
  ]
]

lc_col_progress-runs :
    (answers : Answers) (r : ColReq)
    → waits r ≡ false
    → lc_col_progress answers r ≡ col_loop (r.total - r.cur + 1) answers r
unfolding lc_col_progress
lc_col_progress-runs answers r n = rw n refl

lc_col_progress-ends :
    (answers : Answers) (r : ColReq)
    → InOrder r
    → waits r ≡ false
    → Progressed answers r (lc_col_progress answers r) ⊎ Spins answers r (lc_col_progress answers r)
lc_col_progress-ends answers r v n =
    subst (λ o. Progressed answers r o ⊎ Spins answers r o) (sym (lc_col_progress-runs answers r n))
      (col_loop-ends (r.total - r.cur + 1) answers r (omega (arith, v.bounded)) v n)

-- On a request in order with nothing pending, where the layer below takes each send that is left in
-- the schedule after finitely many refusals, lc_col_progress returns. It has run the next entries
-- in order; either the last of them is left pending and none before it was, or they were all that
-- was left, none was left pending, and the request is flagged.
pub lc_col_progress-Progressed :
    (answers : Answers) (r : ColReq)
    → InOrder r
    → waits r ≡ false
    → Accepts answers r
    → Progressed answers r (lc_col_progress answers r)
lc_col_progress-Progressed answers r v n taken = elim (lc_col_progress-ends answers r v n) [
  | inl p ↦ p
  | inr (_, (i, low, h, (sends, refused))) ↦
      absurd (true≢false (sym (taken i low h sends) ∙ refused))
]

-- What happens to a request: calls of `lc_col_progress`, and the signals of the pending
-- operations, in any order.
pub data Step : ColReq → ColReq → Type 0 where
  progress : {r r' : ColReq} (answers : Answers) → lc_col_progress answers r ≡ some r' → Step r r'
  signal0 : {r : ColReq} → Step r (record r { sync0 = 1 })
  signal1 : {r : ColReq} → Step r (record r { sync1 = 1 })

pub data Steps : ColReq → ColReq → Type 0 where
  no_step : {r : ColReq} → Steps r r
  then_step : {r r' r'' : ColReq} → Steps r r' → Step r' r'' → Steps r r''

pub lc_col_progress-waits :
    (answers : Answers) (r : ColReq) → waits r ≡ true → lc_col_progress answers r ≡ some r
unfolding lc_col_progress
lc_col_progress-waits answers r w = rw w

-- What every step keeps.
abbrev Kept : ColReq → ColReq → Type 0
Kept r r' = InOrder r' × (r'.next ≡ r.next) × (r'.total ≡ r.total)

Step-Kept : {r r' : ColReq} → InOrder r → Step r r' → Kept r r'
Step-Kept {r} {r'} v (progress answers e) = elim (Bool-cases (waits r)) [
  | inl w ↦
      let same : r ≡ r' = cc (lc_col_progress-waits answers r w, e) in
      subst (Kept r) same (v, refl, refl)
  | inr n ↦ elim (lc_col_progress-ends answers r v n) [
    | inr (stuck, _) ↦ absurd (none-ne-some _ (sym stuck ∙ e))
    | inl p ↦
        let same : p.req ≡ r' = cc (p.returned, e) in
        subst (Kept r) same (p.in_order, p.same.0, p.same.1)
  ]
]
Step-Kept {r} v signal0 = (
  record {
    bounded = v.bounded;
    ran = v.ran;
    flagged = λ f. ((v.flagged f).0, ground (arith, (v.flagged f).1));
  },
  refl,
  refl,
)
Step-Kept {r} v signal1 = (
  record {
    bounded = v.bounded;
    ran = v.ran;
    flagged = λ f. ((v.flagged f).0, ground (arith, (v.flagged f).1));
  },
  refl,
  refl,
)

-- However calls of `lc_col_progress` and the signals of the operations interleave, what has run is
-- a prefix of the schedule, in order and each entry once, and once the request is flagged it is
-- the whole schedule.
pub Steps-InOrder :
    {r r' : ColReq}
    → InOrder r
    → Steps r r'
    → (r'.done ≡ entries r.next r'.cur) × (r'.flag ≢ 0 → r'.done ≡ entries r.next r.total)
Steps-InOrder {r} {r'} v s =
    let (v', n, t) = kept v s in
    (
      v'.ran ∙ ap (λ f. entries f r'.cur) n,
      λ f. v'.ran ∙ ap (λ f. entries f r'.cur) n ∙ ap (entries r.next) ((v'.flagged f).0 ∙ t),
    )
  where
    kept : {r r' : ColReq} → InOrder r → Steps r r' → Kept r r'
    kept v no_step = (v, refl, refl)
    kept v (then_step s step) =
        let (v1, n1, t1) = kept v s in
        let (v2, n2, t2) = Step-Kept v1 step in (v2, n2 ∙ n1, t2 ∙ t1)
