-- ===== src/Coll/Ends.antt =====
-- The ways in which the loop of `lc_col_progress` of src/coll/common.h ends, or does not.
use lc.Base.{
  ℕ, suc, ◌+◌, ◌≤◌, ◌<◌, ◌≡◌, ◌⊎◌, inl, inr, refl, sym, ap, ◌∙◌, Option, none, some, arith, true,
  false,
}
use native.Mathlib.Decide.{dec_lt}
use mathlib.Core.Path.{subst}
use lc.Coll.{ColReq, Answers, lc_safe, waits, turn, col_loop}
use lc.Coll.Turns.{InOrder, Turned, is_send, pends, Refused}

-- No entry from `cur` up to number `n` is left pending.
abbrev pub Quiet : Answers → ColReq → ℕ → Type 0
Quiet answers r n = (i : ℕ) → r.cur ≤ i → i < n → pends (answers i) (r.next i) ≡ false

-- The end of a call: the entries before number `stop` were not left pending, and either that one
-- was and is the last that has run, or all is done and flagged.
pub record Progressed (answers : Answers) (r : ColReq) (o : Option ColReq) : Type 0 where
  pub req : ColReq
  pub returned : o ≡ some req
  pub in_order : InOrder req
  pub same : (req.next ≡ r.next) × (req.total ≡ r.total)
  pub ahead : r.cur ≤ req.cur
  pub stop : ℕ
  pub quiet : Quiet answers r stop
  pub ended :
      (waits req ≡ true)
        × (r.cur ≤ stop)
        × (req.cur ≡ stop + 1)
        × (pends (answers stop) (r.next stop) ≡ true)
      ⊎ (req.flag ≡ 1) × (req.cur ≡ r.total) × (stop ≡ r.total)

-- The call does not return: it comes to a send that is refused every time.
abbrev pub Spins : Answers → ColReq → Option ColReq → Type 0
Spins answers r o =
    (o ≡ none) × ((i : ℕ) × (r.cur ≤ i) × (i < r.total) × Refused (answers i) (r.next i))

-- Each send that is left in the schedule is taken after finitely many refusals.
abbrev pub Accepts : Answers → ColReq → Type 0
Accepts answers r =
    (i : ℕ) → r.cur ≤ i → i < r.total → is_send (r.next i) ≡ true → lc_safe (answers i).sends ≡ true

pub col_loop-end :
    (fuel : ℕ) (answers : Answers) (r : ColReq)
    → r.total ≤ r.cur
    → col_loop (suc fuel) answers r ≡ some (record r { flag = 1 })
unfolding col_loop
col_loop-end fuel answers r h = ground arith

pub col_loop-turn :
    (fuel : ℕ) (answers : Answers) (r : ColReq)
    → r.cur < r.total
    → col_loop (suc fuel) answers r ≡ elim (turn answers r) [
      | none ↦ none
      | some r' ↦ elim (waits r') [ true ↦ some r' | false ↦ col_loop fuel answers r' ]
    ]
unfolding col_loop
col_loop-turn fuel answers r h = ground arith

-- An entry that is not left pending goes before those of the rest of the call.
Quiet-turn :
    (answers : Answers) (r r' : ColReq) (n : ℕ)
    → Turned r r'
    → pends (answers r.cur) (r.next r.cur) ≡ false
    → Quiet answers r' n
    → Quiet answers r n
Quiet-turn answers r r' n t now later i low h = elim (dec_lt r.cur i) [
  | yes past ↦ ap (λ f. pends (answers i) (f i)) (sym t.next) ∙ later i (omega (arith, t.cur)) h
  | no here ↦
      let same : i ≡ r.cur = omega arith in ap (λ j. pends (answers j) (r.next j)) same ∙ now
]

pub Progressed-turn :
    (answers : Answers) (r r' : ColReq) (o o' : Option ColReq)
    → Turned r r'
    → pends (answers r.cur) (r.next r.cur) ≡ false
    → o ≡ o'
    → Progressed answers r' o'
    → Progressed answers r o
Progressed-turn answers r r' o o' t now e p = record {
  req = p.req;
  returned = e ∙ p.returned;
  in_order = p.in_order;
  same = (p.same.0 ∙ t.next, p.same.1 ∙ t.total);
  ahead = omega (arith, t.cur, p.ahead);
  stop = p.stop;
  quiet = Quiet-turn answers r r' p.stop t now p.quiet;
  ended = elim p.ended [
    | inl (w, low, at, q) ↦ inl (
      w,
      omega (arith, t.cur, low),
      at,
      ap (λ f. pends (answers p.stop) (f p.stop)) (sym t.next) ∙ q,
    )
    | inr (f, all, at) ↦ inr (f, all ∙ t.total, at ∙ t.total)
  ];
}

pub Spins-turn :
    (answers : Answers) (r r' : ColReq) (o o' : Option ColReq)
    → Turned r r'
    → o ≡ o'
    → Spins answers r' o'
    → Spins answers r o
Spins-turn answers r r' o o' t e (stuck, (i, low, h, refused)) = (
  e ∙ stuck,
  (
    i,
    omega (arith, t.cur, low),
    omega (arith, t.total, h),
    subst (λ f. Refused (answers i) (f i)) t.next refused,
  ),
)

pub ended_here :
    (answers : Answers) (fuel : ℕ) (r : ColReq)
    → InOrder r
    → waits r ≡ false
    → r.total ≤ r.cur
    → Progressed answers r (col_loop (suc fuel) answers r)
ended_here answers fuel r v n h = record {
  req = record r { flag = 1 };
  returned = col_loop-end fuel answers r h;
  in_order = record {
    bounded = v.bounded;
    ran = v.ran;
    flagged = λ f. (omega (arith, v.bounded), n);
  };
  same = (refl, refl);
  ahead = omega arith;
  stop = r.total;
  quiet = λ i low lt. absurd (omega (arith, h, low, lt));
  ended = inr (refl, omega (arith, v.bounded), refl);
}

pub stopped_here :
    (answers : Answers) (r r' : ColReq) (o : Option ColReq)
    → Turned r r'
    → InOrder r'
    → waits r' ≡ true
    → pends (answers r.cur) (r.next r.cur) ≡ true
    → o ≡ some r'
    → Progressed answers r o
stopped_here answers r r' o t v' w p e = record {
  req = r';
  returned = e;
  in_order = v';
  same = (t.next, t.total);
  ahead = omega (arith, t.cur);
  stop = r.cur;
  quiet = λ i low lt. absurd (omega arith);
  ended = inl (w, omega arith, t.cur, p);
}
