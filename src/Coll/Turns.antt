-- ===== src/Coll/Turns.antt =====
-- One turn of the loop of `lc_col_progress` of src/coll/common.h.
use lc.Base.{
  suc, ◌+◌, ◌≤◌, ◌<◌, ◌≡◌, ◌≢◌, ◌⊎◌, inl, inr, refl, sym, ap, ◌∙◌, [], ◌∷◌, ◌++◌, Option, none,
  some, arith, Bool, true, false, not, ◌&&◌, ◌==◌, Bool-cases,
}
use lc.Coll.{
  Sched, send, recv, sendrecv, op, mem, free, ColReq, as_sync, Answer, Answers, lc_safe, waits,
  run_sched, turn,
}
use lc.Coll.Schedule.{entries}

-- What has run is the schedule up to `cur`, and a request is flagged only when all of it has run
-- and nothing is pending.
pub record InOrder (r : ColReq) : Type 0 where
  pub bounded : r.cur ≤ r.total
  pub ran : r.done ≡ entries r.next r.cur
  pub flagged : r.flag ≢ 0 → (r.cur ≡ r.total) × (waits r ≡ false)

-- A turn runs the entry at `cur` and keeps the schedule.
pub record Turned (r r' : ColReq) : Type 0 where
  pub cur : r'.cur ≡ r.cur + 1
  pub total : r'.total ≡ r.total
  pub next : r'.next ≡ r.next
  pub flag : r'.flag ≡ r.flag
  pub done : r'.done ≡ r.done ++ r.next r.cur ∷ []

-- Whether an entry sends, and whether it is left pending.
abbrev pub is_send : Sched → Bool
is_send (send src size rank tag ep) = true
is_send (recv src size rank tag ep) = false
is_send (sendrecv src dst size rank tag ep) = true
is_send (op dst src size) = false
is_send (mem dst src size) = false
is_send (free src) = false

abbrev pub pends : Answer → Sched → Bool
pends a (send src size rank tag ep) = not a.sent
pends a (recv src size rank tag ep) = not a.got
pends a (sendrecv src dst size rank tag ep) = not (a.sent && a.got)
pends a (op dst src size) = false
pends a (mem dst src size) = false
pends a (free src) = false

-- An LC_SAFE that is not left: every call of `lc_send` for the entry is refused.
abbrev pub Refused : Answer → Sched → Type 0
Refused a s = (is_send s ≡ true) × (lc_safe a.sends ≡ false)

abbrev Ran : Answer → Sched → ColReq → Option ColReq → Type 0
Ran a s r o =
    (r' : ColReq) × (o ≡ some r')
    × (r'.cur ≡ r.cur)
    × (r'.total ≡ r.total)
    × (r'.next ≡ r.next)
    × (r'.flag ≡ r.flag)
    × (r'.done ≡ r.done)
    × (waits r' ≡ pends a s)

run_sched-Ran :
    (a : Answer) (s : Sched) (r : ColReq)
    → waits r ≡ false
    → Ran a s r (run_sched a s r) ⊎ (run_sched a s r ≡ none) × Refused a s
unfolding run_sched
run_sched-Ran a (send src size rank tag ep) r w = elim (Bool-cases (lc_safe a.sends)) [
  | inl taken ↦ inl (
    record r { sync0 = as_sync a.sent },
    rw taken refl,
    refl,
    refl,
    refl,
    refl,
    refl,
    elim (Bool-cases a.sent) [ inl e ↦ ground (arith, e, w) | inr e ↦ ground (arith, e, w) ],
  )
  | inr refused ↦ inr (rw refused refl, (refl, refused))
]
run_sched-Ran a (recv src size rank tag ep) r w = inl (
  record r { sync0 = as_sync a.got },
  refl,
  refl,
  refl,
  refl,
  refl,
  refl,
  elim (Bool-cases a.got) [ inl e ↦ ground (arith, e, w) | inr e ↦ ground (arith, e, w) ],
)
run_sched-Ran a (sendrecv src dst size rank tag ep) r w = elim (Bool-cases (lc_safe a.sends)) [
  | inl taken ↦ inl (
    record r { sync0 = as_sync a.sent; sync1 = as_sync a.got },
    rw taken refl,
    refl,
    refl,
    refl,
    refl,
    refl,
    elim (Bool-cases a.sent) [
      | inl e ↦ elim (Bool-cases a.got) [
        | inl f ↦ ground (arith, e, f)
        | inr f ↦ ground (arith, e, f)
      ]
      | inr e ↦ ground (arith, e)
    ],
  )
  | inr refused ↦ inr (rw refused refl, (refl, refused))
]
run_sched-Ran a (op dst src size) r w = inl (r, refl, refl, refl, refl, refl, refl, w)
run_sched-Ran a (mem dst src size) r w = inl (r, refl, refl, refl, refl, refl, refl, w)
run_sched-Ran a (free src) r w = inl (r, refl, refl, refl, refl, refl, refl, w)

-- A turn, of a request with nothing pending.
pub turn-Turned :
    (answers : Answers) (r : ColReq)
    → waits r ≡ false
    → ((r' : ColReq) × (turn answers r ≡ some r')
        × Turned r r'
        × (waits r' ≡ pends (answers r.cur) (r.next r.cur)))
      ⊎ (turn answers r ≡ none) × Refused (answers r.cur) (r.next r.cur)
unfolding turn
turn-Turned answers r w =
    let s = r.next r.cur in
    let moved = record r { cur = r.cur + 1; done = r.done ++ s ∷ [] } in
    elim (run_sched-Ran (answers r.cur) s moved w) [
      | inl (r', e, a, b, c, d, f, p) ↦
          inl (r', e, record { cur = a; total = b; next = c; flag = d; done = f }, p)
      | inr (e, refused) ↦ inr (e, refused)
    ]

-- An entry is left only in a request that is not flagged.
unflagged : {r : ColReq} → InOrder r → r.cur < r.total → r.flag ≡ 0
unflagged {r} v h = elim (Bool-cases (r.flag == 0)) [
  | inl e ↦ ground (arith, e)
  | inr n ↦ absurd (omega (arith, (v.flagged (ground (arith, n))).0, h))
]

pub after_turn : {r r' : ColReq} → Turned r r' → r.cur < r.total → InOrder r → InOrder r'
after_turn {r} {r'} t h v = record {
  bounded = omega (arith, t.cur, t.total, h);
  ran =
      t.done
      ∙ ap (λ l. l ++ r.next r.cur ∷ []) v.ran
      ∙ ap (λ f. entries f (suc r.cur)) (sym t.next)
      ∙ ap (entries r'.next) {x = suc r.cur} {y = r'.cur} (omega (arith, t.cur));
  flagged = λ f. absurd (f (t.flag ∙ unflagged v h));
}
