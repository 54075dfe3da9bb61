-- ===== src/Coll/Wait.antt =====
-- The blocking calls of src/coll.c: lc_alreduce, lc_barrier and lc_bcast.
use lc.Base.{
  ℕ, suc, ◌+◌, ◌^◌, ◌≤◌, ◌<◌, ◌≡◌, ◌≢◌, ◌⊎◌, inl, inr, refl, sym, ap, ◌∙◌, List, [], ◌∷◌, Option,
  none, some, Bool, true, false, ◌&&◌, ◌==◌, if◌then◌else◌, Bool-cases, arith, length,
}
use lc.Coll.{
  Sched, ColReq, Answers, waits, lc_safe, lc_col_progress, allreduce_schedule, barrier_schedule,
  bcast_schedule, lc_ialreduce, lc_ibarrier, lc_ibcast,
}
use lc.Coll.Schedule.{entries}
use lc.Coll.Fits.{IsReady, allreduce-IsReady, barrier-IsReady, bcast-IsReady}
use lc.Coll.Turns.{InOrder}
use lc.Coll.Progress.{lc_col_progress-Progressed, lc_col_progress-waits}

-- One turn of `while (!req.flag) lc_col_progress(&req)`: whether the two pending operations have
-- been signalled before the call, and what the call finds.
pub record Turn : Type 0 where
  pub sent : Bool
  pub got : Bool
  pub answers : Answers

abbrev pub signalled : Turn → ColReq → ColReq
signalled t r = record r {
  sync0 = if t.sent then 1 else r.sync0;
  sync1 = if t.got then 1 else r.sync1;
}

-- The loop, `none` when the turns run out.
unfoldable pub wait_flag : List Turn → ColReq → Option ColReq
wait_flag [] r = if r.flag == 0 then none else some r
wait_flag (t ∷ ts) r =
    let rest : Option ColReq = elim (lc_col_progress t.answers (signalled t r)) [
      | none ↦ none
      | some r' ↦ wait_flag ts r'
    ] in
    if r.flag == 0 then rest else some r

unfoldable pub wait_for : List Turn → Option ColReq → Option ColReq
wait_for ts none = none
wait_for ts (some r) = wait_flag ts r

unfoldable pub lc_alreduce :
    List Turn → Answers → ℕ → ℕ → ℕ → ℕ → ℕ → ℕ → ℕ → ColReq → Sched × Option ColReq
lc_alreduce ts answers rank size sbuf rbuf buf count ep req =
    let (copy, run) = lc_ialreduce answers rank size sbuf rbuf buf count ep req in
    (copy, wait_for ts run)

unfoldable pub lc_barrier : List Turn → Answers → ℕ → ℕ → ℕ → ColReq → Option ColReq
lc_barrier ts answers rank size ep req = wait_for ts (lc_ibarrier answers rank size ep req)

unfoldable pub lc_bcast : List Turn → Answers → ℕ → ℕ → ℕ → ℕ → ℕ → ℕ → ColReq → Option ColReq
lc_bcast ts answers rank size buf count root ep req =
    wait_for ts (lc_ibcast answers rank size buf count root ep req)

-- The turns before which all that is pending has been signalled.
abbrev pub complete : List Turn → ℕ
complete [] = 0
complete (t ∷ ts) = if t.sent && t.got then suc (complete ts) else complete ts

-- Each send at a call of `lc_col_progress` is taken after finitely many refusals.
abbrev pub Takes : Answers → Type 0
Takes answers = (i : ℕ) → lc_safe (answers i).sends ≡ true

abbrev pub AllTake : List Turn → Type 0
AllTake [] = Unit
AllTake (t ∷ ts) = Takes t.answers × AllTake ts

-- The call has returned, and what it ran is the schedule.
pub record Done (l : List Sched) (o : Option ColReq) : Type 0 where
  pub req : ColReq
  pub returned : o ≡ some req
  pub flag : req.flag ≢ 0
  pub ran : req.done ≡ l

signalled-InOrder : (t : Turn) (r : ColReq) → InOrder r → InOrder (signalled t r)
signalled-InOrder t r v = record {
  bounded = v.bounded;
  ran = v.ran;
  flagged = λ f. ((v.flagged f).0, ground (arith, (v.flagged f).1));
}

wait_flag-flagged : (ts : List Turn) (r : ColReq) → r.flag ≢ 0 → wait_flag ts r ≡ some r
unfolding wait_flag
wait_flag-flagged [] r h = ground (arith, h)
wait_flag-flagged (t ∷ ts) r h = ground (arith, h)

wait_flag-turn :
    (t : Turn) (ts : List Turn) (r r' : ColReq)
    → r.flag ≡ 0
    → lc_col_progress t.answers (signalled t r) ≡ some r'
    → wait_flag (t ∷ ts) r ≡ wait_flag ts r'
unfolding wait_flag
wait_flag-turn t ts r r' h e = rw e (ground (arith, h))

moved : {l l' : List Sched} {o o' : Option ColReq} → o' ≡ o → l ≡ l' → Done l o → Done l' o'
moved e f d = record { req = d.req; returned = e ∙ d.returned; flag = d.flag; ran = d.ran ∙ f }

flagged-Done :
    (ts : List Turn) (r : ColReq)
    → InOrder r
    → r.flag ≢ 0
    → Done (entries r.next r.total) (wait_flag ts r)
flagged-Done ts r v h = record {
  req = r;
  returned = wait_flag-flagged ts r h;
  flag = h;
  ran = v.ran ∙ ap (entries r.next) (v.flagged h).0;
}

-- While what is pending has not been signalled a turn changes nothing, and otherwise it runs an
-- entry or raises the flag.
waiting-complete :
    (t : Turn) (ts : List Turn) (r : ColReq)
    → waits (signalled t r) ≡ true
    → complete (t ∷ ts) ≡ complete ts
waiting-complete t ts r w = ground (arith, w)

complete-at_most : (t : Turn) (ts : List Turn) → complete (t ∷ ts) ≤ suc (complete ts)
complete-at_most t ts = ground arith

wait_flag-Done :
    (ts : List Turn) (r : ColReq)
    → InOrder r
    → AllTake ts
    → r.total < r.cur + complete ts
    → Done (entries r.next r.total) (wait_flag ts r)
wait_flag-Done [] r v k h = absurd (omega (arith, v.bounded))
wait_flag-Done (t ∷ ts) r v k h = elim (Bool-cases (r.flag == 0)) [
  | inr up ↦ flagged-Done (t ∷ ts) r v (ground (arith, up))
  | inl down ↦
      let r0 = signalled t r in
      let low : r.flag ≡ 0 = ground (arith, down) in
      elim (Bool-cases (waits r0)) [
        | inl w ↦ moved (wait_flag-turn t ts r r0 low (lc_col_progress-waits t.answers r0 w)) refl (
            wait_flag-Done ts r0 (signalled-InOrder t r v) k.1
              (omega (arith, waiting-complete t ts r w)))
        | inr n ↦
            let p =
              lc_col_progress-Progressed t.answers r0 (signalled-InOrder t r v) n
                (λ i _ _ _. k.0 i) in
            moved (wait_flag-turn t ts r p.req low p.returned)
              (λ i. entries (p.same.0 i) (p.same.1 i))
              (elim p.ended [
                | inl (_, low, more, _) ↦
                    wait_flag-Done ts p.req p.in_order k.1
                      (omega (arith, complete-at_most t ts, low, more, p.same.1))
                | inr (flag, _, _) ↦ flagged-Done ts p.req p.in_order (λ e. omega (arith, flag, e))
              ])
      ]
]

-- The first call of `lc_col_progress`, on a request that is ready, and the loop after it.
ready-InOrder : {l : List Sched} {o : Option ColReq} (h : IsReady l o) → InOrder h.req
ready-InOrder h = record {
  bounded = omega (arith, h.cur);
  ran = h.done ∙ sym (ap (entries h.req.next) h.cur);
  flagged = λ f. absurd (f h.flag);
}

ready-waits : {l : List Sched} {o : Option ColReq} (h : IsReady l o) → waits h.req ≡ false
ready-waits h = ground (arith, h.sync0, h.sync1)

wait_for-Done :
    (ts : List Turn) (answers : Answers) (l : List Sched) (o : Option ColReq)
    → IsReady l o
    → Takes answers
    → AllTake ts
    → length l < complete ts
    → Done l (wait_for ts (elim o [ none ↦ none | some r ↦ lc_col_progress answers r ]))
unfolding wait_for
wait_for-Done ts answers l o h first k enough =
    let p =
      lc_col_progress-Progressed answers h.req (ready-InOrder h) (ready-waits h)
        (λ i _ _ _. first i) in
    moved {l = entries p.req.next p.req.total} {o = wait_flag ts p.req}
      (rw (h.written, p.returned) refl) ((λ i. entries (p.same.0 i) (p.same.1 i)) ∙ h.held)
      (wait_flag-Done ts p.req p.in_order k (omega (arith, enough, p.same.1, h.total, p.ahead)))

-- The blocking allreduce, barrier and broadcast of 2 to 2^31 - 1 processes, the broadcast at
-- another rank than the root or among at most 129 processes: where at each call of lc_col_progress
-- the layer below takes a send after finitely many refusals, once all that is pending has been
-- signalled before more of these calls than each schedule has entries, whatever is signalled before
-- the others, they have returned, and what has run is the whole schedule in order.
pub blocking-Done :
    (ts : List Turn) (answers : Answers) (rank size sbuf rbuf buf count root ep : ℕ) (req : ColReq)
    → Takes answers
    → AllTake ts
    → 1 < size
    → size < 2 ^ 31
    → rank < size
    → let reduce = allreduce_schedule rank size buf rbuf count ep in
      let meet = barrier_schedule 32 1 size rank req.empty ep in
      let spread = bcast_schedule rank size buf count root ep in
      (rank ≢ root) ⊎ (size ≤ 129)
      → length reduce < complete ts
      → length meet < complete ts
      → length spread < complete ts
      → Done reduce (lc_alreduce ts answers rank size sbuf rbuf buf count ep req).1
        × Done meet (lc_barrier ts answers rank size ep req)
        × Done spread (lc_bcast ts answers rank size buf count root ep req)
unfolding lc_alreduce lc_barrier lc_bcast lc_ialreduce lc_ibarrier lc_ibcast
blocking-Done ts answers rank size sbuf rbuf buf count root ep req first k some_ranks bound r fits
      enough enough_met enough_spread =
    let reduce : List Sched = allreduce_schedule rank size buf rbuf count ep in
    let meet : List Sched = barrier_schedule 32 1 size rank req.empty ep in
    let spread : List Sched = bcast_schedule rank size buf count root ep in
    (
      moved (ground arith) refl (
          wait_for-Done ts answers reduce _
            (allreduce-IsReady req rank size buf rbuf count ep (omega arith) bound) first k enough),
      wait_for-Done ts answers meet _ (barrier-IsReady req rank size ep bound) first k enough_met,
      wait_for-Done ts answers spread _ (bcast-IsReady req rank size buf count root ep r fits) first
          k enough_spread,
    )
