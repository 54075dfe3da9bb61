-- ===== src/Coll/Run.antt =====
-- The request of a collective and `lc_col_progress`, of src/coll/common.h.
use lc.Base.{
  ℕ, zero, suc, ◌+◌, ◌-◌, List, [], ◌∷◌, ◌++◌, Option, none, some, Bool, true, false, ◌==◌, ltb,
  if◌then◌else◌,
}
use lc.Engine.{put_at}

-- `lc_col_sched`, by its type.
pub data Sched : Type 0 where
  send recv : (src size rank tag ep : ℕ) → Sched
  sendrecv : (src dst size rank tag ep : ℕ) → Sched
  op mem : (dst src size : ℕ) → Sched
  free : (src : ℕ) → Sched

-- `struct lc_colreq`: `sync0` and `sync1` are `pending[0].sync` and `pending[1].sync`, `empty` the
-- address of that field, and `done` lists what the progress calls have run, oldest first.
pub record ColReq : Type 0 where
  pub flag : ℕ
  pub cur : ℕ
  pub total : ℕ
  pub sync0 : ℕ
  pub sync1 : ℕ
  pub next : ℕ → Sched
  pub empty : ℕ
  pub done : List Sched

-- The size of `next`.
abbrev pub max_sched : ℕ
max_sched = 128

-- `lc_colreq_init`
unfoldable pub colreq_init : ColReq → ColReq
colreq_init r = record r { flag = 0; cur = 0; total = 0; sync0 = 1; sync1 = 1; done = [] }

-- Each of `lc_col_send`, `lc_col_recv`, `lc_col_sendrecv`, `lc_col_op`, `lc_col_memmove` and
-- `lc_col_free` writes its entry at `next[total++]`.
unfoldable pub col_add : ColReq → Sched → Option ColReq
col_add r s =
    if ltb r.total max_sched
    then some (record r { next = put_at r.next r.total s; total = r.total + 1 })
    else none

unfoldable pub col_add_all : ColReq → List Sched → Option ColReq
col_add_all r [] = some r
col_add_all r (s ∷ l) = elim (col_add r s) [ none ↦ none | some r' ↦ col_add_all r' l ]

abbrev pub as_sync : Bool → ℕ
as_sync true = 1
as_sync false = 0

-- What an entry finds: what the calls of `lc_send` return one after the other, true for LC_OK, and
-- whether its send, and its receive, is complete as soon as the call returns.
pub record Answer : Type 0 where
  pub sends : List Bool
  pub sent : Bool
  pub got : Bool

abbrev pub Answers : Type 0
Answers = ℕ → Answer

-- LC_SAFE, `while (lc_send(...) != LC_OK)`: whether it is left with one of the calls.
unfoldable pub lc_safe : List Bool → Bool
lc_safe [] = false
lc_safe (true ∷ l) = true
lc_safe (false ∷ l) = lc_safe l

-- The `switch`; `none` is an LC_SAFE that is not left.
unfoldable pub run_sched : Answer → Sched → ColReq → Option ColReq
run_sched a (send src size rank tag ep) r =
    if lc_safe a.sends then some (record r { sync0 = as_sync a.sent }) else none
run_sched a (recv src size rank tag ep) r = some (record r { sync0 = as_sync a.got })
run_sched a (sendrecv src dst size rank tag ep) r =
    if lc_safe a.sends
    then some (record r { sync0 = as_sync a.sent; sync1 = as_sync a.got })
    else none
run_sched a (op dst src size) r = some r
run_sched a (mem dst src size) r = some r
run_sched a (free src) r = some r

-- `!req->pending[0].sync || !req->pending[1].sync`
abbrev pub waits : ColReq → Bool
waits r = if r.sync0 == 0 then true else r.sync1 == 0

-- One turn of the loop up to its last test.
unfoldable pub turn : Answers → ColReq → Option ColReq
turn answers r =
    let s = r.next r.cur in
    run_sched (answers r.cur) s (record r { cur = r.cur + 1; done = r.done ++ s ∷ [] })

-- The `while`, on fuel.
unfoldable pub col_loop : ℕ → Answers → ColReq → Option ColReq
col_loop zero answers r = none
col_loop (suc fuel) answers r =
    let run : Option ColReq = elim (turn answers r) [
      | none ↦ none
      | some r' ↦ elim (waits r') [ true ↦ some r' | false ↦ col_loop fuel answers r' ]
    ] in
    if ltb r.cur r.total then run else some (record r { flag = 1 })

unfoldable pub lc_col_progress : Answers → ColReq → Option ColReq
lc_col_progress answers r =
    let run = col_loop (r.total - r.cur + 1) answers r in if waits r then some r else run
