-- ===== src/Coll/Plan.antt =====
-- The schedules of src/coll/ialreduce.h, src/coll/ibarrier.h and src/coll/ibcast.h.
use lc.Base.{
  ℕ, zero, suc, ◌+◌, ◌-◌, ◌*◌, ◌/◌, ◌%◌, List, [], ◌∷◌, ◌++◌, Option, none, some, ◌&&◌, ◌==◌, ltb,
  if◌then◌else◌, bit_xor, ◌^◌,
}
use lc.Base.Bits.{pow2}
use lc.Coll.Run.{
  Sched, ColReq, colreq_init, col_add_all, Answers, lc_col_progress, send, recv, sendrecv, op, mem,
  free,
}

-- `8 * sizeof (int) - __builtin_clz(value)`: the number of bits of a value of `fuel` bits.
unfoldable pub bit_length : ℕ → ℕ → ℕ
bit_length zero value = 0
bit_length (suc fuel) value =
    let rest = bit_length fuel (value / 2) in if value == 0 then 0 else suc rest

-- `opal_next_poweroftwo`
unfoldable pub next_poweroftwo : ℕ → ℕ
next_poweroftwo value = if value == 0 then 1 else pow2 (bit_length 32 value)

-- `MCA_COLL_BASE_TAG_IALLREDUCE`, `MCA_COLL_BASE_TAG_IBARRIER` and `MCA_COLL_BASE_TAG_IBCAST`.
abbrev pub tag_iallreduce : ℕ
tag_iallreduce = 1340

abbrev pub tag_ibarrier : ℕ
tag_ibarrier = 1341

abbrev pub tag_ibcast : ℕ
tag_ibcast = 1342

-- The number of a rank in the exchange, `none` for -1.
unfoldable pub new_rank : ℕ → ℕ → Option ℕ
new_rank extra rank =
    if ltb rank (2 * extra)
    then (if rank % 2 == 0 then none else some (rank / 2))
    else some (rank - extra)

-- The rank of a number.
unfoldable pub remote_of : ℕ → ℕ → ℕ
remote_of extra newremote = if ltb newremote extra then newremote * 2 + 1 else newremote + extra

-- The loop over the distances 1, 2, 4, ... below `adjsize`.
unfoldable pub exchange : ℕ → ℕ → ℕ → ℕ → ℕ → ℕ → ℕ → ℕ → ℕ → List Sched
exchange zero distance adjsize extra newrank tmpsend tmprecv count ep = []
exchange (suc fuel) distance adjsize extra newrank tmpsend tmprecv count ep =
    let rest = exchange fuel (distance * 2) adjsize extra newrank tmpsend tmprecv count ep in
    let remote = remote_of extra (bit_xor newrank distance) in
    if ltb distance adjsize
    then sendrecv tmpsend tmprecv count remote tag_iallreduce ep ∷ op tmpsend tmprecv count ∷ rest
    else []

-- `LC_COL_IN_PLACE`, the pointer -1.
abbrev pub in_place : ℕ
in_place = 2 ^ 64 - 1

-- The entries before the exchange, and those after it up to the copy of the result.
unfoldable pub fold_in : ℕ → ℕ → ℕ → ℕ → ℕ → ℕ → List Sched
fold_in extra rank tmpsend tmprecv count ep =
    if ltb rank (2 * extra)
    then (if rank % 2 == 0
        then send tmpsend count (rank + 1) tag_iallreduce ep ∷ []
        else recv tmprecv count (rank - 1) tag_iallreduce ep ∷ op tmpsend tmprecv count ∷ [])
    else []

unfoldable pub fold_out : ℕ → ℕ → ℕ → ℕ → ℕ → ℕ → List Sched
fold_out extra rank tmpsend rbuf count ep =
    if ltb rank (2 * extra)
    then (if rank % 2 == 0
        then recv rbuf count (rank + 1) tag_iallreduce ep ∷ []
        else send tmpsend count (rank - 1) tag_iallreduce ep ∷ [])
    else []

-- The loop with its `if (newrank < 0) break`.
unfoldable pub exchange_if : Option ℕ → ℕ → ℕ → ℕ → ℕ → ℕ → ℕ → List Sched
exchange_if none adjsize extra tmpsend tmprecv count ep = []
exchange_if (some newrank) adjsize extra tmpsend tmprecv count ep =
    exchange 32 1 adjsize extra newrank tmpsend tmprecv count ep

-- The schedule of `iompi_coll_base_allreduce_intra_recursivedoubling` for more than one process.
-- `buf` is what `malloc` returned, so it is `inplacebuf`; after the last receive of an even low
-- rank `tmpsend` is `rbuf`.
unfoldable pub allreduce_schedule : ℕ → ℕ → ℕ → ℕ → ℕ → ℕ → List Sched
allreduce_schedule rank size buf rbuf count ep =
    let adjsize = next_poweroftwo size / 2 in
    let extra = size - adjsize in
    let even_low = ltb rank (2 * extra) && (rank % 2 == 0) in
    let tmpsend = if even_low then rbuf else buf in
    fold_in extra rank buf rbuf count ep
    ++ exchange_if (new_rank extra rank) adjsize extra buf rbuf count ep
    ++ fold_out extra rank buf rbuf count ep
    ++ (if tmpsend == rbuf then [] else mem rbuf tmpsend count ∷ [])
    ++ (if buf == 0 then [] else free buf ∷ [])

-- The whole function, `lc_ialreduce`: the copy that it makes at once, and the request.
unfoldable pub lc_ialreduce : Answers → ℕ → ℕ → ℕ → ℕ → ℕ → ℕ → ℕ → ColReq → Sched × Option ColReq
lc_ialreduce answers rank size sbuf rbuf buf count ep req =
    let from = if sbuf == in_place then rbuf else sbuf in
    let run : Option ColReq =
      elim (col_add_all (colreq_init req) (allreduce_schedule rank size buf rbuf count ep)) [
        | none ↦ none
        | some r ↦ lc_col_progress answers r
      ] in
    if size == 1
    then (mem rbuf sbuf count, some (record req { flag = 1 }))
    else (mem buf from count, run)

-- `to` and `from` of a rank at a distance.
unfoldable pub to_rank : ℕ → ℕ → ℕ → ℕ
to_rank size rank distance = (rank + distance) % size

unfoldable pub from_rank : ℕ → ℕ → ℕ → ℕ
from_rank size rank distance = (rank + size - distance) % size

-- The loop of `iompi_coll_base_barrier_intra_bruck` over the distances below the size.
unfoldable pub barrier_schedule : ℕ → ℕ → ℕ → ℕ → ℕ → ℕ → List Sched
barrier_schedule zero distance size rank empty ep = []
barrier_schedule (suc fuel) distance size rank empty ep =
    let rest = barrier_schedule fuel (distance * 2) size rank empty ep in
    if ltb distance size
    then send empty 1 (to_rank size rank distance) tag_ibarrier ep
      ∷ recv empty 1 (from_rank size rank distance) tag_ibarrier ep
      ∷ rest
    else []

unfoldable pub lc_ibarrier : Answers → ℕ → ℕ → ℕ → ColReq → Option ColReq
lc_ibarrier answers rank size ep req =
    elim (col_add_all (colreq_init req) (barrier_schedule 32 1 size rank req.empty ep)) [
      | none ↦ none
      | some r ↦ lc_col_progress answers r
    ]

-- The root's loop in `iompi_coll_base_bcast_intra_basic_linear`: the ranks from `i` on, `n` of
-- them.
unfoldable pub bcast_sends : ℕ → ℕ → ℕ → ℕ → ℕ → ℕ → List Sched
bcast_sends zero i rank buf count ep = []
bcast_sends (suc n) i rank buf count ep =
    let rest = bcast_sends n (i + 1) rank buf count ep in
    if i == rank then rest else send buf count i tag_ibcast ep ∷ rest

unfoldable pub bcast_schedule : ℕ → ℕ → ℕ → ℕ → ℕ → ℕ → List Sched
bcast_schedule rank size buf count root ep =
    if rank == root
    then bcast_sends size 0 rank buf count ep
    else recv buf count root tag_ibcast ep ∷ []

unfoldable pub lc_ibcast : Answers → ℕ → ℕ → ℕ → ℕ → ℕ → ℕ → ColReq → Option ColReq
lc_ibcast answers rank size buf count root ep req =
    elim (col_add_all (colreq_init req) (bcast_schedule rank size buf count root ep)) [
      | none ↦ none
      | some r ↦ lc_col_progress answers r
    ]
