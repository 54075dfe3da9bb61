-- ===== src/Mpi.antt =====
-- src/mpiv.c and include/mpiv.h: the MPI-like calls with their pool of requests. The layer below
-- has an older interface, whose code is not here: what it is asked to do is recorded in order, and
-- what it answers is an argument, as are the worker and `rand` of include/lc/pool.h. `none` is a
-- call of exit, or a loop that goes on after the last answer.
pub mod Balance
pub mod Loops
pub mod Waitall
pub mod Start
pub mod Taken
pub mod Runs
pub mod Sent
use lc.Base.{
  ℕ, zero, suc, ◌+◌, ◌-◌, ◌*◌, ◌%◌, ◌^◌, List, [], ◌∷◌, ◌++◌, Option, none, some, Bool, true, false,
  ◌==◌, if◌then◌else◌,
}
use lc.Pool.{Pool, Pools, lc_pool_create, lc_pool_get, lc_pool_put}

-- `MPI_REQUEST_NULL`; the other values of `MPI_Request` are addresses of requests.
abbrev pub request_null : ℕ
request_null = 0

-- The calls of the layer below, with the address `ctx` of the request and, for `lc_post`, the
-- counter's value.
pub data Below : Type 0 where
  send_tag : (buf size rank tag ctx : ℕ) → Below
  recv_tag : (buf size rank tag ctx : ℕ) → Below
  thread_yield : Below
  wait_post : (ctx : ℕ) → Below
  post : (ctx count : ℕ) → Below
  sync_wait : (ctx : ℕ) → Below

-- `lc_req_pool`, and the calls so far.
pub record Mpi : Type 0 where
  pub pools : Pools
  pub calls : List Below

abbrev pub ask : Mpi → Below → Mpi
ask s c = record s { calls = s.calls ++ c ∷ [] }

-- `size *= count` of an `int`, as its 32 bits; `MPI_Type_size` gives the datatype itself.
abbrev pub size_of : ℕ → ℕ → ℕ
size_of datatype count = datatype * count % 2 ^ 32

-- `while (!call) thread_yield();`, with the call's answers.
unfoldable pub until_taken : Below → List Bool → Mpi → Option Mpi
until_taken c [] s = none
until_taken c (true ∷ answers) s = some (ask s c)
until_taken c (false ∷ answers) s = until_taken c answers (ask (ask s c) thread_yield)

abbrev pub then_wait : ℕ → Option Mpi → Option Mpi
then_wait ctx none = none
then_wait ctx (some s) = some (ask s (wait_post ctx))

-- The request `ctx` of the blocking calls is a local variable.
unfoldable pub mpi_recv : Mpi → ℕ → ℕ → ℕ → ℕ → ℕ → ℕ → List Bool → Option Mpi
mpi_recv s buffer count datatype rank tag ctx answers =
    then_wait ctx (until_taken (recv_tag buffer (size_of datatype count) rank tag ctx) answers s)

unfoldable pub mpi_send : Mpi → ℕ → ℕ → ℕ → ℕ → ℕ → ℕ → List Bool → Option Mpi
mpi_send s buffer count datatype rank tag ctx answers =
    then_wait ctx (until_taken (send_tag buffer (size_of datatype count) rank tag ctx) answers s)

-- `lc_pool_put(lc_req_pool, ctx)`
unfoldable pub put_request : Mpi → ℕ → ℕ → Option Mpi
put_request s wid ctx = elim (lc_pool_put s.pools wid ctx) [
  | none ↦ none
  | some pools ↦ some (record s { pools = pools })
]

-- The request goes to the caller, or back to the pool when the send is done.
unfoldable pub hand_out : Bool → ℕ → ℕ → Mpi → Option (ℕ × Mpi)
hand_out false wid ctx s = some (ctx, s)
hand_out true wid ctx s = elim (put_request s wid ctx) [
  | none ↦ none
  | some s' ↦ some (request_null, s')
]

-- A request from the pool, for the calls of `start`.
abbrev pub with_request : (ℕ → Mpi → Option (ℕ × Mpi)) → Mpi → Option (ℕ × Pools) → Option (ℕ × Mpi)
with_request start s none = none
with_request start s (some (ctx, pools)) = start ctx (record s { pools = pools })

abbrev pub after_taken : (Mpi → Option (ℕ × Mpi)) → Option Mpi → Option (ℕ × Mpi)
after_taken next none = none
after_taken next (some s) = next s

-- `done` is whether `ctx->type` is LC_REQ_DONE after the send. What is returned first is `*req`.
unfoldable pub mpi_isend :
    Mpi → ℕ → List ℕ → ℕ → ℕ → ℕ → ℕ → ℕ → List Bool → Bool → Option (ℕ × Mpi)
mpi_isend s wid rands buf count datatype rank tag answers done =
    with_request
      (λ ctx s'.
        after_taken (hand_out done wid ctx)
          (until_taken (send_tag buf (size_of datatype count) rank tag ctx) answers s'))
      s (lc_pool_get s.pools wid rands)

unfoldable pub mpi_irecv : Mpi → ℕ → List ℕ → ℕ → ℕ → ℕ → ℕ → ℕ → List Bool → Option (ℕ × Mpi)
mpi_irecv s wid rands buf count datatype rank tag answers =
    with_request
      (λ ctx s'.
        after_taken (hand_out false wid ctx)
          (until_taken (recv_tag buf (size_of datatype count) rank tag ctx) answers s'))
      s (lc_pool_get s.pools wid rands)

-- The entries of the array that are not null: `pending` after the first loop.
unfoldable pub count_pending : List ℕ → ℕ → ℕ
count_pending [] pending = pending
count_pending (r ∷ rs) pending =
    count_pending rs (if r == request_null then pending - 1 else pending)

-- The request is over: it goes back to the pool and its entry becomes null.
abbrev pub release : ℕ → ℕ → ℕ → Mpi → Option (ℕ × ℕ × Mpi)
release wid r count s = elim (put_request s wid r) [
  | none ↦ none
  | some s' ↦ some (request_null, count, s')
]

-- One entry of the second loop: the entry, the counter and the state after it. `ok` is whether
-- `lc_post` returned LC_OK.
unfoldable pub post_one : ℕ → Bool → ℕ → ℕ → Mpi → Option (ℕ × ℕ × Mpi)
post_one wid ok zero count s = some (request_null, count, s)
post_one wid true (suc r) count s =
    release wid (suc r) ((count + 2 ^ 32 - 1) % 2 ^ 32) (ask s (post (suc r) count))
post_one wid false (suc r) count s = some (suc r, count, ask s (post (suc r) count))

-- One entry of the third.
unfoldable pub wait_one : ℕ → ℕ → ℕ → Mpi → Option (ℕ × ℕ × Mpi)
wait_one wid zero count s = some (request_null, count, s)
wait_one wid (suc r) count s = release wid (suc r) count (ask s (sync_wait (suc r)))

abbrev pub entry_first : ℕ → Option (List ℕ × ℕ × Mpi) → Option (List ℕ × ℕ × Mpi)
entry_first r none = none
entry_first r (some (rs, count, s)) = some (r ∷ rs, count, s)

-- The second loop from the entry `i` on, and the third.
unfoldable pub post_all : ℕ → (ℕ → Bool) → ℕ → List ℕ → ℕ → Mpi → Option (List ℕ × ℕ × Mpi)
post_all wid oks i [] count s = some ([], count, s)
post_all wid oks i (r ∷ rs) count s = elim (post_one wid (oks i) r count s) [
  | none ↦ none
  | some (r', count', s') ↦ entry_first r' (post_all wid oks (i + 1) rs count' s')
]

unfoldable pub wait_all : ℕ → List ℕ → ℕ → Mpi → Option (List ℕ × ℕ × Mpi)
wait_all wid [] count s = some ([], count, s)
wait_all wid (r ∷ rs) count s = elim (wait_one wid r count s) [
  | none ↦ none
  | some (r', count', s') ↦ entry_first r' (wait_all wid rs count' s')
]

abbrev pub then_wait_all : ℕ → Option (List ℕ × ℕ × Mpi) → Option (List ℕ × ℕ × Mpi)
then_wait_all wid none = none
then_wait_all wid (some (rs, count, s)) = wait_all wid rs count s

-- The array and the counter after the call, less what the progress thread takes off the counter.
-- `count` is the length of the array.
unfoldable pub mpi_waitall : ℕ → (ℕ → Bool) → List ℕ → ℕ → Mpi → Option (List ℕ × ℕ × Mpi)
mpi_waitall wid oks reqs count s =
    then_wait_all wid (post_all wid oks 0 reqs (count_pending reqs count) s)

abbrev pub num_requests : ℕ
num_requests = 1024

-- `&ctxs[i]`, of requests of `size` bytes.
abbrev pub request_at : ℕ → ℕ → ℕ → ℕ
request_at ctxs size i = (ctxs + i * size) % 2 ^ 64

-- The loop of `MPI_Init`, `n` requests from number `i` on.
unfoldable pub put_requests : ℕ → ℕ → ℕ → ℕ → ℕ → Mpi → Option Mpi
put_requests wid ctxs size zero i s = some s
put_requests wid ctxs size (suc n) i s = elim (put_request s wid (request_at ctxs size i)) [
  | none ↦ none
  | some s' ↦ put_requests wid ctxs size n (i + 1) s'
]

abbrev pub into_pool : ℕ → ℕ → ℕ → (ℕ → ℕ → Option ℕ) → Option (Pool × ℕ) → Option (ℕ × Mpi)
into_pool wid ctxs size tls none = none
into_pool wid ctxs size tls (some (pool, next)) =
    elim (put_requests wid ctxs size num_requests 0
      (record { pools = record { pool = pool; tls = tls }; calls = [] })) [
        | none ↦ none
        | some s ↦ some (next, s)
      ]

-- `ctxs` is what posix_memalign gives; the number that is returned first is the next key of a pool.
unfoldable pub mpi_init : ℕ → ℕ → ℕ → ℕ → (ℕ → ℕ → Option ℕ) → Option (ℕ × Mpi)
mpi_init wid ctxs size nkey tls = into_pool wid ctxs size tls (lc_pool_create nkey)
