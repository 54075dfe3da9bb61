-- ===== src/Ibv/Open.antt =====
-- `lc_server_init` of src/include/server/server_ibv.h with the queue pairs' functions of
-- server_ibv_helper.h. What the verbs library answers is an argument; of the calls, those that
-- change a queue pair's state are recorded. `none` is a call of exit, a NULL that is followed, or a
-- name that is not there or does not scan.
pub mod History
pub mod Loops
pub mod Port
pub mod Ready
use lc.Base.{
  ℕ, zero, suc, ◌+◌, ◌^◌, List, [], ◌∷◌, ◌++◌, Option, none, some, Bool, true, false, not, ◌&&◌,
  ◌==◌, ltb, if◌then◌else◌,
}
use lc.Engine.{put_at}
use lc.Calls.{max_inline}
use lc.Pm.{Kvs, lc_pm_publish, lc_pm_getname}
use lc.Ibv.{Server}
use lc.Ibv.Names.{ConnCtx, ep_name}
use lc.Ibv.Connect.{Link, link_of, gid_of, scanned}
use lc.Ibv.Ranks.{init_ranks}

-- The attributes of ibv_modify_qp that are not the same for all queue pairs, by the state:
-- IBV_QPS_INIT, IBV_QPS_RTR and IBV_QPS_RTS.
pub data QpAttr : Type 0 where
  to_init : (port : ℕ) → QpAttr
  to_rtr : (port mtu dest_qp_num dlid : ℕ) → QpAttr
  to_rts : QpAttr

-- What the library answers: handles, of which NULL is 0, return codes, and what it writes. A queue
-- pair is created for each rank; `num_devices` is 0 where it is not positive.
pub record Library : Type 0 where
  pub num_devices : ℕ
  pub dev_ctx : ℕ
  pub query_device : ℕ
  pub query_port : ℕ → ℕ
  pub lid_at : ℕ → ℕ
  pub mtu_at : ℕ → ℕ
  pub dev_pd : ℕ
  pub dev_srq : ℕ
  pub send_cq : ℕ
  pub recv_cq : ℕ
  pub heap : ℕ
  pub heap_addr : ℕ
  pub heap_lkey : ℕ
  pub heap_rkey : ℕ
  pub create_qp : ℕ → ℕ
  pub max_inline_data : ℕ → ℕ
  pub qp_num : ℕ → ℕ
  pub modify_qp : ℕ → QpAttr → ℕ

-- The server with what is set up beside it: `s->rep`, and the calls of ibv_modify_qp.
pub record Opened : Type 0 where
  pub server : Server
  pub reps : List Link
  pub setup : List (ℕ × QpAttr)

-- The loop over the ports, `n` from `port` on.
unfoldable pub find_port : Library → ℕ → ℕ → Option ℕ
find_port a zero port = none
find_port a (suc n) port =
    let rest = find_port a n (port + 1) in if a.query_port port == 0 then some port else rest

-- What has to be there before the heap is used.
abbrev pub can_open : Library → Bool
can_open a = not (a.num_devices == 0) && not (a.dev_ctx == 0) && (a.query_device == 0)

abbrev pub has_queues : Library → Bool
has_queues a =
    not (a.dev_pd == 0)
    && not (a.dev_srq == 0)
    && not (a.send_cq == 0)
    && not (a.recv_cq == 0)
    && not (a.heap == 0)

-- The port, once the device, its queues and its heap are there.
unfoldable pub open_device : Library → Option ℕ
open_device a =
    let port : Option ℕ = find_port a 128 0 in
    if can_open a then (if has_queues a then port else none) else none

-- `qp_create`
unfoldable pub qp_create : Library → ℕ → Opened → Option Opened
qp_create a i o =
    let cap = a.max_inline_data i in
    if a.create_qp i == 0
    then none
    else some (record o {
      server = record (o.server) {
        qp = put_at o.server.qp i (a.create_qp i);
        max_inline = if ltb cap max_inline then cap else max_inline;
      };
    })

-- `qp_init`, `qp_to_rtr` and `qp_to_rts`
unfoldable pub modify : Library → ℕ → QpAttr → Opened → Option Opened
modify a qp attr o =
    if a.modify_qp qp attr == 0
    then some (record o { setup = o.setup ++ (qp, attr) ∷ [] })
    else none

abbrev pub and_then : Option Opened → (Opened → Option Opened) → Option Opened
and_then none f = none
and_then (some o) f = f o

-- One turn of the first loop, but for the name.
unfoldable pub new_qp : Library → ℕ → ℕ → Opened → Option Opened
new_qp a port i o = and_then (qp_create a i o) (λ o'. modify a (o'.server.qp i) (to_init port) o')

-- One turn of the second, with the name that was read.
unfoldable pub connect_qp : Library → ℕ → ℕ → Opened → ConnCtx → Option Opened
connect_qp a port i o c =
    and_then
      (and_then (modify a (o.server.qp i) (to_rtr port (a.mtu_at port) c.qp_num c.lid) o)
        (λ o'. modify a (o'.server.qp i) to_rts o'))
      (λ o'. some (record o' { reps = o'.reps ++ link_of o'.server.qp i c ∷ [] }))

-- `lctx`, for the queue pair.
abbrev pub name_of : Library → ℕ → ℕ → ConnCtx
name_of a port qp = record {
  addr = a.heap_addr;
  rkey = a.heap_rkey;
  qp_num = a.qp_num qp;
  lid = a.lid_at port;
}

-- The server before the loops; `lcg_deadlock` is down from the start.
abbrev pub first_server : Library → Opened
first_server a = record {
  server = record {
    heap = a.heap_addr;
    heap_lkey = a.heap_lkey;
    max_inline = 0;
    qp = λ i. 0;
    qp2rank = [];
    qp2rank_mod = 0;
    recv_posted = 0;
    ninline = 0;
    deadlock = false;
    verbs = [];
  };
  reps = [];
  setup = [];
}

-- The numbers of the queue pairs by rank, `n` from `i` on.
unfoldable pub qp_nums : Library → Server → ℕ → ℕ → List ℕ
qp_nums a s zero i = []
qp_nums a s (suc n) i = a.qp_num (s.qp i) ∷ qp_nums a s n (i + 1)

abbrev pub with_server : Opened → Option Server → Option Opened
with_server o none = none
with_server o (some s) = some (record o { server = s })

-- Process `me` of `size`, for its device number `id`.
module _ (kvs : Kvs) (a : Library) (id me : ℕ) where
  open kvs use {Space}

  unfoldable pub create_all : ℕ → ℕ → ℕ → Opened → Space → Option (Opened × Space)
  create_all port zero i o s = some (o, s)
  create_all port (suc n) i o s = elim (new_qp a port i o) [
    | none ↦ none
    | some o' ↦
        create_all port n (i + 1) o'
          (lc_pm_publish kvs s me (gid_of id i) (ep_name (name_of a port (o'.server.qp i))))
  ]

  unfoldable pub connect_all : ℕ → ℕ → ℕ → Opened → Space → Option Opened
  connect_all port zero i o s = some o
  connect_all port (suc n) i o s = elim (scanned (lc_pm_getname kvs s i (gid_of id me))) [
    | none ↦ none
    | some c ↦ elim (connect_qp a port i o c) [
      | none ↦ none
      | some o' ↦ connect_all port n (i + 1) o' s
    ]
  ]

  -- The loops after the first, in the space that the other processes have made of `s`.
  abbrev pub after_names : ℕ → ℕ → ℕ → (Space → Space) → Option (Opened × Space) → Option Opened
  after_names fuel port size others none = none
  after_names fuel port size others (some (o, s)) = elim (connect_all port size 0 o (others s)) [
    | none ↦ none
    | some o' ↦ with_server o' (init_ranks fuel o'.server (qp_nums a o'.server size 0))
  ]

  abbrev pub at_port : ℕ → ℕ → (Space → Space) → Space → Option ℕ → Option Opened
  at_port fuel size others s none = none
  at_port fuel size others s (some port) =
      after_names fuel port size others (create_all port size 0 (first_server a) s)

  unfoldable pub lc_server_init : ℕ → ℕ → (Space → Space) → Space → Option Opened
  lc_server_init fuel size others s = at_port fuel size others s (open_device a)
