-- ===== src/Ibv/Connect.antt =====
-- How the processes of a job connect their queue pairs in `lc_server_init` of
-- src/include/server/server_ibv.h: each publishes a name for each peer, and reads the peers' names
-- for itself. `none` is a name that is not there or does not scan.
pub mod Paired
use lc.Base.{ℕ, zero, suc, ◌+◌, ◌*◌, ◌%◌, ◌^◌, List, [], ◌∷◌, Option, none, some, bit_or}
use lc.Pm.{Kvs, lc_pm_publish, lc_pm_getname}
use lc.Ibv.Names.{ConnCtx, ep_name, scan_name}

-- The servers of the processes: the heap and its key, the port's identifier, and the number of the
-- queue pair that a process keeps for a peer.
pub record Job : Type 0 where
  pub heap_of : ℕ → ℕ
  pub rkey_of : ℕ → ℕ
  pub lid_of : ℕ → ℕ
  pub qp_num : ℕ → ℕ → ℕ

-- `lctx` of a process, for a peer.
abbrev pub lctx : Job → ℕ → ℕ → ConnCtx
lctx job me i = record {
  addr = job.heap_of me;
  rkey = job.rkey_of me;
  qp_num = job.qp_num me i;
  lid = job.lid_of me;
}

-- `(s->id) << 8 | i`
unfoldable pub gid_of : ℕ → ℕ → ℕ
gid_of id i = bit_or (id * 2 ^ 8 % 2 ^ 32) i

-- `struct lci_rep` with the queue pair that it was connected to, `dest_qp_num`.
pub record Link : Type 0 where
  pub rank : ℕ
  pub handle : ℕ
  pub rkey : ℕ
  pub base : ℕ
  pub dest : ℕ

abbrev pub link_of : (ℕ → ℕ) → ℕ → ConnCtx → Link
link_of qp i c = record { rank = i; handle = qp i; rkey = c.rkey; base = c.addr; dest = c.qp_num }

abbrev pub add_link : Link → Option (List Link) → Option (List Link)
add_link l none = none
add_link l (some ls) = some (l ∷ ls)

abbrev pub scanned : Option (List ℕ) → Option ConnCtx
scanned none = none
scanned (some t) = scan_name t

module _ (kvs : Kvs) (job : Job) (id : ℕ) where
  open kvs use {Space}

  -- The first loop of process `me`, at peer `i`.
  unfoldable pub publish : Space → ℕ → ℕ → Space
  publish s me i = lc_pm_publish kvs s me (gid_of id i) (ep_name (lctx job me i))

  -- The publications of all processes, as pairs of a process and a peer, in the order in which the
  -- space gets them.
  pub publish_all : Space → List (ℕ × ℕ) → Space
  publish_all s [] = s
  publish_all s ((me, i) ∷ order) = publish_all (publish s me i) order

  -- The second loop of process `me`, over `n` peers from `i` on.
  unfoldable pub peer : Space → ℕ → ℕ → Option ConnCtx
  peer s me i = scanned (lc_pm_getname kvs s i (gid_of id me))

  pub connect : Space → (ℕ → ℕ) → ℕ → ℕ → ℕ → Option (List Link)
  connect s qp me zero i = some []
  connect s qp me (suc n) i = elim (peer s me i) [
    | none ↦ none
    | some c ↦ add_link (link_of qp i c) (connect s qp me n (i + 1))
  ]
