-- ===== src/Tests/Opening.antt =====
-- A process of two on a library whose second port answers; the name of every peer is the same.
use lc.Base.{ℕ, ◌+◌, ◌^◌, ◌≡◌, refl, List, Option, none, some, arith, ◌==◌, if◌then◌else◌}
use lc.Pm.{lc_pm_getname}
use lc.Ibv.Names.{ConnCtx, ep_name, scan-ep_name}
use lc.Ibv.Connect.{gid_of, scanned}
use lc.Ibv.Open.{Library, Opened, lc_server_init}
use lc.Ibv.Open.History.{Apart}
use lc.Ibv.Open.Loops.{Grants, publish_names}
use lc.Ibv.Open.Port.{Opens}
use lc.Ibv.Open.Ready.{IsReady, lc_server_init-IsReady}
use lc.Tests.Connections.{space}

abbrev library : Library
library = record {
  num_devices = 2;
  dev_ctx = 11;
  query_device = 0;
  query_port = λ p. if p == 0 then 22 else 0;
  lid_at = λ p. 17;
  mtu_at = λ p. 4;
  dev_pd = 12;
  dev_srq = 13;
  send_cq = 14;
  recv_cq = 15;
  heap = 16;
  heap_addr = 2 ^ 20;
  heap_lkey = 5;
  heap_rkey = 6;
  create_qp = λ i. 50 + i;
  max_inline_data = λ i. 60;
  qp_num = λ h. h + 100;
  modify_qp = λ h x. 0;
}

opens : Opens library 1
opens = record {
  can = refl;
  queues = refl;
  closed = λ q h. ground arith;
  answers = refl;
  below = omega arith;
}

grants : Grants library 2
grants = record { created = λ i h e. omega (arith, e); modified = λ qp x. refl }

apart : Apart library.create_qp 2
apart i j h k ne e = ne (omega (arith, e))

abbrev named : ConnCtx
named = record { addr = 2 ^ 30; rkey = 7; qp_num = 8; lid = 9 }

-- The space once every process has written its names.
abbrev written : (List ℕ → Option (List ℕ)) → List ℕ → Option (List ℕ)
written s k = some (ep_name named)

named_lem :
    (j : ℕ)
    → scanned (
        lc_pm_getname space
          (written (publish_names space library 0 0 1 2 0 (λ k. none)))
          j
          (gid_of 0 0))
      ≡ some named
unfolding lc_pm_getname
named_lem j = (scan-ep_name named (omega arith) (omega arith) (omega arith) (omega arith)).0

lc_server_init-IsReady_example :
    (o : Opened) × (lc_server_init space library 0 0 152 2 written (λ k. none) ≡ some o)
    × IsReady library 1 2 (λ j. named) o
lc_server_init-IsReady_example =
    lc_server_init-IsReady space library 0 0 1 2 152 152 (λ j. named) written (λ k. none) opens
      grants apart (omega arith) (omega arith) (omega arith, (omega arith, tt))
      ((λ e. omega (arith, e), tt), (tt, tt)) (λ j h. named_lem j)
