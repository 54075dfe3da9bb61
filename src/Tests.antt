-- ===== src/Tests.antt =====
-- Runs at concrete inputs. The data: a small process with one packet, 100, whose own request is
-- at 116, and one endpoint, 2, that has explicit addressing and synchronous completion.
mod Queues
mod Table
mod Messages
mod Collectives
mod Reductions
mod Locks
mod Servers
mod Pools
mod LongSizes
mod Ibv
mod Devices
mod Connections
mod Delivery
mod Long
mod Requests
mod Opening
use lc.Base.{ℕ, List, [], ◌∷◌, Bool, true, false, ◌==◌, if◌then◌else◌}
use lc.Cq.{cq_init}
use lc.Endpoint.{Ep}
use lc.Engine.{Req, Rtr, Packet, Payload, buffer, rts, Call, World, Build, no_pool}
use lc.HashTable.{lc_hash_create}
use lc.Calls.{Env, Rep}

abbrev pub blank_req : Req
blank_req = record {
  sync = 0;
  buffer = 0;
  ctx = 0;
  parent = 0;
  rhandle = 0;
  size = 0;
  rank = 0;
  meta = 0;
}

abbrev pub own_req : Req
own_req = record blank_req { size = 3; rank = 1 }

abbrev pub packet : Packet
packet = record {
  req = 116;
  ep = 2;
  rma_mem = 0;
  proto = 0;
  poolid = no_pool;
  ref = 1;
  payload = buffer (7 ∷ 8 ∷ 9 ∷ []);
}

abbrev pub endpoint : Ep
endpoint = record {
  cap = 36;
  gid = 2;
  completed = 0;
  server = 0;
  alloc = λ size. (9000, 0);
  tbl = lc_hash_create;
  handler = 0;
  cq = cq_init;
}

abbrev pub world : World
world = record {
  packets = λ _. packet;
  reqs = λ r. if r == 116 then own_req else blank_req;
  memory = λ _. 1 ∷ 2 ∷ 3 ∷ 4 ∷ [];
  eps = λ _. endpoint;
  heap = 64;
  mem_at = λ addr size. 4000;
  rkey_of = λ mem. 77;
  calls = [];
}

-- The default build of config.mk: dynamic and explicit, sync and cq.
abbrev pub build : Build
build = record {
  has_exp = true;
  has_dyn = true;
  has_imm = false;
  has_sync = true;
  has_cq = true;
  has_am = false;
  has_glob = false;
}

abbrev pub env : Env
env = record {
  deadlock = false;
  got = 100;
  local = 0;
  rep = λ _. record { handle = 55; base = 1000; rkey = 66 };
}
