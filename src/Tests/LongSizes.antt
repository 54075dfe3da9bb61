-- ===== src/Tests/LongSizes.antt =====
-- A receive of 6000 bytes under tag 9 with request 7, and a request to send of 5000 bytes.
use lc.Base.{ℕ, refl, arith}
use lc.Engine.{Rtr, rts, World}
use lc.HashTable.{Table, client, server, make_key, lc_hash_create}
use lc.HashTable.Keys.{IsKey, make_key_sum}
use lc.HashTable.Rendezvous.{pending-create}
use lc.Calls.Request.{Asked, Agreed, recv_then_request}
use lc.Calls.Request.Posted.{posted_first}
use lc.Tests.{build, env, world, packet, endpoint}

abbrev key : ℕ
key = make_key 1 9

key-IsKey : IsKey key
key-IsKey = omega (arith, make_key_sum 1 9)

abbrev request : Rtr
request = record {
  cb = 30;
  ce = 31;
  src_addr = 500;
  size = 5000;
  tgt_addr = 0;
  rkey = 0;
  comm_id = 0;
}

abbrev with_table : Table → World
with_table t = record world {
  packets = λ _. record packet { payload = rts request };
  eps = λ _. record endpoint { tbl = t };
}

waiting : Asked build (with_table lc_hash_create) 2 100 7 1 9 request
waiting = record {
  small_gid = omega arith;
  small_tag = omega arith;
  explicit = refl;
  own = refl;
  from = refl;
  filled = refl;
  apart = λ e. omega (arith, e);
  key = key-IsKey;
  no_client = pending-create key client;
  no_server = pending-create key server;
}

posted_first_example :
    Agreed
      (with_table lc_hash_create)
      2
      100
      7
      800
      55
      6000
      request
      (recv_then_request build env (with_table lc_hash_create) 2 100 7 800 6000 1 9)
posted_first_example =
    posted_first build env (with_table lc_hash_create) 2 100 7 800 6000 1 9 request waiting
