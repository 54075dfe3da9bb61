-- ===== src/Tests/Servers.antt =====
-- The psm2 server of rank 1, with 40 receives posted.
use lc.Base.{◌+◌, ◌≡◌, refl, [], ◌∷◌, some, false, arith}
use lc.Engine.{World, memcpy}
use lc.Psm2.{Server, received, tag_srdma, lc_server_post_recv}
use lc.Psm2.Progress.{put, Status2, own_req, on_recv}
use lc.Psm2.Posted.{packet_recvs, used, drift, on_recv-posted}
use lc.Tests.{build, world}

abbrev pub server : Server
server = record {
  me = 1;
  heap = 4096;
  recv_posted = 40;
  mrs = λ _. record { addr = 0; size = 0; rkey = 0 };
  next_key = 5;
  deadlock = false;
  mq = [];
}

-- Three bytes put at offset 64 of the heap.
abbrev status : Status2
status = record { context = received 100; tag = tag_srdma 64; length = 3; peer = 55 }

abbrev written : World
written = memcpy (own_req world 100) 4160 (7 ∷ 8 ∷ 9 ∷ []) 3

put_returns :
    on_recv put build server world 100 status ≡ some (lc_server_post_recv server 100, written)
unfolding on_recv
put_returns = refl

on_recv-posted_example :
    (lc_server_post_recv server 100).recv_posted + used put + packet_recvs server.mq
    ≡ server.recv_posted + packet_recvs (lc_server_post_recv server 100).mq + drift put
on_recv-posted_example =
    on_recv-posted put build server (lc_server_post_recv server 100) world written 100 status
      (λ e. omega (arith, e)) (omega arith) (omega arith) (omega arith) put_returns
