-- ===== src/Tests/Delivery.antt =====
-- Three bytes from 500 at process 1 under tag 9, to 800 at a process that knows its queue pair.
use lc.Base.{[], ◌∷◌, false, refl, arith, some, sym, ◌∙◌, ◌≡◌}
use mathlib.Core.Path.{subst}
use mathlib.Core.Option.{some-injective}
use lc.Cq.{Status, ok}
use lc.Wire.{make_proto, proto_data}
use lc.Engine.{World, buffer}
use lc.HashTable.{client, server, make_key}
use lc.HashTable.Keys.{make_key_sum}
use lc.HashTable.Rendezvous.{pending-create}
use lc.Calls.{lc_send, lc_sends, call_back}
use lc.Calls.Rendezvous.{HasPacket}
use lc.Ibv.{Server, lc_server_sends}
use lc.Ibv.Progress.{Wc, rank_of}
use lc.Ibv.Serve.{serve, serve_all}
use lc.Ibv.Delivery.{Open, Brought, Received, recv_then_notice, notice_then_recv, send-Received}
use lc.Tests.{world, build, env, packet}
use lc.Tests.Ibv as IbvTests

abbrev sent : World
sent = (call_back 30 31 (lc_sends env world 500 3 1 9 2)).1

abbrev notice : Wc
notice = record {
  wr_id = 100;
  with_imm = false;
  qp_num = 10;
  byte_len = 3;
  imm_data = make_proto 2 proto_data 9;
}

-- The one queue pair is that of rank 1.
abbrev receiver : Server
receiver = record IbvTests.server { qp2rank = 1 ∷ [] }

abbrev filled : World
filled = record world { packets = λ _. record packet { payload = buffer (1 ∷ 2 ∷ 3 ∷ []) } }

ready_to_hear : Open build filled 2 100 7 1 9
ready_to_hear = record {
  small_gid = omega arith;
  small_tag = omega arith;
  explicit = refl;
  signals = refl;
  not_glob = refl;
  apart = λ e. omega (arith, e);
  key = omega (arith, make_key_sum 1 9);
  no_client = pending-create (make_key 1 9) client;
  no_server = pending-create (make_key 1 9) server;
}

pub has_packet : HasPacket env 100
has_packet = record { free = refl; got = refl; there = λ e. omega (arith, e) }

went : lc_send env world 500 3 1 9 2 30 31 ≡ some (ok, sent)
unfolding lc_send lc_sends
went = ground arith

brought : Brought IbvTests.registrar IbvTests.server sent 3 filled notice
unfolding lc_sends serve_all serve lc_server_sends
brought = record { notice = (refl, refl); byte_len = refl; filled = refl }

network :
    (w : World)
    → lc_send env world 500 3 1 9 2 30 31 ≡ some (ok, w)
    → Brought IbvTests.registrar IbvTests.server w 3 filled notice
network w e =
    subst (λ (r : Status × World). Brought IbvTests.registrar IbvTests.server r.1 3 filled notice)
      (some-injective _ _ (sym went ∙ e)) brought

send-Received_example :
    ((w : World) × (lc_send env world 500 3 1 9 2 30 31 ≡ some (ok, w)))
    × Received filled 2 7 800 3
        (1 ∷ 2 ∷ 3 ∷ 4 ∷ [])
        (recv_then_notice build receiver filled notice 2 7 800 16 1 9)
    × Received filled 2 7 800 3
        (1 ∷ 2 ∷ 3 ∷ 4 ∷ [])
        (notice_then_recv build receiver filled notice 2 7 800 16 1 9)
unfolding rank_of
send-Received_example =
    send-Received build env IbvTests.registrar IbvTests.server receiver world filled notice 500 3 1
      9 2 30 31 100 2 7 800 16 1 refl (omega arith) (omega arith) has_packet refl ready_to_hear refl
      network
