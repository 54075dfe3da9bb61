-- ===== src/Tests/Long.antt =====
-- A message of 5000 bytes from 500 at process 1 under tag 9, to 800 at a process that knows its
-- queue pair. The request to send comes before the receive, and the answer's completion before the
-- end of the write.
use lc.Base.{[], ◌∷◌, true, false, ◌≡◌, refl, sym, ap, ◌∙◌, arith, bit_or}
use mathlib.Core.Path.{subst}
use lc.Engine.{Rtr, rts, rma_reg, rma_rtr, sendm, rtr_size, World, memcpy}
use lc.Calls.Request.{Agreed, answer_of}
use lc.HashTable.{client, server, make_key}
use lc.HashTable.Keys.{make_key_sum}
use lc.HashTable.Rendezvous.{pending-create}
use lc.Wire.{make_proto, proto_rts, proto_rtr}
use lc.Calls.{lc_sendl}
use lc.Calls.Rendezvous.{or_else}
use lc.Ibv.{Server, imm_rtr, lc_server_sendm, lc_server_rma_reg, lc_server_rma_rtr}
use lc.Ibv.Arrive.{idle, NoticeOf}
use lc.Ibv.Serve.{serve, serve_all}
use lc.Ibv.Long.Asking.{asked-Agreed}
use lc.Ibv.Long.Writing.{Writes, answer-Writes}
use lc.Ibv.Progress.{Wc, rank_of, told, on_recv}
use lc.Ibv.Long.{Expecting, Requested, Replied, Wrote, LandedOf, asked_at, ended_at}
use lc.Ibv.Long.Exchange.{Exchanged}
use lc.Ibv.Long.Whole.{long-Exchanged}
use lc.Tests.{world, build, env, packet}
use lc.Tests.Ibv as IbvTests
use lc.Tests.Delivery.{has_packet}

abbrev asked : World
asked = (lc_sendl env world 500 5000 1 9 2 30 31).1

abbrev notice : Wc
notice = record {
  wr_id = 100;
  with_imm = false;
  qp_num = 10;
  byte_len = 40;
  imm_data = make_proto 2 proto_rts 9;
}

abbrev receiver : Server
receiver = record IbvTests.server { qp2rank = 1 ∷ []; heap = 64 }

abbrev filled : World
filled = record world { packets = λ _. record packet { payload = (asked.packets 100).payload } }

abbrev answered : World
answered = or_else (asked_at true build env receiver filled notice 2 7 800 6000 1 9) filled

abbrev reply : Wc
reply = record notice { byte_len = 48; imm_data = make_proto 2 proto_rtr 0 }

abbrev replying : World
replying = record world {
  packets = λ _. record packet { payload = (answered.packets 100).payload };
}

abbrev sent : World
sent = or_else (on_recv build IbvTests.server replying reply) replying

abbrev written : World
written = memcpy answered 800 (replying.memory 500) 5000

abbrev end_notice : Wc
end_notice = record notice { wr_id = 300; with_imm = true; imm_data = bit_or 36 imm_rtr }

expecting : Expecting build receiver filled 2 100 7 1 9
expecting = record {
  small_gid = omega arith;
  small_tag = omega arith;
  explicit = refl;
  signals = refl;
  not_glob = refl;
  apart = λ e. omega (arith, e);
  key = omega (arith, make_key_sum 1 9);
  no_client = pending-create (make_key 1 9) client;
  no_server = pending-create (make_key 1 9) server;
  heap = refl;
  above = omega arith;
  below = omega arith;
  address = omega arith;
}

requested : Requested IbvTests.registrar IbvTests.server asked 100 filled notice
unfolding lc_sendl serve_all serve lc_server_sendm
requested = record { notice = (refl, refl); carried = (refl, refl, refl, refl) }

-- The request to send that came, and what is known of the two processes' next states.
abbrev request : Rtr
request = record {
  cb = 30;
  ce = 31;
  src_addr = 500;
  size = 5000;
  tgt_addr = 0;
  rkey = 0;
  comm_id = 0;
}

came : (filled.packets 100).payload ≡ rts request
unfolding lc_sendl
came = refl

agreed :
    Agreed
      (told receiver filled notice)
      2
      100
      7
      800
      55
      5000
      request
      (asked_at true build env receiver filled notice 2 7 800 6000 1 9)
unfolding rank_of
agreed =
    asked-Agreed build env receiver filled notice 2 7 800 6000 1 9 request expecting refl refl refl
      came true

is_answered : answered ≡ agreed.world
is_answered = ap (λ o. or_else o filled) agreed.returned

answered-calls :
    answered.calls ≡ rma_reg 4000 800 5000 ∷ sendm 55 rtr_size 100 (make_proto 2 proto_rtr 0) ∷ []
answered-calls = ap (λ w. w.calls) is_answered ∙ agreed.calls

abbrev answer : Rtr
answer = answer_of (told receiver filled notice) 100 800 request

answered-payload : (answered.packets 100).payload ≡ rts answer
answered-payload = ap (λ w. (w.packets 100).payload) is_answered ∙ agreed.payload

replied : Replied IbvTests.registrar receiver answered 100 replying reply
unfolding serve_all serve lc_server_sendm lc_server_rma_reg
replied = record {
  notice =
      subst (λ l. NoticeOf (serve_all IbvTests.registrar (idle receiver) l).verbs reply)
        (sym answered-calls) (refl, refl);
  echoed = refl;
}

writes : Writes build IbvTests.server replying reply answer
writes =
    answer-Writes build IbvTests.server replying reply 2 answer (omega arith) refl refl refl
      answered-payload

sent-calls : sent.calls ≡ rma_rtr (IbvTests.server.qp 0) 500 800 77 5000 36 100 ∷ []
unfolding rank_of
sent-calls = ap (λ o. (or_else o replying).calls) writes.returned ∙ writes.asks

wrote : Wrote IbvTests.registrar IbvTests.server sent replying answered written end_notice
unfolding serve_all serve lc_server_rma_rtr
wrote = record {
  notice =
      subst (λ l. NoticeOf (serve_all IbvTests.registrar (idle IbvTests.server) l).verbs end_notice)
        (sym sent-calls) (refl, refl);
  landed =
      subst
        (λ l.
          LandedOf (serve_all IbvTests.registrar (idle IbvTests.server) l).verbs replying answered
            written)
        (sym sent-calls) refl;
}

long-Exchanged_example :
    Exchanged build
      (filled.memory 800)
      (filled.eps 2).tbl
      4000
      written
      sent
      false
      2
      100
      300
      7
      800
      5000
      5000
      30
      31
      100
      (replying.memory 500)
      (ended_at false build receiver written 100 end_notice)
unfolding rank_of
long-Exchanged_example =
    long-Exchanged build env env IbvTests.registrar IbvTests.server receiver world replying filled
      written notice reply end_notice true false 500 5000 1 9 2 30 31 100 2 7 800 6000 1 refl refl
      refl has_packet refl (omega arith) expecting refl (omega arith) refl requested replied wrote
