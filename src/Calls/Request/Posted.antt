-- ===== src/Calls/Request/Posted.antt =====
-- The long receive first: lc_recvl of src/long.c, then the request to send.
use lc.Base.{ℕ, ◌≡◌, ap, ◌∙◌, [], ◌∷◌, some, arith, ==_refl, append_assoc}
use lc.Engine.{Rtr, rma_reg, sendm, rtr_size, World, Build, req_s, set_packet, set_ep}
use lc.Engine.Rules.{announced, serve_recv_explicit, announced_key}
use lc.HashTable.{Table, client, server, make_key, lc_hash_insert}
use lc.HashTable.Pending.{pending}
use lc.HashTable.Rendezvous.{insert_twice}
use lc.Wire.{proto_rts, proto_rtr, make_proto}
use lc.Calls.{Env}
use lc.Calls.Order.{answer_path}
use lc.Calls.Request.{
  Asked, Agreed, rts_word_fields, answering, handle_rts-answering, serve_rts_matches,
  recv_then_request, posted_long, lc_recvl-waits,
}

module _ (b : Build) (env : Env) (w : World) (g p req dst size rank tag : ℕ) (c : Rtr)
    (a : Asked b w g p req rank tag c) where
  abbrev posted : World
  posted = posted_long env w g req dst size rank tag

  abbrev word : ℕ
  word = make_proto g proto_rts tag

  abbrev first_table : Table
  first_table = (lc_hash_insert (w.eps g).tbl (make_key rank tag) req client).2

  abbrev second_table : Table
  second_table = (lc_hash_insert first_table (make_key rank tag) p server).2

  -- The state in which the request to send is answered.
  abbrev met : World
  met =
      let v = announced posted p word in
      set_packet (set_ep v g (record (v.eps g) { tbl = second_table })) p
        (record (v.packets p) { req = req })

  posted-ep : posted.eps g ≡ record (w.eps g) { tbl = first_table }
  posted-ep = rw (==_refl g)

  posted-own : (posted.packets p).req ≡ req_s p
  posted-own = ground (arith, a.own)

  posted-from : (posted.reqs (req_s p)).rank ≡ rank
  posted-from = ground (arith, a.apart, a.from)

  packet_matches :
      let v = announced posted p word in
      let q = v.reqs (v.packets p).req in
      lc_hash_insert (v.eps g).tbl (make_key q.rank q.meta) p server ≡ (0, req, second_table)
  packet_matches =
      let t =
        insert_twice (w.eps g).tbl (make_key rank tag) req p client a.key a.no_client a.no_server in
      let k =
        announced_key posted p (req_s p) word rank tag posted-own posted-from
          (rts_word_fields g tag a.small_gid a.small_tag).2 in
      (λ i. lc_hash_insert (posted-ep i).tbl (k i) p server) ∙ answer_path _ 0 req t.2 t.3

  recv_then_request-met :
      recv_then_request b env w g p req dst size rank tag ≡ some (answering met g p c)
  unfolding recv_then_request
  recv_then_request-met =
      let (d, r, _) = rts_word_fields g tag a.small_gid a.small_tag in
      rw
        (
          lc_recvl-waits b env w g req dst size rank tag a.key a.no_client a.no_server,
          recv_then_request,
        )
        (serve_recv_explicit b posted g p word r (rw (==_refl g) a.explicit)
          ∙ serve_rts_matches b posted g p word (posted.eps g).cap req second_table d packet_matches
          ∙ handle_rts-answering met g p c (ground (arith, a.filled)))

  -- On an endpoint with explicit addressing where nothing else waits under the key, with a number
  -- below 2^14 and a tag below 2^16, lc_recvl and then the request to send return: the receive
  -- buffer is registered for the size that the sender announced and the answer with its address
  -- and key goes out with the packet, which waits for two events of the receive; the request is not
  -- signalled and keeps the size with which it was posted, and the table has the queues it had.
  pub posted_first :
      Agreed w g p req dst
        (env.rep rank).handle
        size
        c
        (recv_then_request b env w g p req dst size rank tag)
  posted_first =
      let t =
        insert_twice (w.eps g).tbl (make_key rank tag) req p client a.key a.no_client a.no_server in
      record {
        world = answering met g p c;
        returned = recv_then_request-met;
        calls = ground (
          arith,
          a.apart,
          a.own,
          append_assoc w.calls (rma_reg (w.mem_at dst c.size) dst c.size ∷ [])
              (sendm (env.rep rank).handle rtr_size p (make_proto (w.eps g).gid proto_rtr 0) ∷ []),
        );
        payload = ground (arith, a.apart, a.own);
        receive = ground arith;
        proto = ground arith;
        ref = ground arith;
        poolid = ground arith;
        ep = ground arith;
        rma_mem = ground (arith, a.apart, a.own);
        req_size = ground (arith, a.apart, a.own);
        unsignalled = ground (arith, a.apart, a.own);
        cap = ground arith;
        memory = ground arith;
        heap = ground arith;
        queues = λ k u hk.
            ap (λ (x : Table). pending x k u) {y = second_table} (ground arith) ∙ t.4 k u hk;
      }
