-- ===== src/Calls/Request/Early.antt =====
-- The request to send first, then the long receive: lc_recvl of src/long.c.
use lc.Base.{ℕ, ◌≡◌, ap, ◌∙◌, [], ◌∷◌, some, arith, ==_refl, append_assoc}
use lc.Engine.{
  Rtr, rma_reg, sendm, rtr_size, World, Build, req_s, set_packet, set_req, set_ep, lci_init_req,
  lci_handle_rts, lci_serve_recv,
}
use lc.Engine.Rules.{announced, serve_recv_explicit, announced_key}
use lc.HashTable.{Table, client, server, make_key, lc_hash_insert}
use lc.HashTable.Pending.{pending}
use lc.HashTable.Rendezvous.{insert_twice}
use lc.Wire.{proto_rts, proto_rtr, make_proto}
use lc.Calls.{Env, with_handle, lc_recvl}
use lc.Calls.Order.{answer_path}
use lc.Calls.Request.{
  Asked, Agreed, rts_word_fields, answering, handle_rts-answering, serve_rts_waits,
  request_then_recv,
}

module _ (b : Build) (env : Env) (w : World) (g p req dst size rank tag : ℕ) (c : Rtr)
    (a : Asked b w g p req rank tag c) where
  abbrev word : ℕ
  word = make_proto g proto_rts tag

  abbrev first_table : Table
  first_table = (lc_hash_insert (w.eps g).tbl (make_key rank tag) p server).2

  abbrev arrived : World
  arrived = let v = announced w p word in set_ep v g (record (v.eps g) { tbl = first_table })

  abbrev second_table : Table
  second_table = (lc_hash_insert first_table (make_key rank tag) req client).2

  -- The state in which the request to send is answered.
  abbrev met : World
  met =
      let v =
        with_handle env rank req (set_req arrived req (lci_init_req dst size (arrived.reqs req))) in
      let v1 = set_ep v g (record (v.eps g) { tbl = second_table }) in
      let v2 = set_req v1 req (record (v1.reqs req) { size = c.size }) in
      set_packet v2 p (record (v2.packets p) { req = req })

  arrived-ep : arrived.eps g ≡ record (w.eps g) { tbl = first_table }
  arrived-ep = rw (==_refl g)

  packet_waits :
      let v = announced w p word in
      let q = v.reqs (v.packets p).req in
      lc_hash_insert (v.eps g).tbl (make_key q.rank q.meta) p server ≡ (1, p, first_table)
  packet_waits =
      let t =
        insert_twice (w.eps g).tbl (make_key rank tag) p req server a.key a.no_client a.no_server in
      let k =
        announced_key w p (req_s p) word rank tag a.own a.from
          (rts_word_fields g tag a.small_gid a.small_tag).2 in
      ap (λ x. lc_hash_insert (w.eps g).tbl x p server) k ∙ answer_path _ 1 p t.0 t.1

  serve-arrived : lci_serve_recv b w p word ≡ some arrived
  serve-arrived =
      let (d, r, _) = rts_word_fields g tag a.small_gid a.small_tag in
      serve_recv_explicit b w g p word r a.explicit
      ∙ serve_rts_waits b w g p word (w.eps g).cap p first_table d packet_waits

  recv_matches :
      lc_hash_insert (arrived.eps g).tbl (make_key rank tag) req client ≡ (0, p, second_table)
  recv_matches =
      let t =
        insert_twice (w.eps g).tbl (make_key rank tag) p req server a.key a.no_client a.no_server in
      ap (λ e. lc_hash_insert e.tbl (make_key rank tag) req client) arrived-ep
      ∙ answer_path _ 0 p t.2 t.3

  recvl-met : lc_recvl b env arrived dst size rank tag g req ≡ lci_handle_rts met g p
  unfolding lc_recvl
  recvl-met = ground (arith, recv_matches, a.filled)

  request_then_recv-met :
      request_then_recv b env w g p req dst size rank tag ≡ some (answering met g p c)
  unfolding request_then_recv
  request_then_recv-met =
      rw (serve-arrived, request_then_recv)
        (recvl-met ∙ handle_rts-answering met g p c (ground (arith, a.filled)))

  -- A long receive that is posted after the request to send came gets the size that was announced,
  -- and the outcome is the same otherwise.
  pub came_first :
      Agreed w g p req dst
        (env.rep rank).handle
        c.size
        c
        (request_then_recv b env w g p req dst size rank tag)
  came_first =
      let t =
        insert_twice (w.eps g).tbl (make_key rank tag) p req server a.key a.no_client a.no_server in
      record {
        world = answering met g p c;
        returned = request_then_recv-met;
        calls = ground (
          arith,
          a.apart,
          a.own,
          append_assoc w.calls (rma_reg (w.mem_at dst c.size) dst c.size ∷ [])
              (sendm (env.rep rank).handle rtr_size p (make_proto (w.eps g).gid proto_rtr 0) ∷ []),
        );
        payload = ground (arith, a.apart, a.own);
        receive = ground arith;
        proto = ground arith;
        ref = ground arith;
        poolid = ground arith;
        ep = ground arith;
        rma_mem = ground (arith, a.apart, a.own);
        req_size = ground (arith, a.apart, a.own);
        unsignalled = ground (arith, a.apart, a.own);
        cap = ground arith;
        memory = ground arith;
        heap = ground arith;
        queues = λ k u hk.
            ap (λ (x : Table). pending x k u) {y = second_table} (ground arith) ∙ t.4 k u hk;
      }
