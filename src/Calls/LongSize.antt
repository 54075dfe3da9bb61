-- ===== src/Calls/LongSize.antt =====
-- The size of a receive that meets a request to send: lci_serve_recv_expl of src/include/proto.h
-- and lc_recvl of src/long.c.
use lc.Base.{ℕ, ◌≡◌, refl, ap, some, arith, ◌∙◌}
use lc.Engine.{
  sendm, rtr_size, no_pool, emit, prepare_rtr, lci_pk_init, Rtr, rts, World, Build, set_ep, set_req,
  set_packet, lci_init_req, lci_handle_rts, lci_serve_recv_expl,
}
use lc.Engine.Rules.{announced}
use lc.HashTable.{Table, client, server, make_key, lc_hash_insert}
use lc.Wire.{proto_get_proto, proto_rtr, make_proto}
use lc.Calls.{Env, with_handle, lc_recvl}

-- The handler of a request to send changes no request.
handle_rts-reqs :
    (w : World) (g p : ℕ) (c : Rtr)
    → (w.packets p).payload ≡ rts c
    → (w' : World) × (lci_handle_rts w g p ≡ some w') × (w'.reqs ≡ w.reqs)
unfolding lci_handle_rts
handle_rts-reqs w g p c e =
    let k = lci_pk_init g no_pool proto_rtr (w.packets p) in
    let q = w.reqs k.req in
    (
      emit (prepare_rtr w p q.buffer c.size c k)
          (sendm q.rhandle rtr_size p (make_proto (w.eps g).gid proto_rtr 0)),
      ground (arith, e),
      refl,
    )

-- The matched receive is noted in the packet.
abbrev matched : World → ℕ → ℕ → World
matched w p req = set_packet w p (record (w.packets p) { req = req })

module _ (b : Build) (w : World) (g p word req : ℕ) (t : Table) where
  abbrev v : World
  v = announced w p word

  abbrev met : World
  met = matched (set_ep v g (record (v.eps g) { tbl = t })) p req

  serve_rts-matched :
      (cap : ℕ)
      → proto_get_proto word ≡ 2
      → let q = v.reqs (v.packets p).req in
        lc_hash_insert (v.eps g).tbl (make_key q.rank q.meta) p server ≡ (0, req, t)
        → lci_serve_recv_expl b w g p word cap ≡ lci_handle_rts met g p
  unfolding lci_serve_recv_expl
  serve_rts-matched cap d h = ground (arith, d, h)

  met-payload : (met.packets p).payload ≡ (w.packets p).payload
  met-payload = ground arith

  met-size : (met.reqs req).size ≡ (w.reqs req).size
  met-size = ground arith

-- A receive that was posted with some size is found by a request to send of `c.size` bytes: the
-- handler returns, and the request keeps the size with which it was posted.
pub serve_rts-size :
    (b : Build) (w : World) (g p word cap req : ℕ) (t : Table) (c : Rtr)
    → proto_get_proto word ≡ 2
    → (w.packets p).payload ≡ rts c
    → let v = announced w p word in
      let q = v.reqs (v.packets p).req in
      lc_hash_insert (v.eps g).tbl (make_key q.rank q.meta) p server ≡ (0, req, t)
      → (w' : World) × (lci_serve_recv_expl b w g p word cap ≡ some w')
        × ((w'.reqs req).size ≡ (w.reqs req).size)
serve_rts-size b w g p word cap req t c d f h =
    let (w', e, r) =
      handle_rts-reqs (met b w g p word req t) g p c (met-payload b w g p word req t ∙ f) in
    (
      w',
      serve_rts-matched b w g p word req t cap d h ∙ e,
      ap (λ x. (x req).size) r ∙ met-size b w g p word req t,
    )

module _ (b : Build) (env : Env) (w : World) (src size rank tag g p req : ℕ) (t : Table)
    (c : Rtr) where
  abbrev asking : World
  asking = with_handle env rank req (set_req w req (lci_init_req src size (w.reqs req)))

  abbrev found : World
  found =
      let v = set_ep asking g (record (asking.eps g) { tbl = t }) in
      matched (set_req v req (record (v.reqs req) { size = c.size })) p req

  recvl-found :
      (w.packets p).payload ≡ rts c
      → lc_hash_insert (w.eps g).tbl (make_key rank tag) req client ≡ (0, p, t)
      → lc_recvl b env w src size rank tag g req ≡ lci_handle_rts found g p
  unfolding lc_recvl
  recvl-found f h = ground (arith, f, h)

  -- A request to send of `c.size` bytes that waits for the receive: `lc_recvl` returns, and the
  -- request has the size that was sent.
  pub lc_recvl-size :
      (w.packets p).payload ≡ rts c
      → lc_hash_insert (w.eps g).tbl (make_key rank tag) req client ≡ (0, p, t)
      → (w' : World) × (lc_recvl b env w src size rank tag g req ≡ some w')
        × ((w'.reqs req).size ≡ c.size)
        × ((w'.reqs req).buffer ≡ src)
  lc_recvl-size f h =
      let (w', e, r) = handle_rts-reqs found g p c (ground (arith, f)) in
      (
        w',
        recvl-found f h ∙ e,
        ap (λ x. (x req).size) r ∙ ground arith,
        ap (λ x. (x req).buffer) r ∙ ground arith,
      )
