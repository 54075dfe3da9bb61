-- ===== src/Engine/Handle.antt =====
-- The completions and handlers of src/include/proto.h.
use lc.Base.{
  ℕ, ◌+◌, ◌-◌, ◌%◌, ◌^◌, List, Option, none, some, Bool, true, false, ◌&&◌, ◌==◌, if◌then◌else◌,
}
use lc.Cq.{cq_push}
use lc.Endpoint.{has, ar_exp, ar_dyn, ar_imm, ce_sync, ce_cq, ce_am, ce_glob}
use lc.HashTable.{server, make_key, lc_hash_insert}
use lc.Wire.{
  u32, proto_data, proto_rtr, proto_rts, proto_long, make_proto, proto_get_proto, proto_get_rgid,
  proto_get_meta,
}
use lc.Engine.State.{
  Rtr, Payload, Packet, no_pool, context_size, World, Build, set_packet, set_req, set_ep, emit,
  memcpy, lci_pk_init, lci_init_req, lci_pk_free, lci_pk_free_data, buffer, rts, sendm, rma_reg,
  rma_dereg, rma_rtr, handler, callback,
}

unfoldable pub lci_ce_glob : World → ℕ → World
lci_ce_glob w g =
    let ep = w.eps g in set_ep w g (record ep { completed = (ep.completed + 1) % u32 })

unfoldable pub lci_ce_am : World → ℕ → ℕ → World
lci_ce_am w g p = lci_pk_free_data (emit w (handler (w.eps g).handler (w.packets p).req)) p

unfoldable pub lci_ce_signal : World → ℕ → World
lci_ce_signal w p =
    let r = (w.packets p).req in lci_pk_free_data (set_req w r (record (w.reqs r) { sync = 1 })) p

unfoldable pub lci_ce_queue : World → ℕ → ℕ → Option World
lci_ce_queue w g p =
    let r = (w.packets p).req in
    elim (cq_push (w.eps g).cq r) [
      | none ↦ none
      | some q ↦
          some (
            set_ep (set_req w r (record (w.reqs r) { parent = p })) g (record (w.eps g) { cq = q }))
    ]

abbrev pub ce_finish : Build → ℕ → ℕ → World → World
ce_finish b cap g w = if b.has_glob && has cap ce_glob then lci_ce_glob w g else w

-- `lci_ce_dispatch`
unfoldable pub lci_ce_dispatch : Build → World → ℕ → ℕ → ℕ → Option World
lci_ce_dispatch b w g p cap =
    if b.has_sync && has cap ce_sync
    then some (ce_finish b cap g (lci_ce_signal w p))
    else if b.has_cq && has cap ce_cq
    then elim (lci_ce_queue w g p) [ none ↦ none | some w' ↦ some (ce_finish b cap g w') ]
    else if b.has_am && has cap ce_am
    then some (ce_finish b cap g (lci_ce_am w g p))
    else some (ce_finish b cap g (lci_pk_free_data w p))

-- `lci_prepare_rtr`: the fields that the sender put into the union stay.
abbrev pub prepare_rtr : World → ℕ → ℕ → ℕ → Rtr → Packet → World
prepare_rtr w p src size c k =
    let mem = w.mem_at src size in
    let c' : Rtr = record c {
      comm_id = (p + 2 ^ 64 - w.heap) % u32;
      tgt_addr = src;
      rkey = w.rkey_of mem;
    } in
    set_packet (emit w (rma_reg mem src size)) p
      (record k { rma_mem = mem; ref = 2; payload = rts c' })

-- The size of `struct packet_rtr` and of `struct packet_rts`.
abbrev pub rtr_size : ℕ
rtr_size = 48

abbrev pub rts_size : ℕ
rts_size = 40

-- `lci_handle_rtr`: the target answered, so the data goes to the address that it gave.
unfoldable pub lci_handle_rtr : World → ℕ → ℕ → Option World
lci_handle_rtr w g p =
    let k = lci_pk_init g no_pool proto_long (w.packets p) in
    elim k.payload [
      | buffer _ ↦ none
      | rts c ↦ some (
          emit (set_packet w p k)
            (rma_rtr (w.reqs k.req).rhandle c.src_addr c.tgt_addr c.rkey c.size c.comm_id p))
    ]

-- `lci_handle_rts`: register the receive buffer, and answer with its address and key.
unfoldable pub lci_handle_rts : World → ℕ → ℕ → Option World
lci_handle_rts w g p =
    let k = lci_pk_init g no_pool proto_rtr (w.packets p) in
    let q = w.reqs k.req in
    elim k.payload [
      | buffer _ ↦ none
      | rts c ↦ some (
          emit (prepare_rtr w p q.buffer c.size c k)
            (sendm q.rhandle rtr_size p (make_proto (w.eps g).gid proto_rtr 0)))
    ]

-- `p->context.req->meta = ...`
abbrev pub set_meta : World → ℕ → ℕ → World
set_meta w p word =
    let r = (w.packets p).req in set_req w r (record (w.reqs r) { meta = proto_get_meta word })

-- `lci_serve_recv_imm`
unfoldable pub lci_serve_recv_imm : Build → World → ℕ → ℕ → ℕ → ℕ → Option World
lci_serve_recv_imm b w g p word cap =
    let r = (w.packets p).req in
    let w' = set_meta w p word in
    lci_ce_dispatch b (set_req w' r (record (w'.reqs r) { buffer = p + context_size })) g p cap

abbrev pub bytes_of : Payload → Option (List ℕ)
bytes_of (buffer bs) = some bs
bytes_of (rts c) = none

-- `lci_serve_recv_dyn`
unfoldable pub lci_serve_recv_dyn : Build → World → ℕ → ℕ → ℕ → ℕ → Option World
lci_serve_recv_dyn b w g p word cap =
    let r = (w.packets p).req in
    let w1 = set_meta w p word in
    let q = w1.reqs r in
    let proto = proto_get_proto word in
    let on_data : Option World =
      (let (buf, ctx) = (w.eps g).alloc q.size in
        elim (bytes_of (w.packets p).payload) [
          | none ↦ none
          | some bs ↦
              lci_ce_dispatch b
                (set_req (memcpy w1 buf bs q.size) r (record q { ctx = ctx; buffer = buf })) g p cap
        ]) in
    let on_rts : Option World = elim (w.packets p).payload [
      | buffer _ ↦ none
      | rts c ↦
          let (buf, ctx) = (w.eps g).alloc c.size in
          lci_handle_rts (set_req w1 r (lci_init_req buf c.size (record q { ctx = ctx }))) g p
    ] in
    let on_rtr = lci_handle_rtr w1 g p in
    if proto == proto_data
    then on_data
    else if proto == proto_rts
    then on_rts
    else if proto == proto_rtr
    then on_rtr
    else some w1

-- The insertion of the packet into the endpoint's table, as SERVER: what was matched, if anything.
abbrev pub serve_insert : World → ℕ → ℕ → Option ℕ × World
serve_insert w g p =
    let q = w.reqs (w.packets p).req in
    let (ret, value, t) = lc_hash_insert (w.eps g).tbl (make_key q.rank q.meta) p server in
    let w' = set_ep w g (record (w.eps g) { tbl = t }) in
    if ret == 0 then (some value, w') else (none, w')

-- The matched receive gets the data: size, bytes, and the packet points to it.
abbrev pub deliver : World → ℕ → ℕ → List ℕ → World
deliver w p req bs =
    let n = (w.reqs (w.packets p).req).size in
    let w1 = set_req w req (record (w.reqs req) { size = n }) in
    set_packet (memcpy w1 (w.reqs req).buffer bs n) p (record (w.packets p) { req = req })

-- `lci_serve_recv_expl`
unfoldable pub lci_serve_recv_expl : Build → World → ℕ → ℕ → ℕ → ℕ → Option World
lci_serve_recv_expl b w g p word cap =
    let proto = proto_get_proto word in
    let w1 = set_meta w p word in
    let w2 = set_packet w1 p (record (w.packets p) { proto = proto }) in
    let on_data : Option World =
      (let (m, w3) = serve_insert w2 g p in
        elim m [
          | none ↦ some w3
          | some req ↦ elim (bytes_of (w.packets p).payload) [
            | none ↦ none
            | some bs ↦ lci_ce_dispatch b (deliver w3 p req bs) g p cap
          ]
        ]) in
    let on_rts : Option World =
      (let (m, w3) = serve_insert w2 g p in
        elim m [
          | none ↦ some w3
          | some req ↦ lci_handle_rts (set_packet w3 p (record (w3.packets p) { req = req })) g p
        ]) in
    if proto == proto_data
    then on_data
    else if proto == proto_rts
    then on_rts
    else if proto == proto_rtr
    then lci_handle_rtr w2 g p
    else some w2

-- `lci_serve_recv_dispatch`
unfoldable pub lci_serve_recv_dispatch : Build → World → ℕ → ℕ → ℕ → ℕ → Option World
lci_serve_recv_dispatch b w g p word cap =
    if b.has_exp && has cap ar_exp
    then lci_serve_recv_expl b w g p word cap
    else if b.has_dyn && has cap ar_dyn
    then lci_serve_recv_dyn b w g p word cap
    else if b.has_imm && has cap ar_imm
    then lci_serve_recv_imm b w g p word cap
    else some w

-- `lci_serve_recv`: the endpoint is the one that the sender names.
unfoldable pub lci_serve_recv : Build → World → ℕ → ℕ → Option World
lci_serve_recv b w p word =
    let g = proto_get_rgid word in lci_serve_recv_dispatch b w g p word (w.eps g).cap

unfoldable pub lci_serve_recv_rdma : Build → World → ℕ → ℕ → Option World
lci_serve_recv_rdma b w p word =
    let g = proto_get_rgid word in lci_ce_dispatch b (set_meta w p word) g p (w.eps g).cap

-- `--p->context.ref == 0` on eight bits: the new state, and whether the packet is done with.
abbrev pub drop_ref : World → ℕ → Bool × World
drop_ref w p =
    let k = w.packets p in
    let n = (k.ref + 255) % 256 in (n == 0, set_packet w p (record k { ref = n }))

abbrev pub finish_if : Build → Bool × World → ℕ → Option World
finish_if b (true, w) p = let g = (w.packets p).ep in lci_ce_dispatch b w g p (w.eps g).cap
finish_if b (false, w) p = some w

-- `lci_serve_send`
unfoldable pub lci_serve_send : Build → World → ℕ → Option World
lci_serve_send b w p =
    let k = w.packets p in
    let on_long : Option World = elim k.payload [
      | buffer _ ↦ none
      | rts c ↦ some (lci_pk_free (emit w (callback c.cb c.ce)) p)
    ] in
    if k.proto == proto_rtr
    then finish_if b (drop_ref w p) p
    else if k.proto == proto_long
    then on_long
    else if k.proto == proto_rts
    then some (lci_pk_free w p)
    else some (lci_pk_free_data w p)

-- `lc_cq_reqfree` of src/cq.c: the packet that `lci_ce_queue` left with the request.
unfoldable pub lc_cq_reqfree : World → ℕ → World
lc_cq_reqfree w req = lci_pk_free w (w.reqs req).parent

-- `lci_serve_imm`
unfoldable pub lci_serve_imm : Build → World → ℕ → Option World
lci_serve_imm b w p = finish_if b (drop_ref (emit w (rma_dereg (w.packets p).rma_mem)) p) p
