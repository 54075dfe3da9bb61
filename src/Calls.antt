-- ===== src/Calls.antt =====
-- The calls of a client: src/short.c, src/medium.c, src/long.c and src/tag.c, over the state of
-- the engine. An endpoint is named by its number in `lcg_ep`. `none` is a copy past the end of a
-- packet, a call of exit, or a read of a member of a packet's union that was not written.
pub mod Either
pub mod Sizes
pub mod Twice
pub mod LongSize
pub mod Rendezvous
pub mod Order
pub mod Arrival
pub mod Dynamic
pub mod Request
use lc.Base.{
  ℕ, zero, suc, ◌+◌, ◌-◌, ◌*◌, ◌%◌, ◌^◌, List, [], ◌∷◌, Option, none, some, Bool, true, false, ◌==◌,
  leb, ltb, if◌then◌else◌,
}
use lc.Cq.{Status, ok, err_retry}
use lc.Endpoint.{Ep}
use lc.Engine.{
  Req, Rtr, Packet, Payload, buffer, rts, Call, sends, sendm, puts, putss, putm, putms, putl, putls,
  callback, World, Build, context_size, no_pool, set_packet, set_req, set_ep, emit, overwrite,
  memcpy, lci_pk_init, lci_init_req, bytes_of, rts_size, lci_ce_dispatch, lci_handle_rts,
}
use lc.HashTable.{client, make_key, lc_hash_insert}
use lc.Wire.{u32, proto_data, proto_rts, proto_long, make_proto}

-- `struct lci_rep`, the handle of a remote process.
pub record Rep : Type 0 where
  pub handle : ℕ
  pub base : ℕ
  pub rkey : ℕ

-- What a call finds: the flag `lcg_deadlock`, the answer of `lc_pool_get_nb` (0 is NULL), that of
-- `lc_pool_get_local`, and the table `ep->rep`.
pub record Env : Type 0 where
  pub deadlock : Bool
  pub got : ℕ
  pub local : ℕ
  pub rep : ℕ → Rep

-- src/include/config.h, for the psm and ibv servers.
abbrev pub max_inline : ℕ
max_inline = 128

abbrev pub packet_size : ℕ
packet_size = 8 * 1024 + 4096

-- `(uint32_t) (addr - rep->base)`
abbrev pub offset_of : ℕ → Rep → ℕ
offset_of addr rep = (addr + 2 ^ 64 - rep.base) % u32

-- `POST_MSG_SIZE`, the room for data in a packet.
abbrev pub post_msg_size : ℕ
post_msg_size = packet_size - context_size

-- LC_POOL_GET_OR_RETN: the packet, or the early return of LC_ERR_RETRY.
abbrev pub get_or_retn : Env → World → (ℕ → Status × World) → Status × World
get_or_retn env w k =
    if env.deadlock then (err_retry, w) else if env.got == 0 then (err_retry, w) else k env.got

unfoldable pub lc_sends : Env → World → ℕ → ℕ → ℕ → ℕ → ℕ → Status × World
lc_sends env w src size rank tag g =
    let rep = env.rep rank in
    (ok, emit w (sends rep.handle src size (make_proto (w.eps g).gid proto_data tag)))

unfoldable pub lc_puts : Env → World → ℕ → ℕ → ℕ → ℕ → Status × World
lc_puts env w src size rank addr =
    let rep = env.rep rank in
    (ok, emit w (puts rep.handle src rep.base (offset_of addr rep) rep.rkey size))

unfoldable pub lc_putss : Env → World → ℕ → ℕ → ℕ → ℕ → ℕ → ℕ → Status × World
lc_putss env w src size rank addr meta g =
    let rep = env.rep rank in
    (
      ok,
      emit w (
          putss rep.handle src rep.base (offset_of addr rep) rep.rkey
            (make_proto (w.eps g).gid proto_long meta) size),
    )

-- A packet that carries a copy of the user's bytes; `none` is a copy past its end.
abbrev pub fill_data : Env → World → ℕ → ℕ → ℕ → ℕ → Option World
fill_data env w src size g p =
    let pid = if ltb 1024 size then env.local else no_pool in
    if ltb post_msg_size size
    then none
    else some (
        set_packet w p (record (lci_pk_init g pid proto_data (w.packets p)) {
          payload = buffer (overwrite size (w.memory src) []);
        }))

-- The early returns, or the packet with the copy and then the server's call.
abbrev pub fill_or_retn : Env → World → ℕ → ℕ → ℕ → (ℕ → World → World) → Option (Status × World)
fill_or_retn env w src size g k =
    let sent : Option (Status × World) = elim (fill_data env w src size g env.got) [
      | none ↦ none
      | some w' ↦ some (ok, k env.got w')
    ] in
    if env.deadlock then some (err_retry, w) else if env.got == 0 then some (err_retry, w) else sent

unfoldable pub lc_sendm : Env → World → ℕ → ℕ → ℕ → ℕ → ℕ → Option (Status × World)
lc_sendm env w src size rank tag g =
    fill_or_retn env w src size g
      λ p w'. emit w' (sendm (env.rep rank).handle size p (make_proto (w.eps g).gid proto_data tag))

unfoldable pub lc_putm : Env → World → ℕ → ℕ → ℕ → ℕ → ℕ → Option (Status × World)
lc_putm env w src size rank addr g =
    let rep = env.rep rank in
    fill_or_retn env w src size g
      λ p w'. emit w' (putm rep.handle rep.base (offset_of addr rep) rep.rkey size p)

unfoldable pub lc_putms : Env → World → ℕ → ℕ → ℕ → ℕ → ℕ → ℕ → Option (Status × World)
lc_putms env w src size rank addr meta g =
    let rep = env.rep rank in
    fill_or_retn env w src size g λ p w'. emit w' (
      putms rep.handle rep.base (offset_of addr rep) rep.rkey size
        (make_proto (w.eps g).gid proto_long meta) p)

-- The union seen as `packet_rts`; of bytes that were there before nothing is known, and nothing is
-- read before it is written.
abbrev pub rts_of : Payload → Rtr
rts_of (rts c) = c
rts_of (buffer _) = record {
  cb = 0;
  ce = 0;
  src_addr = 0;
  size = 0;
  tgt_addr = 0;
  rkey = 0;
  comm_id = 0;
}

-- `lci_prepare_rts`
abbrev pub prepare_rts : ℕ → ℕ → ℕ → ℕ → Packet → Packet
prepare_rts src size cb ce k = record k {
  payload = rts (record (rts_of k.payload) { src_addr = src; size = size; cb = cb; ce = ce });
}

unfoldable pub lc_sendl : Env → World → ℕ → ℕ → ℕ → ℕ → ℕ → ℕ → ℕ → Status × World
lc_sendl env w src size rank tag g cb ce = get_or_retn env w λ p. (
  ok,
  emit (set_packet w p (prepare_rts src size cb ce (lci_pk_init g no_pool proto_rts (w.packets p))))
      (sendm (env.rep rank).handle rts_size p (make_proto (w.eps g).gid proto_rts tag)),
)

-- A packet for `lc_putl` and `lc_putls`, which holds the completion callback only.
abbrev pub fill_long : World → ℕ → ℕ → ℕ → ℕ → World
fill_long w g cb ce p =
    let k = lci_pk_init g no_pool proto_long (w.packets p) in
    set_packet w p (record k { payload = rts (record (rts_of k.payload) { cb = cb; ce = ce }) })

unfoldable pub lc_putl : Env → World → ℕ → ℕ → ℕ → ℕ → ℕ → ℕ → ℕ → Status × World
lc_putl env w src size rank addr g cb ce =
    let rep = env.rep rank in
    get_or_retn env w λ p. (
      ok,
      emit (fill_long w g cb ce p)
          (putl rep.handle src rep.base (offset_of addr rep) rep.rkey size p),
    )

unfoldable pub lc_putls : Env → World → ℕ → ℕ → ℕ → ℕ → ℕ → ℕ → ℕ → ℕ → Status × World
lc_putls env w src size rank addr meta g cb ce =
    let rep = env.rep rank in
    get_or_retn env w λ p. (
      ok,
      emit (fill_long w g cb ce p) (
          putls rep.handle src rep.base (offset_of addr rep) rep.rkey size
            (make_proto (w.eps g).gid proto_long meta) p),
    )

-- `if (ret == LC_OK) cb(ce)`
abbrev pub call_back : ℕ → ℕ → Status × World → Status × World
call_back cb ce (Status.ok, w) = (ok, emit w (callback cb ce))
call_back cb ce (s, w) = (s, w)

unfoldable pub lc_send : Env → World → ℕ → ℕ → ℕ → ℕ → ℕ → ℕ → ℕ → Option (Status × World)
lc_send env w src size rank tag g cb ce =
    let medium : Option (Status × World) = elim (lc_sendm env w src size rank tag g) [
      | none ↦ none
      | some r ↦ some (call_back cb ce r)
    ] in
    if leb size max_inline
    then some (call_back cb ce (lc_sends env w src size rank tag g))
    else if leb size packet_size
    then medium
    else some (lc_sendl env w src size rank tag g cb ce)

-- The insertion of the request into the endpoint's table, as CLIENT: the packet that was there, if
-- any.
abbrev pub recv_insert : World → ℕ → ℕ → ℕ → ℕ → Option ℕ × World
recv_insert w g rank tag req =
    let (ret, value, t) = lc_hash_insert (w.eps g).tbl (make_key rank tag) req client in
    let w' = set_ep w g (record (w.eps g) { tbl = t }) in
    if ret == 0 then (some value, w') else (none, w')

-- The bytes of a packet that came before the receive.
abbrev pub take_data : Build → World → ℕ → ℕ → ℕ → ℕ → Option World
take_data b w g src req p = elim (bytes_of (w.packets p).payload) [
  | none ↦ none
  | some bs ↦
      let n = (w.reqs (w.packets p).req).size in
      let w1 = memcpy w src bs n in
      let w2 = set_req w1 req (record (w1.reqs req) { size = n }) in
      lci_ce_dispatch b (set_packet w2 p (record (w2.packets p) { req = req })) g p (w.eps g).cap
]

-- The answer to a request to send that came before the receive.
abbrev pub take_rts : World → ℕ → ℕ → ℕ → Option World
take_rts w g req p = elim (w.packets p).payload [
  | buffer _ ↦ none
  | rts c ↦
      let w1 = set_req w req (record (w.reqs req) { size = c.size }) in
      lci_handle_rts (set_packet w1 p (record (w1.packets p) { req = req })) g p
]

abbrev pub with_handle : Env → ℕ → ℕ → World → World
with_handle env rank req w = set_req w req (record (w.reqs req) { rhandle = (env.rep rank).handle })

unfoldable pub lc_recvm : Build → World → ℕ → ℕ → ℕ → ℕ → ℕ → ℕ → Option World
lc_recvm b w src size rank tag g req =
    let w1 = set_req w req (lci_init_req src size (w.reqs req)) in
    let (m, w2) = recv_insert w1 g rank tag req in
    elim m [ none ↦ some w2 | some p ↦ take_data b w2 g src req p ]

unfoldable pub lc_recvl : Build → Env → World → ℕ → ℕ → ℕ → ℕ → ℕ → ℕ → Option World
lc_recvl b env w src size rank tag g req =
    let w1 = with_handle env rank req (set_req w req (lci_init_req src size (w.reqs req))) in
    let (m, w2) = recv_insert w1 g rank tag req in
    elim m [ none ↦ some w2 | some p ↦ take_rts w2 g req p ]

unfoldable pub lc_recv : Build → Env → World → ℕ → ℕ → ℕ → ℕ → ℕ → ℕ → Option World
lc_recv b env w src size rank tag g req =
    let w1 = with_handle env rank req (set_req w req (lci_init_req src size (w.reqs req))) in
    let (m, w2) = recv_insert w1 g rank tag req in
    elim m [
      | none ↦ some w2
      | some p ↦
          let long = take_rts w2 g req p in
          let short = take_data b w2 g src req p in
          if (w2.packets p).proto == proto_rts then long else short
    ]
