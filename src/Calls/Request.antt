-- ===== src/Calls/Request.antt =====
-- A long receive (lc_recvl of src/long.c) and a request to send (lci_serve_recv_expl of
-- src/include/proto.h), whichever comes first.
pub mod Posted
pub mod Early
use lc.Base.{
  ℕ, ◌+◌, ◌-◌, ◌%◌, ◌^◌, ◌<◌, ◌≡◌, ◌≢◌, refl, ap, ◌∙◌, List, [], ◌∷◌, ◌++◌, Option, none, some,
  arith, true, false, ◌&&◌, ==_refl, append_assoc,
}
use lc.Endpoint.{has, ar_exp}
use lc.Engine.{
  Rtr, Payload, rts, sendm, rma_reg, World, Build, no_pool, req_s, rtr_size, emit, set_packet,
  set_req, set_ep, lci_pk_init, lci_init_req, prepare_rtr, lci_handle_rts, lci_serve_recv_expl,
  lci_serve_recv,
}
use lc.Engine.Rules.{announced, serve_recv_explicit, announced_key}
use lc.HashTable.{Table, InsertType, client, server, make_key, lc_hash_insert}
use lc.HashTable.Keys.{IsKey}
use lc.HashTable.Pending.{pending}
use lc.HashTable.Rendezvous.{insert_twice}
use lc.Wire.{u32, proto_rts, proto_rtr, make_proto, proto_get_proto, proto_get_rgid, proto_get_meta}
use lc.Wire.RoundTrip.{make_proto_fields}
use lc.Calls.{Env, with_handle, lc_recvl}
use lc.Calls.Order.{answer_path}

-- An endpoint with explicit addressing on which a packet `p` with the request to send `c` arrives
-- from `rank` under `tag`, and a request `req` asks for just that; nothing else waits under the
-- key.
pub record Asked (b : Build) (w : World) (g p req rank tag : ℕ) (c : Rtr) : Type 0 where
  pub small_gid : g < 2 ^ 14
  pub small_tag : tag < 2 ^ 16
  pub explicit : b.has_exp && has (w.eps g).cap ar_exp ≡ true
  pub own : (w.packets p).req ≡ req_s p
  pub from : (w.reqs (req_s p)).rank ≡ rank
  pub filled : (w.packets p).payload ≡ rts c
  pub apart : req ≢ req_s p
  pub key : IsKey (make_key rank tag)
  pub no_client : pending (w.eps g).tbl (make_key rank tag) client ≡ []
  pub no_server : pending (w.eps g).tbl (make_key rank tag) server ≡ []

-- What the answer carries to the sender.
abbrev pub answer_of : World → ℕ → ℕ → Rtr → Rtr
answer_of w p dst c = record c {
  comm_id = (p + 2 ^ 64 - w.heap) % u32;
  tgt_addr = dst;
  rkey = w.rkey_of (w.mem_at dst c.size);
}

-- The receive buffer is registered for the size that the sender announced and the answer with its
-- address and key is sent; the packet waits for two events of the receive; the request is not
-- signalled, its size is `size`; the table has the queues that it had.
pub record Agreed (w : World) (g p req dst handle size : ℕ) (c : Rtr) (o : Option World)
    : Type 0 where
  pub world : World
  pub returned : o ≡ some world
  pub calls :
      world.calls
      ≡ w.calls
        ++ rma_reg (w.mem_at dst c.size) dst c.size
          ∷ sendm handle rtr_size p (make_proto (w.eps g).gid proto_rtr 0)
          ∷ []
  pub payload : (world.packets p).payload ≡ rts (answer_of w p dst c)
  pub receive : (world.packets p).req ≡ req
  pub proto : (world.packets p).proto ≡ proto_rtr
  pub ref : (world.packets p).ref ≡ 2
  pub poolid : (world.packets p).poolid ≡ no_pool
  pub ep : (world.packets p).ep ≡ g
  pub rma_mem : (world.packets p).rma_mem ≡ w.mem_at dst c.size
  pub req_size : (world.reqs req).size ≡ size
  pub unsignalled : (world.reqs req).sync ≡ 0
  pub cap : (world.eps g).cap ≡ (w.eps g).cap
  pub memory : world.memory ≡ w.memory
  pub heap : world.heap ≡ w.heap
  pub queues :
      (k : ℕ) (u : InsertType) → IsKey k → pending (world.eps g).tbl k u ≡ pending (w.eps g).tbl k u

pub rts_word_fields :
    (g tag : ℕ)
    → g < 2 ^ 14
    → tag < 2 ^ 16
    → (proto_get_proto (make_proto g proto_rts tag) ≡ proto_rts)
      × (proto_get_rgid (make_proto g proto_rts tag) ≡ g)
      × (proto_get_meta (make_proto g proto_rts tag) ≡ tag)
rts_word_fields g tag hg ht =
    let (a, c, d) = make_proto_fields g proto_rts tag (omega arith) hg in (a, c, omega arith)

-- The handler of a request to send returns with the answer on its way.
abbrev pub answering : World → ℕ → ℕ → Rtr → World
answering w g p c =
    let q = w.reqs (w.packets p).req in
    emit (prepare_rtr w p q.buffer c.size c (lci_pk_init g no_pool proto_rtr (w.packets p)))
      (sendm q.rhandle rtr_size p (make_proto (w.eps g).gid proto_rtr 0))

pub handle_rts-answering :
    (w : World) (g p : ℕ) (c : Rtr)
    → (w.packets p).payload ≡ rts c
    → lci_handle_rts w g p ≡ some (answering w g p c)
unfolding lci_handle_rts
handle_rts-answering w g p c e = ground (arith, e)

module _ (b : Build) (w : World) (g p word cap : ℕ) where
  abbrev pub v : World
  v = announced w p word

  abbrev pub key_of : ℕ
  key_of = let q = v.reqs (v.packets p).req in make_key q.rank q.meta

  pub serve_rts_waits :
      (x : ℕ) (t : Table)
      → proto_get_proto word ≡ 2
      → lc_hash_insert (v.eps g).tbl key_of p server ≡ (1, x, t)
      → lci_serve_recv_expl b w g p word cap ≡ some (set_ep v g (record (v.eps g) { tbl = t }))
  unfolding lci_serve_recv_expl
  serve_rts_waits x t d h = ground (arith, d, h)

  pub serve_rts_matches :
      (req : ℕ) (t : Table)
      → proto_get_proto word ≡ 2
      → lc_hash_insert (v.eps g).tbl key_of p server ≡ (0, req, t)
      → lci_serve_recv_expl b w g p word cap
        ≡ lci_handle_rts
            (set_packet
              (set_ep v g (record (v.eps g) { tbl = t }))
              p
              (record (v.packets p) { req = req }))
            g
            p
  unfolding lci_serve_recv_expl
  serve_rts_matches req t d h = ground (arith, d, h)

-- First the receive, then the request to send.
unfoldable pub recv_then_request : Build → Env → World → ℕ → ℕ → ℕ → ℕ → ℕ → ℕ → ℕ → Option World
recv_then_request b env w g p req dst size rank tag =
    elim (lc_recvl b env w dst size rank tag g req) [
      | none ↦ none
      | some w' ↦ lci_serve_recv b w' p (make_proto g proto_rts tag)
    ]

-- First the request to send, then the receive.
unfoldable pub request_then_recv : Build → Env → World → ℕ → ℕ → ℕ → ℕ → ℕ → ℕ → ℕ → Option World
request_then_recv b env w g p req dst size rank tag =
    elim (lci_serve_recv b w p (make_proto g proto_rts tag)) [
      | none ↦ none
      | some w' ↦ lc_recvl b env w' dst size rank tag g req
    ]

-- The state after a long receive that finds nothing.
abbrev pub posted_long : Env → World → ℕ → ℕ → ℕ → ℕ → ℕ → ℕ → World
posted_long env w g req dst size rank tag =
    set_ep (with_handle env rank req (set_req w req (lci_init_req dst size (w.reqs req)))) g
      (record (w.eps g) { tbl = (lc_hash_insert (w.eps g).tbl (make_key rank tag) req client).2 })

pub lc_recvl-waits :
    (b : Build) (env : Env) (w : World) (g req dst size rank tag : ℕ)
    → IsKey (make_key rank tag)
    → pending (w.eps g).tbl (make_key rank tag) client ≡ []
    → pending (w.eps g).tbl (make_key rank tag) server ≡ []
    → lc_recvl b env w dst size rank tag g req ≡ some (posted_long env w g req dst size rank tag)
unfolding lc_recvl
lc_recvl-waits b env w g req dst size rank tag key nc ns =
    let t = insert_twice (w.eps g).tbl (make_key rank tag) req req client key nc ns in
    ground (arith, t.0)
