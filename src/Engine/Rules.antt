-- ===== src/Engine/Rules.antt =====
-- The branches of the engine as equations, each under the tests that lead to it.
use lc.Base.{ℕ, ◌≡◌, List, some, arith, true, false, ◌&&◌}
use lc.Endpoint.{has, ar_exp, ce_sync, ce_glob}
use lc.Engine.{
  Req, buffer, World, Build, set_packet, set_ep, set_meta, deliver, overwrite, lci_pk_free_data,
  lci_ce_signal, lci_ce_dispatch, lci_serve_recv_expl, lci_serve_recv_dispatch, lci_serve_recv,
}
use lc.HashTable.{Table, server, make_key, lc_hash_insert}
use lc.Wire.{proto_get_proto, proto_get_rgid, proto_get_meta}

pub dispatch_sync :
    (b : Build) (w : World) (g p cap : ℕ)
    → (b.has_sync && has cap ce_sync) ≡ true
    → (b.has_glob && has cap ce_glob) ≡ false
    → lci_ce_dispatch b w g p cap ≡ some (lci_ce_signal w p)
unfolding lci_ce_dispatch
dispatch_sync b w g p cap s n = rw (s, n)

pub serve_recv_explicit :
    (b : Build) (w : World) (g p word : ℕ)
    → proto_get_rgid word ≡ g
    → (b.has_exp && has (w.eps g).cap ar_exp) ≡ true
    → lci_serve_recv b w p word ≡ lci_serve_recv_expl b w g p word (w.eps g).cap
unfolding lci_serve_recv lci_serve_recv_dispatch
serve_recv_explicit b w g p word e x = rw (e, x)

-- The state in which `lci_serve_recv_expl` inserts the packet.
abbrev pub announced : World → ℕ → ℕ → World
announced w p word =
    set_packet (set_meta w p word) p (record (w.packets p) { proto = proto_get_proto word })

module _ (b : Build) (w : World) (g p word cap : ℕ) where
  abbrev v : World
  v = announced w p word

  abbrev q : Req
  q = v.reqs (v.packets p).req

  pub serve_data_waits :
      (x : ℕ) (t : Table)
      → proto_get_proto word ≡ 0
      → lc_hash_insert (v.eps g).tbl (make_key q.rank q.meta) p server ≡ (1, x, t)
      → lci_serve_recv_expl b w g p word cap ≡ some (set_ep v g (record (v.eps g) { tbl = t }))
  unfolding lci_serve_recv_expl
  serve_data_waits x t d h = ground (arith, d, h)

  pub serve_data_matches :
      (req : ℕ) (t : Table) (bs : List ℕ)
      → proto_get_proto word ≡ 0
      → (w.packets p).payload ≡ buffer bs
      → lc_hash_insert (v.eps g).tbl (make_key q.rank q.meta) p server ≡ (0, req, t)
      → lci_serve_recv_expl b w g p word cap
        ≡ lci_ce_dispatch b (deliver (set_ep v g (record (v.eps g) { tbl = t })) p req bs) g p cap
  unfolding lci_serve_recv_expl
  serve_data_matches req t bs d f h = ground (arith, d, f, h)

-- The key under which a packet is looked up.
pub announced_key :
    (w : World) (p r word rank tag : ℕ)
    → (w.packets p).req ≡ r
    → (w.reqs r).rank ≡ rank
    → proto_get_meta word ≡ tag
    → let v = announced w p word in
      let q = v.reqs (v.packets p).req in make_key q.rank q.meta ≡ make_key rank tag
announced_key w p r word rank tag e f h = ground (arith, e, f, h)

-- What `deliver` and `lci_ce_signal` leave behind: `r` is the packet's request, `req` the user's.
pub record Signalled (w : World) (p req r : ℕ) (bs : List ℕ) (w' : World) : Type 0 where
  pub bytes :
      w'.memory (w.reqs req).buffer ≡ overwrite (w.reqs r).size bs (w.memory (w.reqs req).buffer)
  pub size : (w'.reqs req).size ≡ (w.reqs r).size
  pub sync : (w'.reqs req).sync ≡ 1
  pub freed : w'.calls ≡ (lci_pk_free_data w p).calls
  pub tables : w'.eps ≡ w.eps

pub deliver-Signalled :
    (w : World) (p req r : ℕ) (bs : List ℕ)
    → (w.packets p).req ≡ r
    → Signalled w p req r bs (lci_ce_signal (deliver w p req bs) p)
unfolding lci_ce_signal
deliver-Signalled w p req r bs e = record {
  bytes = ground (arith, e);
  size = ground (arith, e);
  sync = ground (arith, e);
  freed = ground (arith, e);
  tables = ground (arith, e);
}
