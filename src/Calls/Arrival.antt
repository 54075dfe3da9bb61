-- ===== src/Calls/Arrival.antt =====
-- The same meeting with the packet first.
use lc.Base.{ℕ, ◌≡◌, ap, ◌∙◌, List, Option, none, some, arith, ==_refl}
use lc.Engine.{
  World, Build, req_s, memcpy, set_packet, set_req, set_ep, lci_init_req, lci_ce_signal,
  lci_ce_dispatch, lci_serve_recv,
}
use lc.Engine.Rules.{
  announced, dispatch_sync, serve_recv_explicit, serve_data_waits, announced_key, Signalled,
}
use lc.HashTable.{Table, client, server, make_key, lc_hash_insert}
use lc.HashTable.Pending.{pending}
use lc.HashTable.Rendezvous.{insert_twice}
use lc.Wire.{proto_data, make_proto}
use lc.Calls.{lc_recvm}
use lc.Calls.Order.{Meeting, Delivered, data_word_fields, answer_path}

-- The state that `take_data` dispatches from.
abbrev taken : World → ℕ → ℕ → ℕ → List ℕ → World
taken w dst req p bs =
    let n = (w.reqs (w.packets p).req).size in
    let w1 = memcpy w dst bs n in
    let w2 = set_req w1 req (record (w1.reqs req) { size = n }) in
    set_packet w2 p (record (w2.packets p) { req = req })

taken-Signalled :
    (w : World) (p req r dst : ℕ) (bs : List ℕ)
    → (w.packets p).req ≡ r
    → (w.reqs req).buffer ≡ dst
    → Signalled w p req r bs (lci_ce_signal (taken w dst req p bs) p)
unfolding lci_ce_signal
taken-Signalled w p req r dst bs e f = record {
  bytes = ground (arith, e, f);
  size = ground (arith, e);
  sync = ground (arith, e);
  freed = ground (arith, e);
  tables = ground (arith, e);
}

-- First the packet, then the receive.
unfoldable pub packet_then_recv : Build → World → ℕ → ℕ → ℕ → ℕ → ℕ → ℕ → ℕ → Option World
packet_then_recv b w g p req dst size rank tag =
    elim (lci_serve_recv b w p (make_proto g proto_data tag)) [
      | none ↦ none
      | some w' ↦ lc_recvm b w' dst size rank tag g req
    ]

module _ (b : Build) (w : World) (g p req dst size rank tag : ℕ) (bs : List ℕ)
    (m : Meeting b w g p req rank tag bs) where
  abbrev first_table : Table
  first_table = (lc_hash_insert (w.eps g).tbl (make_key rank tag) p server).2

  abbrev arrived : World
  arrived =
      let v = announced w p (make_proto g proto_data tag) in
      set_ep v g (record (v.eps g) { tbl = first_table })

  abbrev second_table : Table
  second_table = (lc_hash_insert first_table (make_key rank tag) req client).2

  abbrev meeting : World
  meeting =
      let v = set_req arrived req (lci_init_req dst size (arrived.reqs req)) in
      set_ep v g (record (v.eps g) { tbl = second_table })

  arrived-ep : arrived.eps g ≡ record (w.eps g) { tbl = first_table }
  arrived-ep = rw (==_refl g)

  packet_waits :
      let v = announced w p (make_proto g proto_data tag) in
      let q = v.reqs (v.packets p).req in
      lc_hash_insert (v.eps g).tbl (make_key q.rank q.meta) p server ≡ (1, p, first_table)
  packet_waits =
      let t =
        insert_twice (w.eps g).tbl (make_key rank tag) p req server m.key m.no_client m.no_server in
      let k =
        announced_key w p (req_s p) (make_proto g proto_data tag) rank tag m.own m.from
          (data_word_fields g tag m.small_gid m.small_tag).2 in
      ap (λ x. lc_hash_insert (w.eps g).tbl x p server) k ∙ answer_path _ 1 p t.0 t.1

  serve-arrived : lci_serve_recv b w p (make_proto g proto_data tag) ≡ some arrived
  serve-arrived =
      let (d, r, e) = data_word_fields g tag m.small_gid m.small_tag in
      serve_recv_explicit b w g p (make_proto g proto_data tag) r m.explicit
      ∙ serve_data_waits b w g p (make_proto g proto_data tag) (w.eps g).cap p first_table d
          packet_waits

  recv_matches :
      lc_hash_insert (arrived.eps g).tbl (make_key rank tag) req client ≡ (0, p, second_table)
  recv_matches =
      let t =
        insert_twice (w.eps g).tbl (make_key rank tag) p req server m.key m.no_client m.no_server in
      ap (λ e. lc_hash_insert e.tbl (make_key rank tag) req client) arrived-ep
      ∙ answer_path _ 0 p t.2 t.3

  recvm-taken :
      lc_recvm b arrived dst size rank tag g req
      ≡ lci_ce_dispatch b (taken meeting dst req p bs) g p (meeting.eps g).cap
  unfolding lc_recvm
  recvm-taken = ground (arith, recv_matches, m.filled)

  packet_then_recv-met :
      packet_then_recv b w g p req dst size rank tag
      ≡ some (lci_ce_signal (taken meeting dst req p bs) p)
  unfolding packet_then_recv
  packet_then_recv-met =
      rw (serve-arrived, packet_then_recv)
        (recvm-taken
          ∙ dispatch_sync b (taken meeting dst req p bs) g p (meeting.eps g).cap
              (rw (==_refl g) m.signals) (rw (==_refl g) m.not_glob))

  meeting-own : (meeting.packets p).req ≡ req_s p
  meeting-own = ground (arith, m.own)

  -- On an endpoint with explicit addressing and synchronous completion that does not count
  -- completions, with a number below 2^14 and for a tag below 2^16, where nothing waits under the
  -- key, which the table can hold, and the packet has its own request with the sender's rank: the
  -- data packet comes first and the receive is posted after it, on another request. Both calls
  -- return, the packet's bytes are at the receive's buffer, as many as its size says; the request
  -- has that size and is signalled, the packet goes back to a pool, and the table has the queues it
  -- had.
  pub arrived_first : Delivered w g p req dst bs (packet_then_recv b w g p req dst size rank tag)
  arrived_first =
      let s = taken-Signalled meeting p req (req_s p) dst bs meeting-own (ground arith) in
      let t =
        insert_twice (w.eps g).tbl (make_key rank tag) p req server m.key m.no_client m.no_server in
      let size_kept : (meeting.reqs (req_s p)).size ≡ (w.reqs (req_s p)).size =
        ground (arith, m.apart, m.own) in
      let dst_kept : (meeting.reqs req).buffer ≡ dst = ground (arith, m.apart, m.own) in
      record {
        world = lci_ce_signal (taken meeting dst req p bs) p;
        returned = packet_then_recv-met;
        bytes = ground (arith, s.bytes, dst_kept, size_kept);
        size = s.size ∙ size_kept;
        sync = s.sync;
        freed = s.freed ∙ ground arith;
        queues = λ k u hk.
            ap (λ x. pending x k u) (ap (λ e. (e g).tbl) s.tables ∙ rw (==_refl g)) ∙ t.4 k u hk;
      }
