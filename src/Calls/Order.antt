-- ===== src/Calls/Order.antt =====
-- A receive (src/medium.c) and a short message (src/include/proto.h), the receive first.
use lc.Base.{
  ℕ, ◌^◌, ◌<◌, ◌≡◌, ◌≢◌, ap, ◌∙◌, List, [], Option, none, some, arith, true, false, ◌&&◌, ==_refl,
}
use lc.Endpoint.{has, ar_exp, ce_sync, ce_glob}
use lc.Engine.{
  deliver, set_ep, set_req, lci_init_req, buffer, World, Build, req_s, overwrite, lci_pk_free_data,
  lci_ce_signal, lci_serve_recv,
}
use lc.HashTable.{Table, InsertType, client, server, make_key, lc_hash_insert}
use lc.HashTable.Keys.{IsKey}
use lc.HashTable.Pending.{pending}
use lc.HashTable.Rendezvous.{insert_twice}
use lc.Wire.{proto_data, make_proto, proto_get_proto, proto_get_rgid, proto_get_meta}
use lc.Wire.RoundTrip.{make_proto_fields}
use lc.Engine.Rules.{
  announced, dispatch_sync, serve_recv_explicit, announced_key, serve_data_matches,
  deliver-Signalled,
}
use lc.Calls.{lc_recvm}

-- An endpoint with explicit addressing and synchronous completion, on which a packet `p` with the
-- bytes `bs` arrives from `rank` under `tag`, and a request `req` asks for just that; nothing
-- else waits under the key.
pub record Meeting (b : Build) (w : World) (g p req rank tag : ℕ) (bs : List ℕ) : Type 0 where
  pub small_gid : g < 2 ^ 14
  pub small_tag : tag < 2 ^ 16
  pub explicit : b.has_exp && has (w.eps g).cap ar_exp ≡ true
  pub signals : b.has_sync && has (w.eps g).cap ce_sync ≡ true
  pub not_glob : b.has_glob && has (w.eps g).cap ce_glob ≡ false
  pub own : (w.packets p).req ≡ req_s p
  pub from : (w.reqs (req_s p)).rank ≡ rank
  pub filled : (w.packets p).payload ≡ buffer bs
  pub apart : req ≢ req_s p
  pub key : IsKey (make_key rank tag)
  pub no_client : pending (w.eps g).tbl (make_key rank tag) client ≡ []
  pub no_server : pending (w.eps g).tbl (make_key rank tag) server ≡ []

-- The bytes are at `dst`, the request knows their number and is signalled, the packet is back in
-- the pool, and the table has the queues that it had before.
pub record Delivered (w : World) (g p req dst : ℕ) (bs : List ℕ) (o : Option World) : Type 0 where
  pub world : World
  pub returned : o ≡ some world
  pub bytes : world.memory dst ≡ overwrite (w.reqs (req_s p)).size bs (w.memory dst)
  pub size : (world.reqs req).size ≡ (w.reqs (req_s p)).size
  pub sync : (world.reqs req).sync ≡ 1
  pub freed : world.calls ≡ (lci_pk_free_data w p).calls
  pub queues :
      (k : ℕ) (u : InsertType) → IsKey k → pending (world.eps g).tbl k u ≡ pending (w.eps g).tbl k u

pub data_word_fields :
    (g tag : ℕ)
    → g < 2 ^ 14
    → tag < 2 ^ 16
    → (proto_get_proto (make_proto g proto_data tag) ≡ 0)
      × (proto_get_rgid (make_proto g proto_data tag) ≡ g)
      × (proto_get_meta (make_proto g proto_data tag) ≡ tag)
data_word_fields g tag hg ht =
    let (a, c, d) = make_proto_fields g proto_data tag (omega arith) hg in (a, c, omega arith)

pub answer_path : (x : ℕ × ℕ × Table) (a c : ℕ) → x.0 ≡ a → x.1 ≡ c → x ≡ (a, c, x.2)
answer_path x a c e f = λ i. (e i, f i, x.2)

-- The state after a receive that finds nothing.
abbrev pub posted_in : World → ℕ → ℕ → ℕ → ℕ → ℕ → ℕ → World
posted_in w g req dst size rank tag =
    set_ep (set_req w req (lci_init_req dst size (w.reqs req))) g
      (record (w.eps g) { tbl = (lc_hash_insert (w.eps g).tbl (make_key rank tag) req client).2 })

pub lc_recvm-waits :
    (b : Build) (w : World) (g req dst size rank tag : ℕ)
    → IsKey (make_key rank tag)
    → pending (w.eps g).tbl (make_key rank tag) client ≡ []
    → pending (w.eps g).tbl (make_key rank tag) server ≡ []
    → lc_recvm b w dst size rank tag g req ≡ some (posted_in w g req dst size rank tag)
unfolding lc_recvm
lc_recvm-waits b w g req dst size rank tag key nc ns =
    let t = insert_twice (w.eps g).tbl (make_key rank tag) req req client key nc ns in
    ground (arith, t.0)

-- First the receive, then the packet.
unfoldable pub recv_then_packet : Build → World → ℕ → ℕ → ℕ → ℕ → ℕ → ℕ → ℕ → Option World
recv_then_packet b w g p req dst size rank tag = elim (lc_recvm b w dst size rank tag g req) [
  | none ↦ none
  | some w' ↦ lci_serve_recv b w' p (make_proto g proto_data tag)
]

module _ (b : Build) (w : World) (g p req dst size rank tag : ℕ) (bs : List ℕ)
    (m : Meeting b w g p req rank tag bs) where
  -- The table and the state between the two.
  abbrev first_table : Table
  first_table = (lc_hash_insert (w.eps g).tbl (make_key rank tag) req client).2

  abbrev posted : World
  posted = posted_in w g req dst size rank tag

  lc_recvm-posted : lc_recvm b w dst size rank tag g req ≡ some posted
  lc_recvm-posted = lc_recvm-waits b w g req dst size rank tag m.key m.no_client m.no_server

  -- The table after the two, and the state in which the data is delivered.
  abbrev second_table : Table
  second_table = (lc_hash_insert first_table (make_key rank tag) p server).2

  abbrev meeting : World
  meeting =
      let v = announced posted p (make_proto g proto_data tag) in
      set_ep v g (record (v.eps g) { tbl = second_table })

  posted-ep : posted.eps g ≡ record (w.eps g) { tbl = first_table }
  posted-ep = rw (==_refl g)

  posted-own : (meeting.packets p).req ≡ req_s p
  posted-own = ground (arith, m.own)

  posted-from : (posted.reqs (req_s p)).rank ≡ rank
  posted-from = ground (arith, m.apart, m.from)

  packet_matches :
      let v = announced posted p (make_proto g proto_data tag) in
      let q = v.reqs (v.packets p).req in
      lc_hash_insert (v.eps g).tbl (make_key q.rank q.meta) p server ≡ (0, req, second_table)
  packet_matches =
      let t =
        insert_twice (w.eps g).tbl (make_key rank tag) req p client m.key m.no_client m.no_server in
      let k =
        announced_key posted p (req_s p) (make_proto g proto_data tag) rank tag m.own posted-from
          (data_word_fields g tag m.small_gid m.small_tag).2 in
      (λ i. lc_hash_insert (posted-ep i).tbl (k i) p server) ∙ answer_path _ 0 req t.2 t.3

  recv_then_packet-met :
      recv_then_packet b w g p req dst size rank tag
      ≡ some (lci_ce_signal (deliver meeting p req bs) p)
  unfolding recv_then_packet
  recv_then_packet-met =
      let cap_kept : (posted.eps g).cap ≡ (w.eps g).cap = ap (λ e. e.cap) posted-ep in
      let (d, r, e) = data_word_fields g tag m.small_gid m.small_tag in
      rw (lc_recvm-posted, recv_then_packet)
        (serve_recv_explicit b posted g p (make_proto g proto_data tag) r
            (rw (==_refl g) m.explicit)
          ∙ serve_data_matches b posted g p (make_proto g proto_data tag) (posted.eps g).cap req
              second_table bs d m.filled packet_matches
          ∙ dispatch_sync b (deliver meeting p req bs) g p (posted.eps g).cap
              (rw (==_refl g) m.signals) (rw (==_refl g) m.not_glob))

  -- On an endpoint with explicit addressing and synchronous completion that does not count
  -- completions, with a number below 2^14 and for a tag below 2^16, where nothing waits under the
  -- key, which the table can hold, and the packet has its own request with the sender's rank: the
  -- receive is posted first, on another request, then the data packet comes. Both calls return, and
  -- the packet's bytes are at the receive's buffer, as many as its size says; the request has that
  -- size and is signalled, the packet goes back to a pool, and the table has the queues it had.
  pub recv_first : Delivered w g p req dst bs (recv_then_packet b w g p req dst size rank tag)
  recv_first =
      let s = deliver-Signalled meeting p req (req_s p) bs posted-own in
      let t =
        insert_twice (w.eps g).tbl (make_key rank tag) req p client m.key m.no_client m.no_server in
      let dst_kept : (meeting.reqs req).buffer ≡ dst = ground (arith, m.apart, m.own) in
      let size_kept : (meeting.reqs (req_s p)).size ≡ (w.reqs (req_s p)).size =
        ground (arith, m.apart, m.own) in
      record {
        world = lci_ce_signal (deliver meeting p req bs) p;
        returned = recv_then_packet-met;
        bytes = ground (arith, s.bytes, dst_kept, size_kept);
        size = s.size ∙ size_kept;
        sync = s.sync;
        freed = s.freed ∙ ground arith;
        queues = λ k u hk.
            ap (λ x. pending x k u) (ap (λ e. (e g).tbl) s.tables ∙ rw (==_refl g)) ∙ t.4 k u hk;
      }
