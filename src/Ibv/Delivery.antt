-- ===== src/Ibv/Delivery.antt =====
-- A message from lc_send at one process to lc_recvm at another, over the ibv server.
use lc.Base.{
  ℕ, ◌^◌, ◌≤◌, ◌<◌, ◌≡◌, ◌≢◌, refl, sym, ap, ◌∙◌, List, [], Option, none, some, true, false, ◌&&◌,
  arith, length,
}
use mathlib.Core.Path.{fun_ext}
use lc.Endpoint.{has, ar_exp, ce_sync, ce_glob}
use lc.Engine.{buffer, World, Build, req_s, overwrite, lci_serve_recv}
use lc.HashTable.{client, server, make_key, InsertType}
use lc.HashTable.Keys.{IsKey}
use lc.HashTable.Pending.{pending}
use lc.Wire.{proto_data, make_proto}
use lc.Cq.{ok}
use lc.Calls.{Env, post_msg_size, lc_send, lc_recvm}
use lc.Calls.Rendezvous.{HasPacket}
use lc.Calls.Order.{Meeting, Delivered, posted_in, lc_recvm-waits, recv_then_packet, recv_first}
use lc.Calls.Arrival.{packet_then_recv, arrived_first}
use lc.Ibv.{Server, Registrar}
use lc.Ibv.Progress.{Wc, rank_of, told, on_recv}
use lc.Ibv.Arrive.{idle, NoticeOf, on_message}
use lc.Ibv.Sending.{overwrite-overwrite, lc_send-Sent}
use lc.Ibv.Serve.{serve_all, carried}

-- A receiver with explicit addressing and synchronous completion on endpoint `g`, where nothing
-- waits under the key of the sender's rank and the tag.
pub record Open (b : Build) (w : World) (g p req rank tag : ℕ) : Type 0 where
  pub small_gid : g < 2 ^ 14
  pub small_tag : tag < 2 ^ 16
  pub explicit : b.has_exp && has (w.eps g).cap ar_exp ≡ true
  pub signals : b.has_sync && has (w.eps g).cap ce_sync ≡ true
  pub not_glob : b.has_glob && has (w.eps g).cap ce_glob ≡ false
  pub apart : req ≢ req_s p
  pub key : IsKey (make_key rank tag)
  pub no_client : pending (w.eps g).tbl (make_key rank tag) client ≡ []
  pub no_server : pending (w.eps g).tbl (make_key rank tag) server ≡ []

-- The receiver's two steps, in either order.
pub recv_then_notice : Build → Server → World → Wc → ℕ → ℕ → ℕ → ℕ → ℕ → ℕ → Option World
recv_then_notice b r w wc g req dst room rank tag = elim (lc_recvm b w dst room rank tag g req) [
  | none ↦ none
  | some w' ↦ on_recv b r w' wc
]

pub notice_then_recv : Build → Server → World → Wc → ℕ → ℕ → ℕ → ℕ → ℕ → ℕ → Option World
notice_then_recv b r w wc g req dst room rank tag = elim (on_recv b r w wc) [
  | none ↦ none
  | some w' ↦ lc_recvm b w' dst room rank tag g req
]

module _ (b : Build) (r : Server) (w : World) (wc : Wc) (g req dst room rank tag : ℕ) (bs : List ℕ)
    (o : Open b w g wc.wr_id req rank tag) (from : rank_of r wc.qp_num ≡ rank)
    (filled : (w.packets wc.wr_id).payload ≡ buffer bs) (plain : wc.with_imm ≡ false)
    (word : wc.imm_data ≡ make_proto g proto_data tag) where
  met : Meeting b (told r w wc) g wc.wr_id req rank tag bs
  met = record {
    small_gid = o.small_gid;
    small_tag = o.small_tag;
    explicit = o.explicit;
    signals = o.signals;
    not_glob = o.not_glob;
    own = ground arith;
    from = ground (arith, from);
    filled = ground (arith, filled);
    apart = o.apart;
    key = o.key;
    no_client = o.no_client;
    no_server = o.no_server;
  }

  heard :
      (v : World)
      → on_recv b r v wc ≡ lci_serve_recv b (told r v wc) wc.wr_id (make_proto g proto_data tag)
  heard v = on_message b r v wc (make_proto g proto_data tag) plain word

  -- A receive is posted beside the packet's own request.
  told-posted :
      told r (posted_in w g req dst room rank tag) wc
      ≡ posted_in (told r w wc) g req dst room rank tag
  told-posted =
      ap (λ f. record (posted_in (told r w wc) g req dst room rank tag) { reqs = f })
        (fun_ext (λ i. ground (arith, o.apart)))

  recv_then_notice-eq :
      recv_then_notice b r w wc g req dst room rank tag
      ≡ recv_then_packet b (told r w wc) g wc.wr_id req dst room rank tag
  unfolding recv_then_notice recv_then_packet
  recv_then_notice-eq =
      let word_of = make_proto g proto_data tag in
      let here : recv_then_notice b r w wc g req dst room rank tag
          ≡ on_recv b r (posted_in w g req dst room rank tag) wc =
        rw
          (
            lc_recvm-waits b w g req dst room rank tag o.key o.no_client o.no_server,
            recv_then_notice,
          )
          refl in
      let there : recv_then_packet b (told r w wc) g wc.wr_id req dst room rank tag
          ≡ lci_serve_recv b (posted_in (told r w wc) g req dst room rank tag) wc.wr_id word_of =
        rw
          (
            lc_recvm-waits b (told r w wc) g req dst room rank tag o.key o.no_client o.no_server,
            recv_then_packet,
          )
          refl in
      here
      ∙ heard (posted_in w g req dst room rank tag)
      ∙ ap (λ x. lci_serve_recv b x wc.wr_id word_of) told-posted
      ∙ sym there

  notice_then_recv-eq :
      notice_then_recv b r w wc g req dst room rank tag
      ≡ packet_then_recv b (told r w wc) g wc.wr_id req dst room rank tag
  unfolding notice_then_recv packet_then_recv
  notice_then_recv-eq = rw (heard w, notice_then_recv) refl

-- What the network brings of a send: the notice of the server's call, with the size that was sent,
-- and the bytes in the packet that was posted for it.
pub record Brought (m : Registrar) (s : Server) (sent : World) (size : ℕ) (w : World) (wc : Wc)
    : Type 0 where
  pub notice : NoticeOf (serve_all m (idle s) sent.calls).verbs wc
  pub byte_len : wc.byte_len ≡ size
  pub filled : (w.packets wc.wr_id).payload ≡ buffer (carried sent sent.calls)

-- The outcome at the receiver: the bytes that the sender had are at `dst`, the request knows their
-- number and is signalled, and the table has the queues it had.
pub record Received (w : World) (g req dst size : ℕ) (mem : List ℕ) (o : Option World)
    : Type 0 where
  pub world : World
  pub returned : o ≡ some world
  pub bytes : world.memory dst ≡ overwrite size mem (w.memory dst)
  pub size_known : (world.reqs req).size ≡ size
  pub sync : (world.reqs req).sync ≡ 1
  pub queues :
      (k : ℕ) (u : InsertType) → IsKey k → pending (world.eps g).tbl k u ≡ pending (w.eps g).tbl k u

Delivered-Received :
    (r : Server) (w : World) (wc : Wc) (g req dst size : ℕ) (mem : List ℕ) (o o' : Option World)
    → size ≤ length mem
    → wc.byte_len ≡ size
    → o' ≡ o
    → Delivered (told r w wc) g wc.wr_id req dst (overwrite size mem []) o
    → Received w g req dst size mem o'
Delivered-Received r w wc g req dst size mem o o' h e same d =
    let n : ((told r w wc).reqs (req_s wc.wr_id)).size ≡ size = ground (arith, e) in
    record {
      world = d.world;
      returned = same ∙ d.returned;
      bytes =
          d.bytes
          ∙ ap (λ k. overwrite k (overwrite size mem []) (w.memory dst)) n
          ∙ overwrite-overwrite size mem (w.memory dst) h;
      size_known = d.size ∙ n;
      sync = d.sync;
      queues = d.queues;
    }

-- A message of at most 12180 bytes, the room in a packet, from a sender with a packet at hand and
-- nothing else to serve, to a receiver on an endpoint with explicit addressing and synchronous
-- completion that does not count completions, on the same endpoint number below 2^14 and under a
-- tag below 2^16, where nothing else waits under the key, which the table can hold, and the request
-- is not the packet's own, over a network that brings the notice of the send and its bytes from a
-- queue pair of the sender's rank: lc_send returns LC_OK, and whether lc_recvm comes before or
-- after the notice, both steps return, the sender's bytes are at the receive's buffer, and the
-- request has their number and is signalled.
pub send-Received :
    (b : Build) (env : Env) (m : Registrar) (s r : Server) (ws w : World) (wc : Wc)
    (src size rank tag gs cb ce p g req dst room from : ℕ)
    → ws.calls ≡ []
    → size ≤ post_msg_size
    → size ≤ length (ws.memory src)
    → HasPacket env p
    → (ws.eps gs).gid ≡ g
    → Open b w g wc.wr_id req from tag
    → rank_of r wc.qp_num ≡ from
    → ((sent : World)
        → lc_send env ws src size rank tag gs cb ce ≡ some (ok, sent)
        → Brought m s sent size w wc)
    → ((sent : World) × (lc_send env ws src size rank tag gs cb ce ≡ some (ok, sent)))
      × Received w g req dst size
          (ws.memory src)
          (recv_then_notice b r w wc g req dst room from tag)
      × Received w g req dst size
          (ws.memory src)
          (notice_then_recv b r w wc g req dst room from tag)
send-Received b env m s r ws w wc src size rank tag gs cb ce p g req dst room from none_yet fits
      there h same o is_from network =
    let bs = overwrite size (ws.memory src) [] in
    let (left, went, sent) =
      lc_send-Sent env m s ws src size rank tag gs cb ce p none_yet fits there h in
    let brought = network left went in
    let (plain, imm) = sent.notices wc brought.notice in
    let word : wc.imm_data ≡ make_proto g proto_data tag =
      imm ∙ ap (λ x. make_proto x proto_data tag) same in
    let filled : (w.packets wc.wr_id).payload ≡ buffer bs =
      brought.filled ∙ ap buffer sent.carries in
    let meeting = met b r w wc g req dst room from tag bs o is_from filled plain word in
    (
      (left, went),
      Delivered-Received r w wc g req dst size (ws.memory src) _ _ there brought.byte_len
          (recv_then_notice-eq b r w wc g req dst room from tag bs o is_from filled plain word)
          (recv_first b (told r w wc) g wc.wr_id req dst room from tag bs meeting),
      Delivered-Received r w wc g req dst size (ws.memory src) _ _ there brought.byte_len
          (notice_then_recv-eq b r w wc g req dst room from tag bs o is_from filled plain word)
          (arrived_first b (told r w wc) g wc.wr_id req dst room from tag bs meeting),
    )
