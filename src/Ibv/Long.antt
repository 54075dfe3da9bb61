-- ===== src/Ibv/Long.antt =====
-- A long message over the ibv server: the steps of the two processes, and what the network does
-- between them.
pub mod Asking
pub mod Writing
pub mod Ending
pub mod Exchange
pub mod Whole
use lc.Base.{
  ℕ, ◌+◌, ◌^◌, ◌<◌, ◌≤◌, ◌≡◌, ◌≢◌, List, [], ◌∷◌, Option, none, some, Bool, true, false, ◌&&◌,
}
use lc.Endpoint.{has, ar_exp, ce_sync, ce_glob}
use lc.Engine.{World, Build, memcpy, req_s, lci_serve_send}
use lc.HashTable.{client, server, make_key}
use lc.HashTable.Keys.{IsKey}
use lc.HashTable.Pending.{pending}
use lc.Wire.{u32}
use lc.Calls.{Env, lc_recvl}
use lc.Calls.Rendezvous.{Carried}
use lc.Ibv.{
  Server, Registrar, SendWr, send_with_imm, rdma_write, rdma_write_with_imm, Verb, post_send,
  post_srq_recv, reg, dereg,
}
use lc.Ibv.Progress.{Wc, on_recv}
use lc.Ibv.Arrive.{idle, NoticeOf}
use lc.Ibv.Serve.{serve_all}

-- A receiver with explicit addressing and synchronous completion on endpoint `g`, where nothing
-- waits under the key of the sender's rank and the tag, and a packet `p` of its server's heap.
pub record Expecting (b : Build) (r : Server) (w : World) (g p req rank tag : ℕ) : Type 0 where
  pub small_gid : g < 2 ^ 14
  pub small_tag : tag < 2 ^ 16
  pub explicit : b.has_exp && has (w.eps g).cap ar_exp ≡ true
  pub signals : b.has_sync && has (w.eps g).cap ce_sync ≡ true
  pub not_glob : b.has_glob && has (w.eps g).cap ce_glob ≡ false
  pub apart : req ≢ req_s p
  pub key : IsKey (make_key rank tag)
  pub no_client : pending (w.eps g).tbl (make_key rank tag) client ≡ []
  pub no_server : pending (w.eps g).tbl (make_key rank tag) server ≡ []
  pub heap : r.heap ≡ w.heap
  pub above : w.heap ≤ p
  pub below : p < w.heap + 2 ^ 31
  pub address : p < 2 ^ 64

-- The receiver's first two steps, the notice of the request to send first or the receive.
unfoldable pub asked_at :
    Bool → Build → Env → Server → World → Wc → ℕ → ℕ → ℕ → ℕ → ℕ → ℕ → Option World
asked_at true b env r w wc g req dst room rank tag = elim (on_recv b r w wc) [
  | none ↦ none
  | some w' ↦ lc_recvl b env w' dst room rank tag g req
]
asked_at false b env r w wc g req dst room rank tag =
    elim (lc_recvl b env w dst room rank tag g req) [ none ↦ none | some w' ↦ on_recv b r w' wc ]

-- Its last two, the notice of the end of the write first or the completion of its answer.
unfoldable pub ended_at : Bool → Build → Server → World → ℕ → Wc → Option World
ended_at true b r w p wc = elim (on_recv b r w wc) [ none ↦ none | some w' ↦ lci_serve_send b w' p ]
ended_at false b r w p wc = elim (lci_serve_send b w p) [
  | none ↦ none
  | some w' ↦ on_recv b r w' wc
]

-- The network brings the request to send into the packet of the notice.
pub record Requested (m : Registrar) (s : Server) (sent : World) (sp : ℕ) (w : World) (wc : Wc)
    : Type 0 where
  pub notice : NoticeOf (serve_all m (idle s) sent.calls).verbs wc
  pub carried : Carried (sent.packets sp).payload (w.packets wc.wr_id).payload

-- It brings the answer, the payload of the packet `p`, into the packet of the notice.
pub record Replied (m : Registrar) (r : Server) (answered : World) (p : ℕ) (ws : World) (wc : Wc)
    : Type 0 where
  pub notice : NoticeOf (serve_all m (idle r) answered.calls).verbs wc
  pub echoed : (ws.packets wc.wr_id).payload ≡ (answered.packets p).payload

-- A write puts the bytes at its local address to its remote address, as many as it says.
abbrev pub LandedBy : SendWr → World → World → World → Type 0
LandedBy wr ws w w' = elim wr.opcode [
  | send_with_imm imm ↦ ⊥
  | rdma_write addr key ↦ w' ≡ memcpy w addr (ws.memory wr.sge.addr) wr.sge.length
  | rdma_write_with_imm addr key imm ↦ w' ≡ memcpy w addr (ws.memory wr.sge.addr) wr.sge.length
]

abbrev pub LandedOf : List Verb → World → World → World → Type 0
LandedOf [] ws w w' = ⊥
LandedOf (post_send q wr ∷ []) ws w w' = LandedBy wr ws w w'
LandedOf (post_send q wr ∷ v ∷ l) ws w w' = ⊥
LandedOf (post_srq_recv p g ∷ l) ws w w' = LandedOf l ws w w'
LandedOf (reg a n ∷ l) ws w w' = LandedOf l ws w w'
LandedOf (dereg mem ∷ l) ws w w' = LandedOf l ws w w'

-- It carries out the write of the sender and brings its notice.
pub record Wrote (m : Registrar) (s : Server) (sent ws w w' : World) (wc : Wc) : Type 0 where
  pub notice : NoticeOf (serve_all m (idle s) sent.calls).verbs wc
  pub landed : LandedOf (serve_all m (idle s) sent.calls).verbs ws w w'
