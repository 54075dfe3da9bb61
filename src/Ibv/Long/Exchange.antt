-- ===== src/Ibv/Long/Exchange.antt =====
-- A long message over the ibv server from the receiver's answer on.
use lc.Base.{
  ℕ, ◌+◌, ◌-◌, ◌%◌, ◌^◌, ◌<◌, ◌≤◌, ◌≡◌, sym, ap, ◌∙◌, List, [], ◌∷◌, ◌++◌, Option, some, Bool, true,
  false, arith, bit_or, ◌&&◌,
}
use mathlib.Core.Path.{subst}
use lc.Endpoint.{has, ar_exp, ce_sync, ce_glob}
use lc.Engine.{
  Rtr, rma_reg, sendm, rma_dereg, rma_rtr, rtr_size, callback, pool_put, World, Build, overwrite,
  memcpy, lci_serve_send,
}
use lc.HashTable.{Table, InsertType}
use lc.HashTable.Keys.{IsKey}
use lc.HashTable.Pending.{pending}
use lc.Wire.{u32, proto_rtr, make_proto}
use lc.Calls.Rendezvous.{or_else}
use lc.Calls.Request.{Agreed, answer_of}
use lc.Calls.Twice.{Answered}
use lc.Ibv.{Server, Registrar, imm_rtr}
use lc.Ibv.Progress.{Wc, rank_of, on_recv}
use lc.Ibv.Long.{Replied, Wrote, ended_at}
use lc.Ibv.Long.Writing.{answer-Notice, write-Notice, write-Landed, answer-Writes}
use lc.Ibv.Long.Ending.{Ended, both-Ended, put_both}

-- The outcome. At the receiver: the sender's bytes are at the buffer, the request is signalled, has
-- the size `known` and no registration left, and the table has the queues it had. At the sender:
-- its write is complete, its callback is called and its packet is free.
pub record Exchanged (b : Build) (old : List ℕ) (t : Table) (mem : ℕ) (w' sent : World)
    (last : Bool) (g p notice req dst size room_or_size cb ce sp : ℕ) (bytes : List ℕ)
    (o : Option World) : Type 0 where
  pub world : World
  pub returned : o ≡ some world
  pub bytes_there : world.memory dst ≡ overwrite size bytes old
  pub sync : (world.reqs req).sync ≡ 1
  pub known_size : (world.reqs req).size ≡ room_or_size
  pub queues : (k : ℕ) (u : InsertType) → IsKey k → pending (world.eps g).tbl k u ≡ pending t k u
  pub freed : world.calls ≡ w'.calls ++ rma_dereg mem ∷ put_both last p notice
  pub finished : World
  pub served : lci_serve_send b sent sp ≡ some finished
  pub called : finished.calls ≡ sent.calls ++ callback cb ce ∷ pool_put sp ∷ []

-- From the write on, for a receive that has been answered.
module _ (b : Build) (r : Server) (w sent : World) (g p req dst handle size : ℕ) (c : Rtr)
    (o : Option World) (wc : Wc) (last : Bool) (a : Agreed w g p req dst handle size c o)
    (signals : b.has_sync && has (w.eps g).cap ce_sync ≡ true)
    (not_glob : b.has_glob && has (w.eps g).cap ce_glob ≡ false) (heap : r.heap ≡ w.heap)
    (above : w.heap ≤ p) (below : p < w.heap + 2 ^ 31) (address : p < 2 ^ 64)
    (noticed : wc.with_imm ≡ true)
    (word : wc.imm_data ≡ bit_or ((p + 2 ^ 64 - w.heap) % u32) imm_rtr) (bytes : List ℕ) where
  abbrev landed : World
  landed = memcpy a.world dst bytes c.size

  waits : Answered b landed p
  waits = record {
    proto = a.proto;
    ref = a.ref;
    poolid = a.poolid;
    signals = ground (arith, a.ep, a.cap, signals);
    not_glob = ground (arith, a.ep, a.cap, not_glob);
  }

  ends : Ended last landed p wc.wr_id (ended_at last b r landed p wc)
  ends =
      both-Ended b r landed p ((p + 2 ^ 64 - w.heap) % u32) wc waits (omega arith) (omega arith)
        noticed word last

  pub landed-Exchanged :
      (cb ce sp : ℕ)
      → (v : World) → lci_serve_send b sent sp ≡ some v
      → v.calls ≡ sent.calls ++ callback cb ce ∷ pool_put sp ∷ []
      → Exchanged b
          (w.memory dst)
          (w.eps g).tbl
          (w.mem_at dst c.size)
          landed
          sent
          last
          g
          p
          wc.wr_id
          req
          dst
          c.size
          size
          cb
          ce
          sp
          bytes
          (ended_at last b r landed p wc)
  landed-Exchanged cb ce sp v e calls = record {
    world = ends.world;
    returned = ends.returned;
    bytes_there = ap (λ f. f dst) ends.memory ∙ ground (arith, ap (λ f. f dst) a.memory);
    sync = ap (λ q. (ends.world.reqs q).sync) (sym a.receive) ∙ ends.sync;
    known_size =
        ap (λ q. (ends.world.reqs q).size) (sym a.receive)
        ∙ ends.size
        ∙ ap (λ q. (a.world.reqs q).size) a.receive
        ∙ a.req_size;
    queues = λ k u hk. ap (λ f. pending (f g).tbl k u) ends.eps ∙ a.queues k u hk;
    freed =
        ends.calls ∙ ap (λ n. a.world.calls ++ rma_dereg n ∷ put_both last p wc.wr_id) a.rma_mem;
    finished = v;
    served = e;
    called = calls;
  }

-- From the answer on.
module _ (b : Build) (m : Registrar) (s r : Server) (w ws' w' : World) (g p req dst handle size : ℕ)
    (c : Rtr) (o : Option World) (wc2 wc3 : Wc) (last : Bool)
    (a : Agreed w g p req dst handle size c o) where
  pub after_reply-Exchanged :
      b.has_sync && has (w.eps g).cap ce_sync ≡ true
      → b.has_glob && has (w.eps g).cap ce_glob ≡ false
      → r.heap ≡ w.heap
      → w.heap ≤ p
      → p < w.heap + 2 ^ 31
      → p < 2 ^ 64
      → w.calls ≡ []
      → ws'.calls ≡ []
      → (w.eps g).gid < 2 ^ 14
      → b.has_exp && has (ws'.eps (w.eps g).gid).cap ar_exp ≡ true
      → c.size < 2 ^ 32
      → Replied m r a.world p ws' wc2
      → let sent = or_else (on_recv b s ws' wc2) ws' in
        Wrote m s sent ws' a.world w' wc3
        → Exchanged b
            (w.memory dst)
            (w.eps g).tbl
            (w.mem_at dst c.size)
            w'
            sent
            last
            g
            p
            wc3.wr_id
            req
            dst
            c.size
            size
            c.cb
            c.ce
            wc2.wr_id
            (ws'.memory c.src_addr)
            (ended_at last b r w' p wc3)
  after_reply-Exchanged signals not_glob heap above below address none_r none_s small back fits
        replied wrote =
      let x : Rtr = answer_of w p dst c in
      let (plain, word) =
        answer-Notice m r a.world.calls _ dst c.size handle _ p _ wc2
          (a.calls
            ∙ ap
                (λ l.
                  l
                  ++ rma_reg (w.mem_at dst c.size) dst c.size
                    ∷ sendm handle rtr_size p (make_proto (w.eps g).gid proto_rtr 0)
                    ∷ [])
                none_r)
          replied.notice in
      let writes =
        answer-Writes b s ws' wc2 (w.eps g).gid x small back plain word
          (replied.echoed ∙ a.payload) in
      let sent = writes.sent in
      let is_sent : or_else (on_recv b s ws' wc2) ws' ≡ sent =
        ap (λ q. or_else q ws') writes.returned in
      let wrote' = subst (λ v. Wrote m s v ws' a.world w' wc3) is_sent wrote in
      let asks : sent.calls
          ≡ rma_rtr (s.qp (rank_of s wc2.qp_num)) c.src_addr dst x.rkey c.size x.comm_id wc2.wr_id
            ∷ [] =
        writes.asks
        ∙ ap
            (λ l.
              l
              ++ rma_rtr (s.qp (rank_of s wc2.qp_num)) c.src_addr dst x.rkey c.size x.comm_id
                  wc2.wr_id
                ∷ [])
            none_s in
      let (noticed, imm) =
        write-Notice m s sent.calls _ c.src_addr dst x.rkey c.size x.comm_id wc2.wr_id wc3 asks
          wrote'.notice in
      let lands : w' ≡ memcpy a.world dst (ws'.memory c.src_addr) c.size =
        write-Landed m s sent.calls _ c.src_addr dst x.rkey c.size x.comm_id wc2.wr_id ws' a.world
          w' asks fits wrote'.landed in
      let outcome = λ (v q : World).
        Exchanged b (w.memory dst) (w.eps g).tbl (w.mem_at dst c.size) v q last g p wc3.wr_id req
          dst c.size size c.cb c.ce wc2.wr_id (ws'.memory c.src_addr) (ended_at last b r v p wc3) in
      subst (λ v. outcome v (or_else (on_recv b s ws' wc2) ws')) (sym lands)
        (subst (outcome (memcpy a.world dst (ws'.memory c.src_addr) c.size)) (sym is_sent) (
          landed-Exchanged b r w sent g p req dst handle size c o wc3 last a signals not_glob heap
            above below address noticed imm (ws'.memory c.src_addr) c.cb c.ce wc2.wr_id
            writes.finished writes.served writes.calls))
