-- ===== src/Ibv/Long/Writing.antt =====
-- The sender's step at the receiver's answer: lci_handle_rtr of src/include/proto.h over the ibv
-- server, and what the write is noticed by.
use lc.Base.{
  ℕ, ◌^◌, ◌<◌, ◌≡◌, sym, ap, ◌∙◌, List, [], ◌∷◌, ◌++◌, some, Bool, true, false, arith, ltb, bit_or,
  ◌&&◌, append_assoc,
}
use mathlib.Core.Path.{subst}
use lc.Endpoint.{has, ar_exp}
use lc.Engine.{
  Rtr, rts, Call, sendm, rma_reg, rma_rtr, callback, pool_put, World, Build, memcpy, lci_handle_rtr,
  lci_serve_recv_expl, lci_serve_send,
}
use lc.Engine.Rules.{announced, serve_recv_explicit}
use lc.Wire.{proto_rtr, make_proto, proto_get_proto}
use lc.Wire.RoundTrip.{make_proto_fields}
use lc.Calls.Rendezvous.{lci_handle_rtr-writes}
use lc.Ibv.{
  Server, Registrar, rdma_write_with_imm, imm_rtr, lc_server_sendm, lc_server_rma_reg,
  lc_server_rma_rtr,
}
use lc.Ibv.Progress.{Wc, rank_of, told, on_recv}
use lc.Ibv.Arrive.{idle, NoticeOf, rtr_asks, rtr-Notice, on_message}
use lc.Ibv.Serve.{serve, serve_all}
use lc.Ibv.Long.{LandedOf}

-- The two calls of the receiver's answer are noticed by its word.
pub answer-Notice :
    (m : Registrar) (r : Server) (l : List Call) (mem dst n rep size p word : ℕ) (wc : Wc)
    → l ≡ rma_reg mem dst n ∷ sendm rep size p word ∷ []
    → NoticeOf (serve_all m (idle r) l).verbs wc
    → (wc.with_imm ≡ false) × (wc.imm_data ≡ word)
unfolding serve_all serve lc_server_sendm lc_server_rma_reg
answer-Notice m r l mem dst n rep size p word wc e h =
    subst (λ x. NoticeOf (serve_all m (idle r) x).verbs wc) e h

pub request-Notice :
    (m : Registrar) (s : Server) (l : List Call) (rep size p word : ℕ) (wc : Wc)
    → l ≡ sendm rep size p word ∷ []
    → NoticeOf (serve_all m (idle s) l).verbs wc
    → (wc.with_imm ≡ false) × (wc.imm_data ≡ word)
unfolding serve_all serve lc_server_sendm
request-Notice m s l rep size p word wc e h =
    subst (λ x. NoticeOf (serve_all m (idle s) x).verbs wc) e h

rtr-Landed :
    (m : Registrar) (s : Server) (rep buf addr key size sid p : ℕ) (registered : Bool)
    (ws w w' : World)
    → size < 2 ^ 32
    → LandedOf
        (rtr_asks m s rep buf size p registered
          (rdma_write_with_imm addr key (bit_or sid imm_rtr))).verbs
        ws
        w
        w'
    → w' ≡ memcpy w addr (ws.memory buf) size
rtr-Landed m s rep buf addr key size sid p true ws w w' h l =
    l ∙ ap (memcpy w addr (ws.memory buf)) (omega arith)
rtr-Landed m s rep buf addr key size sid p false ws w w' h l =
    l ∙ ap (memcpy w addr (ws.memory buf)) (omega arith)

-- The write is noticed by the offset of the receiver's packet, and moves the whole message.
pub write-Notice :
    (m : Registrar) (s : Server) (l : List Call) (rep buf addr key size sid p : ℕ) (wc : Wc)
    → l ≡ rma_rtr rep buf addr key size sid p ∷ []
    → NoticeOf (serve_all m (idle s) l).verbs wc
    → (wc.with_imm ≡ true) × (wc.imm_data ≡ bit_or sid imm_rtr)
unfolding serve_all serve lc_server_rma_rtr
write-Notice m s l rep buf addr key size sid p wc e h =
    rtr-Notice m s rep buf addr key size sid p wc (ltb s.max_inline size)
      (subst (λ x. NoticeOf (serve_all m (idle s) x).verbs wc) e h)

pub write-Landed :
    (m : Registrar) (s : Server) (l : List Call) (rep buf addr key size sid p : ℕ) (ws w w' : World)
    → l ≡ rma_rtr rep buf addr key size sid p ∷ []
    → size < 2 ^ 32
    → LandedOf (serve_all m (idle s) l).verbs ws w w'
    → w' ≡ memcpy w addr (ws.memory buf) size
unfolding serve_all serve lc_server_rma_rtr
write-Landed m s l rep buf addr key size sid p ws w w' e h x =
    rtr-Landed m s rep buf addr key size sid p (ltb s.max_inline size) ws w w' h
      (subst (λ y. LandedOf (serve_all m (idle s) y).verbs ws w w') e x)

serve_rtr :
    (b : Build) (w : World) (g p word cap : ℕ)
    → proto_get_proto word ≡ 1
    → lci_serve_recv_expl b w g p word cap ≡ lci_handle_rtr (announced w p word) g p
unfolding lci_serve_recv_expl
serve_rtr b w g p word cap d = ground (arith, d)

-- What the sender does at the notice of the answer, and when its write is complete.
pub record Writes (b : Build) (s : Server) (ws : World) (wc : Wc) (c : Rtr) : Type 0 where
  pub sent : World
  pub returned : on_recv b s ws wc ≡ some sent
  pub asks :
      sent.calls
      ≡ ws.calls
        ++ rma_rtr
            (s.qp (rank_of s wc.qp_num))
            c.src_addr
            c.tgt_addr
            c.rkey
            c.size
            c.comm_id
            wc.wr_id
          ∷ []
  pub finished : World
  pub served : lci_serve_send b sent wc.wr_id ≡ some finished
  pub calls : finished.calls ≡ sent.calls ++ callback c.cb c.ce ∷ pool_put wc.wr_id ∷ []

pub answer-Writes :
    (b : Build) (s : Server) (ws : World) (wc : Wc) (g : ℕ) (c : Rtr)
    → g < 2 ^ 14
    → b.has_exp && has (ws.eps g).cap ar_exp ≡ true
    → wc.with_imm ≡ false
    → wc.imm_data ≡ make_proto g proto_rtr 0
    → (ws.packets wc.wr_id).payload ≡ rts c
    → Writes b s ws wc c
answer-Writes b s ws wc g c small explicit plain word filled =
    let p : ℕ = wc.wr_id in
    let w1 = told s ws wc in
    let w2 = announced w1 p (make_proto g proto_rtr 0) in
    let (d, r, _) = make_proto_fields g proto_rtr 0 (omega arith) small in
    let (sent, e, asks, (done, e', calls)) =
      lci_handle_rtr-writes b w2 g p c (ground (arith, filled)) in
    let rep : (w2.reqs (w2.packets p).req).rhandle ≡ s.qp (rank_of s wc.qp_num) = ground arith in
    let call = λ (h : ℕ). rma_rtr h c.src_addr c.tgt_addr c.rkey c.size c.comm_id p in
    let asked : sent.calls ≡ ws.calls ++ call (s.qp (rank_of s wc.qp_num)) ∷ [] =
      asks ∙ ap (λ h. ws.calls ++ call h ∷ []) rep in
    record {
      sent = sent;
      returned =
          on_message b s ws wc (make_proto g proto_rtr 0) plain word
          ∙ serve_recv_explicit b w1 g p (make_proto g proto_rtr 0) r explicit
          ∙ serve_rtr b w1 g p (make_proto g proto_rtr 0) (w1.eps g).cap d
          ∙ e;
      asks = asked;
      finished = done;
      served = e';
      calls =
          calls
          ∙ sym (append_assoc ws.calls (call _ ∷ []) (callback c.cb c.ce ∷ pool_put p ∷ []))
          ∙ ap (λ l. l ++ callback c.cb c.ce ∷ pool_put p ∷ []) (sym asks);
    }
