-- ===== src/Calls/Rendezvous.antt =====
-- A long message: the request to send, the answer, the write and the two completions.
use lc.Base.{
  ℕ, ◌+◌, ◌-◌, ◌%◌, ◌^◌, ◌≤◌, ◌<◌, ◌≡◌, ◌≢◌, refl, ap, ◌∙◌, [], ◌∷◌, ◌++◌, Option, none, some,
  arith, false, append_assoc,
}
use mathlib.Core.Path.{subst}
use lc.Cq.{ok}
use lc.Engine.{
  Rtr, Payload, buffer, rts, sendm, rma_reg, rma_rtr, pool_put, callback, World, Build, no_pool,
  rtr_size, rts_size, set_packet, lci_pk_init, prepare_rtr, emit, lci_handle_rtr, lci_handle_rts,
  lci_serve_send,
}
use lc.Wire.{u32, proto_rtr, proto_rts, proto_long, make_proto}
use lc.Calls.{Env, rts_of, lc_sendl}

-- What the 40 bytes of a request to send carry over.
abbrev pub Carried : Payload → Payload → Type 0
Carried (rts a) (rts c) =
    (c.cb ≡ a.cb) × (c.ce ≡ a.ce) × (c.src_addr ≡ a.src_addr) × (c.size ≡ a.size)
Carried (buffer _) k = ⊥
Carried (rts _) (buffer _) = ⊥

abbrev pub or_else : Option World → World → World
or_else none w = w
or_else (some w') w = w'

-- The sender has a packet for its request to send.
pub record HasPacket (env : Env) (sp : ℕ) : Type 0 where
  pub free : env.deadlock ≡ false
  pub got : env.got ≡ sp
  pub there : sp ≢ 0

-- A request to send with the sender's own values.
abbrev pub Announces : ℕ → ℕ → ℕ → ℕ → Rtr → Type 0
Announces cb ce src size c = (c.cb ≡ cb) × (c.ce ≡ ce) × (c.src_addr ≡ src) × (c.size ≡ size)

pub Carried-Announces :
    (a : Rtr) (k : Payload) (cb ce src size : ℕ)
    → Announces cb ce src size a
    → Carried (rts a) k
    → (c : Rtr) × (k ≡ rts c) × Announces cb ce src size c
Carried-Announces a (buffer _) cb ce src size h c = absurd c
Carried-Announces a (rts x) cb ce src size (h0, h1, h2, h3) (c0, c1, c2, c3) =
    (x, refl, (c0 ∙ h0, c1 ∙ h1, c2 ∙ h2, c3 ∙ h3))

pub lc_sendl-asks :
    (env : Env) (ws : World) (src size rank tag g cb ce sp : ℕ)
    → HasPacket env sp
    → let (s, asked) = lc_sendl env ws src size rank tag g cb ce in
      (s ≡ ok)
      × (asked.calls
          ≡ ws.calls
            ++ sendm (env.rep rank).handle rts_size sp (make_proto (ws.eps g).gid proto_rts tag)
              ∷ [])
      × ((a : Rtr) × ((asked.packets sp).payload ≡ rts a) × Announces cb ce src size a)
unfolding lc_sendl
lc_sendl-asks env ws src size rank tag g cb ce sp h =
    let c = rts_of (ws.packets sp).payload in
    let a : Rtr = record c { src_addr = src; size = size; cb = cb; ce = ce } in
    (
      ground (arith, h.free, h.got, h.there),
      ground (arith, h.free, h.got, h.there),
      (a, ground (arith, h.free, h.got, h.there), (refl, refl, refl, refl)),
    )

-- The answer: the receive buffer is registered, and its address and key go to the sender.
lci_handle_rts-answers :
    (wr : World) (g rp : ℕ) (c : Rtr)
    → (wr.packets rp).payload ≡ rts c
    → let q = wr.reqs (wr.packets rp).req in
      let mem = wr.mem_at q.buffer c.size in
      (wr' : World) × (lci_handle_rts wr g rp ≡ some wr')
      × (wr'.calls
          ≡ wr.calls
            ++ rma_reg mem q.buffer c.size
              ∷ sendm q.rhandle rtr_size rp (make_proto (wr.eps g).gid proto_rtr 0)
              ∷ [])
      × ((wr'.packets rp).payload
          ≡ rts (record c {
            comm_id = (rp + 2 ^ 64 - wr.heap) % u32;
            tgt_addr = q.buffer;
            rkey = wr.rkey_of mem;
          }))
      × ((wr'.packets rp).proto ≡ proto_rtr)
      × ((wr'.packets rp).ref ≡ 2)
      × ((wr'.packets rp).rma_mem ≡ mem)
unfolding lci_handle_rts
lci_handle_rts-answers wr g rp c e =
    let q = wr.reqs (wr.packets rp).req in
    let mem = wr.mem_at q.buffer c.size in
    (
      (emit (prepare_rtr wr rp q.buffer c.size c (lci_pk_init g no_pool proto_rtr (wr.packets rp)))
          (sendm q.rhandle rtr_size rp (make_proto (wr.eps g).gid proto_rtr 0))),
      ground (arith, e),
      append_assoc wr.calls (rma_reg mem q.buffer c.size ∷ [])
          (sendm q.rhandle rtr_size rp (make_proto (wr.eps g).gid proto_rtr 0) ∷ []),
      ground (arith, e),
      ground (arith, e),
      ground (arith, e),
      ground (arith, e),
    )

-- The sender's write, on the answer.
pub lci_handle_rtr-writes :
    (b : Build) (ws : World) (g sp : ℕ) (c : Rtr)
    → (ws.packets sp).payload ≡ rts c
    → let call =
        rma_rtr
          (ws.reqs (ws.packets sp).req).rhandle
          c.src_addr
          c.tgt_addr
          c.rkey
          c.size
          c.comm_id
          sp in
      (ws' : World) × (lci_handle_rtr ws g sp ≡ some ws')
      × (ws'.calls ≡ ws.calls ++ call ∷ [])
      × ((ws'' : World) × (lci_serve_send b ws' sp ≡ some ws'')
          × (ws''.calls ≡ ws.calls ++ call ∷ callback c.cb c.ce ∷ pool_put sp ∷ []))
unfolding lci_handle_rtr lci_serve_send
lci_handle_rtr-writes b ws g sp c e =
    let call =
      rma_rtr (ws.reqs (ws.packets sp).req).rhandle c.src_addr c.tgt_addr c.rkey c.size c.comm_id
        sp in
    let ws' = emit (set_packet ws sp (lci_pk_init g no_pool proto_long (ws.packets sp))) call in
    (
      ws',
      ground (arith, e),
      refl,
      (
        emit (emit ws' (callback c.cb c.ce)) (pool_put sp),
        ground (arith, e),
        append_assoc (ws.calls ++ call ∷ []) (callback c.cb c.ce ∷ []) (pool_put sp ∷ [])
            ∙ append_assoc ws.calls (call ∷ []) (callback c.cb c.ce ∷ pool_put sp ∷ []),
      ),
    )

-- The write of the whole message from the sender's buffer to the receiver's, under the
-- receiver's key, tagged with the receiver's packet, and then the sender's callback.
pub record Transferred (b : Build) (ws wr : World) (g rp sp src size cb ce : ℕ) : Type 0 where
  pub written : World
  pub answered : lci_handle_rtr ws g sp ≡ some written
  pub finished : World
  pub served : lci_serve_send b written sp ≡ some finished
  pub comm_id : ℕ
  pub calls :
      let q = wr.reqs (wr.packets rp).req in
      finished.calls
      ≡ ws.calls
        ++ rma_rtr
            (ws.reqs (ws.packets sp).req).rhandle
            src
            q.buffer
            (wr.rkey_of (wr.mem_at q.buffer size))
            size
            comm_id
            sp
          ∷ callback cb ce
          ∷ pool_put sp
          ∷ []
  pub names_packet : wr.heap ≤ rp → rp < wr.heap + u32 → rp < 2 ^ 64 → wr.heap + comm_id ≡ rp

-- The request to send of `lc_sendl` reaches the receiver in the packet `rp`, which belongs to the
-- receive; the receiver's answer reaches the sender in the packet `sp'`. Then both handlers return,
-- the sender writes all its `size` bytes to the buffer of the receive, names the receiver's packet
-- by its offset in the heap, and calls the callback with its argument when the write is done.
pub long_message :
    (b : Build) (env : Env) (ws wr ws' : World) (src size rank tag g g' cb ce sp rp sp' : ℕ)
    → HasPacket env sp
    → Carried
        (((lc_sendl env ws src size rank tag g cb ce).1.packets sp).payload)
        (wr.packets rp).payload
    → (ws'.packets sp').payload ≡ ((or_else (lci_handle_rts wr g' rp) wr).packets rp).payload
    → Transferred b ws' wr g rp sp' src size cb ce
long_message b env ws wr ws' src size rank tag g g' cb ce sp rp sp' h carried echoed =
    let (_, _, (a, ea, announces)) = lc_sendl-asks env ws src size rank tag g cb ce sp h in
    let (c, ec, (c0, c1, c2, c3)) =
      Carried-Announces a (wr.packets rp).payload cb ce src size announces
        (subst (λ k. Carried k (wr.packets rp).payload) ea carried) in
    let (wr', er, _, pay, _, _, _) = lci_handle_rts-answers wr g' rp c ec in
    let (w1, e1, _, (w2, e2, calls)) =
      lci_handle_rtr-writes b ws' g sp' _
        (echoed ∙ ap (λ o. ((or_else o wr).packets rp).payload) er ∙ pay) in
    record {
      written = w1;
      answered = e1;
      finished = w2;
      served = e2;
      comm_id = (rp + 2 ^ 64 - wr.heap) % u32;
      calls = cc (calls, c0, c1, c2, c3);
      names_packet = λ lo hi top. omega arith;
    }
