-- ===== src/Ibv/Arrive.antt =====
-- What the requests to send of the ibv server become at the receiver.
use lc.Base.{
  ℕ, ◌+◌, ◌-◌, ◌*◌, ◌^◌, ◌≤◌, ◌<◌, ◌≡◌, sym, ap, ◌∙◌, List, [], ◌∷◌, Option, none, Bool, true,
  false, arith, ◌==◌, ltb, if◌then◌else◌, bit_and, bit_or, bit_xor,
}
use lc.Base.Bits.{bit_and_bit, bit_or_field, bit_xor_field, bit_xor-twice}
use lc.Engine.{World, Build, lci_serve_recv, lci_serve_recv_rdma, lci_serve_imm}
use lc.Psm2.Progress.{own_req}
use lc.Wire.{make_proto, proto_long}
use lc.Wire.RoundTrip.{make_proto_sum}
use lc.Ibv.{
  Server, Registrar, Opcode, send_with_imm, rdma_write, rdma_write_with_imm, Verb, post_send,
  post_srq_recv, reg, dereg, imm_rtr, ask, put_registered, inline_wr, lc_server_rma_reg,
  lc_server_rma_dereg, lc_server_sends, lc_server_sendm, lc_server_puts, lc_server_putss,
  lc_server_putm, lc_server_putms, lc_server_putl, lc_server_putls, lc_server_rma_rtr,
}
use lc.Ibv.Progress.{Wc, told, put_back, recv_message, recv_rtr, recv_put, on_recv}
use lc.Ibv.Runs.{
  Calls, rma_reg, rma_dereg, sends, sendm, puts, putss, putm, putms, putl, putls, rma_rtr,
}

-- A completion is the notice of an opcode: a send and a write with immediate data give one with
-- that data, a plain write gives none.
abbrev pub Notice : Opcode → Wc → Type 0
Notice (send_with_imm imm) wc = (wc.with_imm ≡ false) × (wc.imm_data ≡ imm)
Notice (rdma_write addr key) wc = ⊥
Notice (rdma_write_with_imm addr key imm) wc = (wc.with_imm ≡ true) × (wc.imm_data ≡ imm)

-- It is the notice of one of the calls of the library.
abbrev pub NoticeOf : List Verb → Wc → Type 0
NoticeOf [] wc = ⊥
NoticeOf (post_send q wr ∷ []) wc = Notice wr.opcode wc
NoticeOf (post_send q wr ∷ v ∷ l) wc = ⊥
NoticeOf (post_srq_recv p g ∷ l) wc = NoticeOf l wc
NoticeOf (reg a n ∷ l) wc = NoticeOf l wc
NoticeOf (dereg mem ∷ l) wc = NoticeOf l wc

-- What a call means for the receiver: nothing, a message or a put with a word, or the end of a
-- rendezvous whose packet is at an offset.
pub data Meaning : Type 0 where
  silent : Meaning
  message put ended : (word : ℕ) → Meaning

abbrev pub meaning : {m : Registrar} {s s' : Server} → Calls m s s' → Meaning
meaning (rma_reg buf size) = silent
meaning (rma_dereg mem) = silent
meaning (sends rep buf size word) = message word
meaning (sendm rep size p word) = message word
meaning (puts rep buf base off key size) = silent
meaning (putss rep buf base off key word size) = put word
meaning (putm rep base off key size p) = silent
meaning (putms rep base off key size word p) = put word
meaning (putl rep buf base off key size p) = silent
meaning (putls rep buf base off key size word p) = put word
meaning (rma_rtr rep buf addr key size sid p) = ended sid

-- The word of a put and an offset leave the bit 31 free.
abbrev pub Fits : Meaning → Type 0
Fits silent = Unit
Fits (message word) = Unit
Fits (put word) = word < 2 ^ 31
Fits (ended sid) = sid < 2 ^ 31

-- The engine's handler for it. A silent one has none.
abbrev pub handle : Meaning → Build → Server → World → Wc → Option World
handle silent b s w wc = none
handle (message word) b s w wc = lci_serve_recv b (told s w wc) wc.wr_id word
handle (put word) b s w wc = lci_serve_recv_rdma b (own_req w wc.wr_id) wc.wr_id word
handle (ended sid) b s w wc = put_back wc.wr_id (lci_serve_imm b w (s.heap + sid))

low_bit : (word : ℕ) → word < 2 ^ 31 → bit_and word imm_rtr ≡ 0
low_bit word h = omega (arith, bit_and_bit 31 word)

high_bit : (word : ℕ) → 2 ^ 31 ≤ word → word < 2 ^ 32 → bit_and word imm_rtr ≡ 2 ^ 31
high_bit word h k = omega (arith, bit_and_bit 31 word)

pub bit_or-rtr : (sid : ℕ) → sid < 2 ^ 31 → bit_or sid imm_rtr ≡ sid + 2 ^ 31
bit_or-rtr sid h = omega (arith, bit_or_field 31 1 sid h)

-- `^ IBV_IMM_RTR` takes the bit off.
bit_xor-rtr : (word : ℕ) → 2 ^ 31 ≤ word → word < 2 ^ 32 → bit_xor word imm_rtr ≡ word - 2 ^ 31
bit_xor-rtr word h k =
    let r : ℕ = word - 2 ^ 31 in
    let put_on : bit_xor r imm_rtr ≡ word = omega (arith, bit_xor_field 31 1 r (omega arith)) in
    ap (λ x. bit_xor x imm_rtr) (sym put_on)
    ∙ bit_xor-twice 32 r imm_rtr (omega arith) (omega arith)

abbrev by_word : Build → Server → World → Wc → ℕ → Option World
by_word b s w wc x = if bit_and x imm_rtr == 0 then recv_put b w wc else recv_rtr b s w wc

pub on_message :
    (b : Build) (s : Server) (w : World) (wc : Wc) (word : ℕ)
    → wc.with_imm ≡ false
    → wc.imm_data ≡ word
    → on_recv b s w wc ≡ handle (message word) b s w wc
unfolding on_recv recv_message
on_message b s w wc word e d =
    ap (λ t. if t then by_word b s w wc wc.imm_data else recv_message b s w wc) e
    ∙ ap (λ x. lci_serve_recv b (told s w wc) wc.wr_id x) d

pub on_put :
    (b : Build) (s : Server) (w : World) (wc : Wc) (word : ℕ)
    → wc.with_imm ≡ true
    → wc.imm_data ≡ word
    → word < 2 ^ 31
    → on_recv b s w wc ≡ handle (put word) b s w wc
unfolding on_recv recv_put
on_put b s w wc word e d h =
    ap (λ t. if t then by_word b s w wc wc.imm_data else recv_message b s w wc) e
    ∙ ap (λ n. if n == 0 then recv_put b w wc else recv_rtr b s w wc)
        (ap (λ x. bit_and x imm_rtr) d ∙ low_bit word h)
    ∙ ap (λ x. lci_serve_recv_rdma b (own_req w wc.wr_id) wc.wr_id x) d

pub on_ended :
    (b : Build) (s : Server) (w : World) (wc : Wc) (word : ℕ)
    → wc.with_imm ≡ true
    → wc.imm_data ≡ word
    → 2 ^ 31 ≤ word
    → word < 2 ^ 32
    → on_recv b s w wc ≡ handle (ended (word - 2 ^ 31)) b s w wc
unfolding on_recv recv_rtr
on_ended b s w wc word e d h k =
    ap (λ t. if t then by_word b s w wc wc.imm_data else recv_message b s w wc) e
    ∙ ap (λ n. if n == 0 then recv_put b w wc else recv_rtr b s w wc)
        (ap (λ x. bit_and x imm_rtr) d ∙ high_bit word h k)
    ∙ ap (λ x. put_back wc.wr_id (lci_serve_imm b w (s.heap + x)))
        (ap (λ x. bit_xor x imm_rtr) d ∙ bit_xor-rtr word h k)

-- A server that has asked nothing of the library yet.
abbrev pub idle : Server → Server
idle s = record s { verbs = [] }

abbrev pub rtr_asks : Registrar → Server → ℕ → ℕ → ℕ → ℕ → Bool → Opcode → Server
rtr_asks m s rep buf size p registered op =
    if registered
    then put_registered m (idle s) rep buf size p op
    else ask (idle s) (post_send rep (record (inline_wr true buf size op) { wr_id = p }))

-- The answer of a rendezvous has one opcode, registered or inline.
pub rtr-Notice :
    (m : Registrar) (s : Server) (rep buf addr key size sid p : ℕ) (wc : Wc) (registered : Bool)
    → NoticeOf
        (rtr_asks m s rep buf size p registered
          (rdma_write_with_imm addr key (bit_or sid imm_rtr))).verbs
        wc
    → Notice (rdma_write_with_imm addr key (bit_or sid imm_rtr)) wc
rtr-Notice m s rep buf addr key size sid p wc true n = n
rtr-Notice m s rep buf addr key size sid p wc false n = n

-- The completion that a call of an idle server is noticed by makes the receiver run the handler
-- that the call means, with the word that was given, or for the packet at the offset: as long as
-- the word of a put and the offset are below 2^31.
pub Calls-handled :
    (b : Build) (m : Registrar) (s : Server) {s' : Server} (c : Calls m (idle s) s') (r : Server)
    (w : World) (wc : Wc)
    → NoticeOf s'.verbs wc
    → Fits (meaning c)
    → on_recv b r w wc ≡ handle (meaning c) b r w wc
unfolding lc_server_rma_reg lc_server_rma_dereg lc_server_sends lc_server_sendm lc_server_puts
    lc_server_putss lc_server_putm lc_server_putms lc_server_putl lc_server_putls lc_server_rma_rtr
Calls-handled b m s (rma_reg buf size) r w wc n f = absurd n
Calls-handled b m s (rma_dereg mem) r w wc n f = absurd n
Calls-handled b m s (sends rep buf size word) r w wc n f = on_message b r w wc word n.0 n.1
Calls-handled b m s (sendm rep size p word) r w wc n f = on_message b r w wc word n.0 n.1
Calls-handled b m s (puts rep buf base off key size) r w wc n f = absurd n
Calls-handled b m s (putss rep buf base off key word size) r w wc n f =
    on_put b r w wc word n.0 n.1 f
Calls-handled b m s (putm rep base off key size p) r w wc n f = absurd n
Calls-handled b m s (putms rep base off key size word p) r w wc n f = on_put b r w wc word n.0 n.1 f
Calls-handled b m s (putl rep buf base off key size p) r w wc n f = absurd n
Calls-handled b m s (putls rep buf base off key size word p) r w wc n f =
    on_put b r w wc word n.0 n.1 f
Calls-handled b m s (rma_rtr rep buf addr key size sid p) r w wc n f =
    let (e, d) = rtr-Notice m s rep buf addr key size sid p wc (ltb s.max_inline size) n in
    let word : ℕ = sid + 2 ^ 31 in
    let same : word - 2 ^ 31 ≡ sid = omega arith in
    on_ended b r w wc word e (d ∙ bit_or-rtr sid f) (omega arith) (omega arith)
    ∙ ap (λ x. put_back wc.wr_id (lci_serve_imm b w (r.heap + x))) same

-- A put with a tag of 2^15 to 2^16 - 1 is taken for the end of a rendezvous: the packet at an
-- offset that the sender never meant gets its handler.
pub high_tag-misread :
    (b : Build) (m : Registrar) (s : Server) (rep buf base off key size gid tag : ℕ) (r : Server)
    (w : World) (wc : Wc)
    → gid < 2 ^ 14
    → 2 ^ 15 ≤ tag
    → tag < 2 ^ 16
    → NoticeOf
        (lc_server_putss (idle s) rep buf base off key (make_proto gid proto_long tag) size).verbs
        wc
    → on_recv b r w wc
      ≡ put_back wc.wr_id
          (lci_serve_imm b w (r.heap + (proto_long + gid * 4 + (tag - 2 ^ 15) * 2 ^ 16)))
unfolding lc_server_putss
high_tag-misread b m s rep buf base off key size gid tag r w wc hg lo hi n =
    let word : ℕ = make_proto gid proto_long tag in
    let sum = make_proto_sum gid proto_long tag (omega arith) hg in
    let offset : word - 2 ^ 31 ≡ proto_long + gid * 4 + (tag - 2 ^ 15) * 2 ^ 16 =
      omega (arith, sum) in
    on_ended b r w wc word n.0 n.1 (omega (arith, sum)) (omega (arith, sum))
    ∙ ap (λ x. put_back wc.wr_id (lci_serve_imm b w (r.heap + x))) offset
