-- ===== src/Psm2.antt =====
-- src/include/server/server_psm2.h: the server layer over the psm2 library. What the library is
-- asked to do is recorded in order; what it answers, and what the packet pool and the queue of free
-- registrations answer, are arguments.
pub mod Progress
pub mod Kinds
pub mod Posted
use lc.Base.{
  ℕ, zero, suc, ◌+◌, ◌-◌, ◌*◌, ◌%◌, ◌^◌, List, [], ◌∷◌, ◌++◌, Option, none, some, Bool, true, false,
  not, ◌&&◌, ◌==◌, ltb, if◌then◌else◌, bit_and,
}
use lc.Engine.{
  Req, Packet, Payload, buffer, rts, World, Build, set_packet, set_req, put_at, memcpy, emit,
  pool_put, req_s, context_size, bytes_of, lci_serve_recv, lci_serve_recv_rdma, lci_serve_send,
  lci_serve_imm,
}
use lc.Calls.{post_msg_size}

-- `psm2_mq_tag_t`
pub record Tag : Type 0 where
  pub tag0 : ℕ
  pub tag1 : ℕ
  pub tag2 : ℕ

abbrev pub recv_data : ℕ
recv_data = 0x1 * 2 ^ 28

abbrev pub recv_rdma : ℕ
recv_rdma = 0x2 * 2 ^ 28

abbrev pub recv_rdma_sid : ℕ
recv_rdma_sid = 0x3 * 2 ^ 28

abbrev pub recv_rdma_rtp : ℕ
recv_rdma_rtp = 0x4 * 2 ^ 28

abbrev pub rdma_imm : ℕ
rdma_imm = 2 ^ 31

-- `PSM_TAG_*`
abbrev pub tag_trecv_data : Tag
tag_trecv_data = record { tag0 = 0; tag1 = 0; tag2 = recv_data }

abbrev pub tag_tsend_data : ℕ → ℕ → Tag
tag_tsend_data proto rank = record { tag0 = proto; tag1 = rank; tag2 = recv_data }

abbrev pub tag_srdma : ℕ → Tag
tag_srdma offset = record { tag0 = offset; tag1 = 0; tag2 = recv_rdma }

abbrev pub tag_srdma_meta : ℕ → ℕ → Tag
tag_srdma_meta offset meta = record { tag0 = offset; tag1 = meta; tag2 = recv_rdma_sid }

abbrev pub tag_srdma_rts : ℕ → ℕ → Tag
tag_srdma_rts offset rkey = record { tag0 = offset; tag1 = rkey; tag2 = recv_rdma_rtp }

abbrev pub tag_srdma_dat : ℕ → Tag
tag_srdma_dat rkey = record { tag0 = 0; tag1 = 0; tag2 = rkey }

abbrev pub tag_srdma_dat_meta : ℕ → ℕ → Tag
tag_srdma_dat_meta rkey meta = record { tag0 = 1; tag1 = meta; tag2 = rkey }

abbrev pub tag_srdma_dat_imm : ℕ → ℕ → Tag
tag_srdma_dat_imm rkey sid = record { tag0 = sid; tag1 = rdma_imm; tag2 = rkey }

abbrev pub tag_rrdma_dat : ℕ → Tag
tag_rrdma_dat rkey = record { tag0 = 0; tag1 = 0; tag2 = rkey }

-- The context of an operation: `PSM_RECV` or `PSM_SEND`, bits above every pointer, and a pointer.
pub data Context : Type 0 where
  received sent : (p : ℕ) → Context

-- The calls of the library; `send_size` sends the value of a `size_t`, and `enqueue` gives a
-- registration back to the queue of free ones.
pub data Mq : Type 0 where
  irecv : (tag : Tag) → (addr size : ℕ) → (ctx : Context) → (req : ℕ) → Mq
  isend : (rep : ℕ) → (tag : Tag) → (buf size : ℕ) → (ctx : Context) → (req : ℕ) → Mq
  send : (rep : ℕ) → (tag : Tag) → (buf size : ℕ) → Mq
  send_size : (rep : ℕ) → (tag : Tag) → (value : ℕ) → Mq
  enqueue : (mem : ℕ) → Mq

-- `struct psm_mr`, without the server and the library's handle.
pub record Mr : Type 0 where
  pub addr : ℕ
  pub size : ℕ
  pub rkey : ℕ

-- The fields of `struct lc_server` that change or are read here, with `next_key` and
-- `lcg_deadlock`.
pub record Server : Type 0 where
  pub me : ℕ
  pub heap : ℕ
  pub recv_posted : ℕ
  pub mrs : ℕ → Mr
  pub next_key : ℕ
  pub deadlock : Bool
  pub mq : List Mq

abbrev pub ask : Server → Mq → Server
ask s c = record s { mq = s.mq ++ c ∷ [] }

abbrev pub max_rcvs : ℕ
max_rcvs = 64

-- The offset of `req` in `struct psm_mr`.
abbrev pub mr_req : ℕ → ℕ
mr_req mem = mem + 32

abbrev pub post_recv_rma : Server → ℕ → ℕ → ℕ → ℕ → ℕ → Server
post_recv_rma s addr size rkey ctx req =
    ask s (irecv (tag_rrdma_dat rkey) addr size (received ctx) req)

-- `got` is the answer of the queue of free registrations, `fresh` that of `posix_memalign`.
unfoldable pub lc_server_rma_reg : Server → ℕ → ℕ → ℕ → ℕ → ℕ × Server
lc_server_rma_reg s got fresh buf size =
    let mem = if got == 0 then fresh else got in
    let key = bit_and s.next_key 0x0FFF_FFFF in
    let s1 : Server = record s {
      mrs = put_at s.mrs mem (record { addr = buf; size = size; rkey = key });
      next_key = (s.next_key + 1) % 2 ^ 32;
    } in
    (mem, post_recv_rma s1 buf size key 0 (mr_req mem))

unfoldable pub lc_server_rma_dereg : Server → ℕ → Server
lc_server_rma_dereg s mem = ask s (enqueue mem)

unfoldable pub lc_server_rma_key : Server → ℕ → ℕ
lc_server_rma_key s mem = (s.mrs mem).rkey

unfoldable pub lc_server_post_recv : Server → ℕ → Server
lc_server_post_recv s p =
    let n = (s.recv_posted + 1) % 2 ^ 64 in
    let posted : Server =
      record (ask s (irecv tag_trecv_data (p + context_size) post_msg_size (received p) p)) {
        recv_posted = n;
        deadlock = if n == max_rcvs then false else s.deadlock;
      } in
    let alert = (s.recv_posted == 32) && not s.deadlock in
    if p == 0 then (if alert then record s { deadlock = true } else s) else posted

abbrev pub data_of : ℕ → ℕ
data_of p = p + context_size

unfoldable pub lc_server_sendm : Server → ℕ → ℕ → ℕ → ℕ → Server
lc_server_sendm s rep size p proto =
    ask s (isend rep (tag_tsend_data proto s.me) (data_of p) size (sent p) p)

unfoldable pub lc_server_sends : Server → ℕ → ℕ → ℕ → ℕ → Server
lc_server_sends s rep ubuf size proto = ask s (send rep (tag_tsend_data proto s.me) ubuf size)

unfoldable pub lc_server_puts : Server → ℕ → ℕ → ℕ → ℕ → Server
lc_server_puts s rep buf offset size = ask s (send rep (tag_srdma offset) buf size)

unfoldable pub lc_server_putss : Server → ℕ → ℕ → ℕ → ℕ → ℕ → Server
lc_server_putss s rep buf offset meta size = ask s (send rep (tag_srdma_meta offset meta) buf size)

unfoldable pub lc_server_putm : Server → ℕ → ℕ → ℕ → ℕ → Server
lc_server_putm s rep offset size p =
    ask s (isend rep (tag_srdma offset) (data_of p) size (sent p) p)

unfoldable pub lc_server_putms : Server → ℕ → ℕ → ℕ → ℕ → ℕ → Server
lc_server_putms s rep offset size meta p =
    ask s (isend rep (tag_srdma_meta offset meta) (data_of p) size (sent p) p)

unfoldable pub lc_server_putl : Server → ℕ → ℕ → ℕ → ℕ → ℕ → ℕ → Server
lc_server_putl s rep buf offset rkey size p =
    ask (ask s (send_size rep (tag_srdma_rts offset rkey) size))
      (isend rep (tag_srdma_dat rkey) buf size (sent p) p)

unfoldable pub lc_server_putls : Server → ℕ → ℕ → ℕ → ℕ → ℕ → ℕ → ℕ → Server
lc_server_putls s rep buf offset rkey size sid p =
    ask (ask s (send_size rep (tag_srdma_rts offset rkey) size))
      (isend rep (tag_srdma_dat_meta rkey sid) buf size (sent p) p)

unfoldable pub lc_server_rma_rtr : Server → ℕ → ℕ → ℕ → ℕ → ℕ → ℕ → Server
lc_server_rma_rtr s rep buf rkey size sid p =
    ask s (isend rep (tag_srdma_dat_imm rkey sid) buf size (sent p) p)
