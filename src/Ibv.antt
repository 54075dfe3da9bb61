-- ===== src/Ibv.antt =====
-- src/include/server/server_ibv.h and server_ibv_helper.h: the server layer over the verbs library,
-- without LC_SERVER_DEBUG. What the library is asked to do is recorded in order; what it answers,
-- and what the packet pool answers, are arguments.
pub mod Progress
pub mod Window
pub mod Runs
pub mod Arrive
pub mod Alike
pub mod Signals
pub mod Serve
pub mod Sending
pub mod Delivery
pub mod Long
pub mod Ranks
pub mod Names
pub mod Connect
pub mod Open
use lc.Base.{
  ℕ, ◌+◌, ◌-◌, ◌*◌, ◌%◌, ◌^◌, List, [], ◌∷◌, ◌++◌, Bool, true, false, not, ◌&&◌, ◌==◌, ltb,
  if◌then◌else◌, bit_or,
}
use lc.Engine.{World, set_packet, context_size}
use lc.Calls.{post_msg_size}
use lc.Psm2.{max_rcvs}

-- `IBV_IMM_RTR`
abbrev pub imm_rtr : ℕ
imm_rtr = 2 ^ 31

-- `struct ibv_sge`
pub record Sge : Type 0 where
  pub addr : ℕ
  pub length : ℕ
  pub lkey : ℕ

-- The opcode of a request to send, with the fields that the library reads for it: `imm_data`,
-- `wr.rdma.remote_addr` and `wr.rdma.rkey`.
pub data Opcode : Type 0 where
  send_with_imm : (imm : ℕ) → Opcode
  rdma_write : (remote_addr rkey : ℕ) → Opcode
  rdma_write_with_imm : (remote_addr rkey imm : ℕ) → Opcode

-- `struct ibv_send_wr` with its one entry, and `send_flags` as IBV_SEND_SIGNALED and
-- IBV_SEND_INLINE.
pub record SendWr : Type 0 where
  pub wr_id : ℕ
  pub sge : Sge
  pub opcode : Opcode
  pub signaled : Bool
  pub inlined : Bool

-- The calls of the verbs library or, with USE_DREG, of the registration cache.
pub data Verb : Type 0 where
  post_send : (qp : ℕ) → (wr : SendWr) → Verb
  post_srq_recv : (wr_id : ℕ) → (sge : Sge) → Verb
  reg : (addr size : ℕ) → Verb
  dereg : (mem : ℕ) → Verb

-- What a registration is answered: the handle, and the two keys of a handle.
pub record Registrar : Type 0 where
  pub mem_of : ℕ → ℕ → ℕ
  pub lkey : ℕ → ℕ
  pub rkey : ℕ → ℕ

-- The fields of `struct lc_server` that are read or change here, with `lcg_deadlock` and the
-- static `ninline` of `lc_server_sends`. `recv_posted` is the 32 bits of an `int`, and so is
-- `ninline`.
pub record Server : Type 0 where
  pub heap : ℕ
  pub heap_lkey : ℕ
  pub max_inline : ℕ
  pub qp : ℕ → ℕ
  pub qp2rank : List ℕ
  pub qp2rank_mod : ℕ
  pub recv_posted : ℕ
  pub ninline : ℕ
  pub deadlock : Bool
  pub verbs : List Verb

abbrev pub ask : Server → Verb → Server
ask s v = record s { verbs = s.verbs ++ v ∷ [] }

abbrev pub data_of : ℕ → ℕ
data_of p = p + context_size

-- `(uint32_t) size`
abbrev pub sge_of : ℕ → ℕ → ℕ → Sge
sge_of addr size lkey = record { addr = addr; length = size % 2 ^ 32; lkey = lkey }

-- `a < k` on an `int`, for a `k` that is not negative.
abbrev pub int_ltb : ℕ → ℕ → Bool
int_ltb a k = if ltb a (2 ^ 31) then ltb a k else true

unfoldable pub lc_server_rma_reg : Registrar → Server → ℕ → ℕ → ℕ × Server
lc_server_rma_reg m s buf size = (m.mem_of buf size, ask s (reg buf size))

unfoldable pub lc_server_rma_dereg : Server → ℕ → Server
lc_server_rma_dereg s mem = ask s (dereg mem)

unfoldable pub lc_server_rma_key : Registrar → ℕ → ℕ
lc_server_rma_key m mem = m.rkey mem

unfoldable pub ibv_rma_lkey : Registrar → ℕ → ℕ
ibv_rma_lkey m mem = m.lkey mem

-- `local` is the answer of `lc_pool_get_local`.
unfoldable pub ibv_post_recv_ : Server → World → ℕ → ℕ → Server × World
ibv_post_recv_ s w local p =
    let alert = int_ltb s.recv_posted 32 && not s.deadlock in
    let n = (s.recv_posted + 1) % 2 ^ 32 in
    let posted = record (ask s (post_srq_recv p (sge_of (data_of p) post_msg_size s.heap_lkey))) {
      recv_posted = n;
      deadlock = if (n == max_rcvs) && s.deadlock then false else s.deadlock;
    } in
    if p == 0
    then (if alert then record s { deadlock = true } else s, w)
    else (posted, set_packet w p (record (w.packets p) { poolid = local % 256 }))

-- Inline bytes of the user without a packet.
abbrev pub inline_wr : Bool → ℕ → ℕ → Opcode → SendWr
inline_wr signaled buf size op = record {
  wr_id = 0;
  sge = sge_of buf size 0;
  opcode = op;
  signaled = signaled;
  inlined = true;
}

-- Every 65th inline send asks for a completion.
unfoldable pub lc_server_sends : Server → ℕ → ℕ → ℕ → ℕ → Server
lc_server_sends s rep ubuf size proto =
    let often = s.ninline == 64 in
    ask (record s { ninline = if often then 0 else (s.ninline + 1) % 2 ^ 32 })
      (post_send rep (inline_wr often ubuf size (send_with_imm proto)))

-- A packet's bytes, signaled with the packet.
abbrev pub packet_wr : Server → ℕ → ℕ → Opcode → SendWr
packet_wr s p size op = record {
  wr_id = p;
  sge = sge_of (data_of p) size s.heap_lkey;
  opcode = op;
  signaled = true;
  inlined = false;
}

unfoldable pub lc_server_sendm : Server → ℕ → ℕ → ℕ → ℕ → Server
lc_server_sendm s rep size p proto =
    ask s (post_send rep (packet_wr s p size (send_with_imm proto)))

-- `base + offset` is computed in 64 bits.
unfoldable pub lc_server_puts : Server → ℕ → ℕ → ℕ → ℕ → ℕ → ℕ → Server
lc_server_puts s rep buf base offset rkey size =
    ask s (post_send rep (inline_wr true buf size (rdma_write ((base + offset) % 2 ^ 64) rkey)))

unfoldable pub lc_server_putss : Server → ℕ → ℕ → ℕ → ℕ → ℕ → ℕ → ℕ → Server
lc_server_putss s rep buf base offset rkey meta size =
    let op = rdma_write_with_imm ((base + offset) % 2 ^ 64) rkey meta in
    ask s (post_send rep (inline_wr true buf size op))

unfoldable pub lc_server_putm : Server → ℕ → ℕ → ℕ → ℕ → ℕ → ℕ → Server
lc_server_putm s rep base offset rkey size p =
    ask s (post_send rep (packet_wr s p size (rdma_write ((base + offset) % 2 ^ 64) rkey)))

unfoldable pub lc_server_putms : Server → ℕ → ℕ → ℕ → ℕ → ℕ → ℕ → ℕ → Server
lc_server_putms s rep base offset rkey size meta p =
    let op = rdma_write_with_imm ((base + offset) % 2 ^ 64) rkey meta in
    ask s (post_send rep (packet_wr s p size op))

-- Bytes of the user that are registered first, signaled with the packet.
abbrev pub put_registered : Registrar → Server → ℕ → ℕ → ℕ → ℕ → Opcode → Server
put_registered m s rep buf size p op =
    let mem = m.mem_of buf size in
    let wr : SendWr = record {
      wr_id = p;
      sge = sge_of buf size (m.lkey mem);
      opcode = op;
      signaled = true;
      inlined = false;
    } in
    ask (ask s (reg buf size)) (post_send rep wr)

unfoldable pub lc_server_putl : Registrar → Server → ℕ → ℕ → ℕ → ℕ → ℕ → ℕ → ℕ → Server
lc_server_putl m s rep buf base offset rkey size p =
    put_registered m s rep buf size p (rdma_write ((base + offset) % 2 ^ 64) rkey)

unfoldable pub lc_server_putls : Registrar → Server → ℕ → ℕ → ℕ → ℕ → ℕ → ℕ → ℕ → ℕ → Server
lc_server_putls m s rep buf base offset rkey size meta p =
    put_registered m s rep buf size p (rdma_write_with_imm ((base + offset) % 2 ^ 64) rkey meta)

unfoldable pub lc_server_rma_rtr : Registrar → Server → ℕ → ℕ → ℕ → ℕ → ℕ → ℕ → ℕ → Server
lc_server_rma_rtr m s rep buf addr rkey size sid p =
    let op = rdma_write_with_imm addr rkey (bit_or sid imm_rtr) in
    let registered = put_registered m s rep buf size p op in
    let wr : SendWr = record (inline_wr true buf size op) { wr_id = p } in
    if ltb s.max_inline size then registered else ask s (post_send rep wr)
