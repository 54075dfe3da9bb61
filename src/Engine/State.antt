-- ===== src/Engine/State.antt =====
-- The state of the engine of src/include/proto.h and src/include/packet.h, and its cells.
use lc.Base.{ℕ, zero, suc, ◌+◌, ◌-◌, ◌^◌, ◌%◌, List, [], ◌∷◌, ◌++◌, Bool, ◌==◌, ltb, if◌then◌else◌}
use lc.Endpoint.{Ep, put_ep}

-- `struct lc_req`; a pointer is a number.
pub record Req : Type 0 where
  pub sync : ℕ
  pub buffer : ℕ
  pub ctx : ℕ
  pub parent : ℕ
  pub rhandle : ℕ
  pub size : ℕ
  pub rank : ℕ
  pub meta : ℕ

-- `struct packet_rtr`; `packet_rts` is its first five fields.
pub record Rtr : Type 0 where
  pub cb : ℕ
  pub ce : ℕ
  pub src_addr : ℕ
  pub size : ℕ
  pub tgt_addr : ℕ
  pub rkey : ℕ
  pub comm_id : ℕ

-- The union `packet_data`, by the member that was written last.
pub data Payload : Type 0 where
  buffer : List ℕ → Payload
  rts : Rtr → Payload

-- The fields of `packet_context` that the engine uses, and the data. `poolid` is the 8 bits of an
-- `int8_t`, and `ref` too.
pub record Packet : Type 0 where
  pub req : ℕ
  pub ep : ℕ
  pub rma_mem : ℕ
  pub proto : ℕ
  pub poolid : ℕ
  pub ref : ℕ
  pub payload : Payload

-- `-1` as an `int8_t`.
abbrev pub no_pool : ℕ
no_pool = 255

-- Addresses inside a packet: `&p->context.req_s` behind the two words of `hwctx`, and `&p->data`
-- behind the packed context of 16 + 64 + 8 + 8 + 8 + 2 + 1 + 1 bytes.
abbrev pub req_s : ℕ → ℕ
req_s p = p + 16

abbrev pub context_size : ℕ
context_size = 108

-- What the engine asks of others.
pub data Call : Type 0 where
  sends : (rep src size proto : ℕ) → Call
  sendm : (rep size p proto : ℕ) → Call
  puts : (rep src base offset rkey size : ℕ) → Call
  putss : (rep src base offset rkey meta size : ℕ) → Call
  putm : (rep base offset rkey size p : ℕ) → Call
  putms : (rep base offset rkey size meta p : ℕ) → Call
  putl : (rep src base offset rkey size p : ℕ) → Call
  putls : (rep src base offset rkey size meta p : ℕ) → Call
  rma_reg : (mem src size : ℕ) → Call
  rma_dereg : (mem : ℕ) → Call
  rma_rtr : (rep src addr rkey size sid p : ℕ) → Call
  pool_put : (p : ℕ) → Call
  pool_put_to : (p poolid : ℕ) → Call
  handler : (fn req : ℕ) → Call
  callback : (cb ce : ℕ) → Call

-- `heap` is `lc_server_heap_ptr`; `mem_at` and `rkey_of` are the server's answers to
-- `lc_server_rma_reg` and `lc_server_rma_key`.
pub record World : Type 0 where
  pub packets : ℕ → Packet
  pub reqs : ℕ → Req
  pub memory : ℕ → List ℕ
  pub eps : ℕ → Ep
  pub heap : ℕ
  pub mem_at : ℕ → ℕ → ℕ
  pub rkey_of : ℕ → ℕ
  pub calls : List Call

-- Which parts are compiled in: the macros LC_SERVER_HAS_* (config.mk).
pub record Build : Type 0 where
  pub has_exp : Bool
  pub has_dyn : Bool
  pub has_imm : Bool
  pub has_sync : Bool
  pub has_cq : Bool
  pub has_am : Bool
  pub has_glob : Bool

-- One cell of a store.
abbrev pub put_at {ℓ} : {A : Type ℓ} → (ℕ → A) → ℕ → A → ℕ → A
put_at f i a j = if i == j then a else f j

abbrev pub set_packet : World → ℕ → Packet → World
set_packet w p k = record w { packets = put_at w.packets p k }

abbrev pub set_req : World → ℕ → Req → World
set_req w r q = record w { reqs = put_at w.reqs r q }

abbrev pub set_ep : World → ℕ → Ep → World
set_ep w g e = record w { eps = put_ep w.eps g e }

abbrev pub emit : World → Call → World
emit w c = record w { calls = w.calls ++ c ∷ [] }

-- `memcpy(dst, ..., size)`: the first `size` bytes at `dst` are replaced.
abbrev pub overwrite : ℕ → List ℕ → List ℕ → List ℕ
overwrite zero src old = old
overwrite (suc n) [] old = old
overwrite (suc n) (b ∷ src) [] = b ∷ overwrite n src []
overwrite (suc n) (b ∷ src) (o ∷ old) = b ∷ overwrite n src old

abbrev pub memcpy : World → ℕ → List ℕ → ℕ → World
memcpy w dst src size = record w {
  memory = put_at w.memory dst (overwrite size src (w.memory dst));
}

-- `lci_pk_init`
abbrev pub lci_pk_init : ℕ → ℕ → ℕ → Packet → Packet
lci_pk_init ep pid proto k = record k { ep = ep; poolid = pid % 256; ref = 1; proto = proto }

-- `lci_init_req`
abbrev pub lci_init_req : ℕ → ℕ → Req → Req
lci_init_req buf size q = record q { buffer = buf; size = size; sync = 0 }

abbrev pub lci_pk_free : World → ℕ → World
lci_pk_free w p = emit w (pool_put p)

-- An `int8_t` as an `int32_t`, both by their bits.
abbrev pub sign8 : ℕ → ℕ
sign8 pid = if ltb pid 128 then pid else pid + (2 ^ 32 - 2 ^ 8)

abbrev pub lci_pk_free_data : World → ℕ → World
lci_pk_free_data w p =
    let pid = (w.packets p).poolid in
    if pid == no_pool then emit w (pool_put p) else emit w (pool_put_to p (sign8 pid))
