-- ===== src/Psm2/Progress.antt =====
-- `lc_server_progress` of src/include/server/server_psm2.h.
use lc.Base.{
  ℕ, zero, suc, ◌+◌, ◌-◌, ◌*◌, ◌%◌, ◌^◌, List, [], ◌∷◌, Option, none, some, Bool, true, false, ◌==◌,
  ltb, if◌then◌else◌, bit_and,
}
use lc.Engine.{
  World, Build, set_packet, set_req, memcpy, emit, pool_put, req_s, bytes_of, lci_serve_recv,
  lci_serve_recv_rdma, lci_serve_send, lci_serve_imm,
}
use lc.Psm2.{
  Tag, Context, received, sent, Server, recv_data, recv_rdma, recv_rdma_sid, recv_rdma_rtp,
  rdma_imm, max_rcvs, post_recv_rma, lc_server_post_recv,
}

-- `psm2_mq_status2_t`
pub record Status2 : Type 0 where
  pub context : Context
  pub tag : Tag
  pub length : ℕ
  pub peer : ℕ

-- The branches of the receive, by their tests.
pub data Kind : Type 0 where
  message put put_sid size_ahead answer long_sid long : Kind

unfoldable pub kind_of : Tag → Kind
kind_of t =
    let pk_type = bit_and t.tag2 0xF000_0000 in
    if pk_type == recv_data
    then message
    else if pk_type == recv_rdma
    then put
    else if pk_type == recv_rdma_sid
    then put_sid
    else if pk_type == recv_rdma_rtp
    then size_ahead
    else if t.tag1 == rdma_imm
    then answer
    else if t.tag0 == 0
    then long
    else long_sid

-- `p->context.req = &p->context.req_s`
abbrev pub own_req : World → ℕ → World
own_req w p = set_packet w p (record (w.packets p) { req = req_s p })

-- `s->recv_posted--`
abbrev pub one_less : Server → Server
one_less s = record s { recv_posted = (s.recv_posted + 2 ^ 64 - 1) % 2 ^ 64 }

-- A `size_t` from its bytes, lowest first.
abbrev pub size_of : ℕ → List ℕ → ℕ
size_of zero bs = 0
size_of (suc n) [] = 0
size_of (suc n) (x ∷ bs) = x + 256 * size_of n bs

abbrev pub with_server : Server → Option World → Option (Server × World)
with_server s none = none
with_server s (some w) = some (s, w)

-- The bytes of a packet written into the heap.
abbrev pub write_heap : Server → World → ℕ → Status2 → Option World
write_heap s w p st = elim (bytes_of (w.packets p).payload) [
  | none ↦ none
  | some bs ↦ some (memcpy w (st.tag.tag0 + s.heap) bs st.length)
]

unfoldable pub on_recv : Kind → Build → Server → World → ℕ → Status2 → Option (Server × World)
on_recv message b s w p st =
    let w1 = own_req w p in
    let w2 =
      set_req w1 (req_s p)
        (record (w1.reqs (req_s p)) { rhandle = st.peer; rank = st.tag.tag1; size = st.length }) in
    with_server (one_less s) (lci_serve_recv b w2 p st.tag.tag0)
on_recv put b s w p st = with_server (lc_server_post_recv s p) (write_heap s (own_req w p) p st)
on_recv put_sid b s w p st = with_server (one_less s) (elim (write_heap s (own_req w p) p st) [
  | none ↦ none
  | some w' ↦ lci_serve_recv_rdma b w' p st.tag.tag1
])
on_recv size_ahead b s w p st = elim (bytes_of (w.packets p).payload) [
  | none ↦ none
  | some bs ↦
      some (one_less (post_recv_rma s (st.tag.tag0 + s.heap) (size_of 8 bs) st.tag.tag1 p p), w)
]
on_recv answer b s w p st = with_server s (lci_serve_imm b w (s.heap + st.tag.tag0))
on_recv long_sid b s w p st = with_server s (lci_serve_recv_rdma b (own_req w p) p st.tag.tag1)
on_recv long b s w p st = some (s, emit (own_req w p) (pool_put p))

unfoldable pub on_status : Build → Server → World → Status2 → Option (Server × World)
on_status b s w st = elim st.context [
  | received p ↦ on_recv (kind_of st.tag) b s w p st
  | sent p ↦ if p == 0 then some (s, w) else with_server s (lci_serve_send b w p)
]

abbrev pub refill : ℕ → Server × World → Server × World
refill got (s, w) = (if ltb s.recv_posted max_rcvs then lc_server_post_recv s got else s, w)

-- `event` is the answer of `psm2_mq_ipeek2` and `psm2_mq_test2`, `got` that of `lc_pool_get_nb`.
-- What is returned is whether there was an event.
unfoldable pub lc_server_progress :
    Build → Server → World → ℕ → Option Status2 → Option (Bool × Server × World)
lc_server_progress b s w got none = let (s', w') = refill got (s, w) in some (false, s', w')
lc_server_progress b s w got (some st) = elim (on_status b s w st) [
  | none ↦ none
  | some r ↦ let (s', w') = refill got r in some (true, s', w')
]
