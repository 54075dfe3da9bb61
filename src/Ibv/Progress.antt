-- ===== src/Ibv/Progress.antt =====
-- `lc_server_progress` of src/include/server/server_ibv.h.
use lc.Base.{
  ℕ, ◌+◌, ◌-◌, ◌%◌, ◌^◌, List, [], ◌∷◌, Option, none, some, Bool, true, false, ◌||◌, ◌==◌,
  if◌then◌else◌, bit_and, bit_xor, get_or,
}
use lc.Engine.{
  World, Build, set_req, emit, pool_put, req_s, lci_serve_recv, lci_serve_recv_rdma, lci_serve_send,
  lci_serve_imm,
}
use lc.Psm2.{max_rcvs}
use lc.Psm2.Progress.{own_req}
use lc.Ibv.{Server, imm_rtr, int_ltb, ibv_post_recv_}

-- `struct ibv_wc` of a receive; `with_imm` is the opcode IBV_WC_RECV_RDMA_WITH_IMM.
pub record Wc : Type 0 where
  pub wr_id : ℕ
  pub with_imm : Bool
  pub qp_num : ℕ
  pub byte_len : ℕ
  pub imm_data : ℕ

-- `s->qp2rank[qp_num % s->qp2rank_mod]`
unfoldable pub rank_of : Server → ℕ → ℕ
rank_of s qp_num = get_or s.qp2rank (qp_num % s.qp2rank_mod) 0

-- A packet's own request is told where the message is from and how long it is.
abbrev pub told : Server → World → Wc → World
told s w wc =
    let w1 = own_req w wc.wr_id in
    let q = req_s wc.wr_id in
    let rank = rank_of s wc.qp_num in
    set_req w1 q (record (w1.reqs q) { rank = rank; rhandle = s.qp rank; size = wc.byte_len })

unfoldable pub recv_message : Build → Server → World → Wc → Option World
recv_message b s w wc = lci_serve_recv b (told s w wc) wc.wr_id wc.imm_data

-- `lc_pool_put` after a handler.
abbrev pub put_back : ℕ → Option World → Option World
put_back p none = none
put_back p (some w) = some (emit w (pool_put p))

-- The bytes of a rendezvous are in place: the packet that waits for them is named by its offset,
-- and the one that the notice came with goes back to the pool.
unfoldable pub recv_rtr : Build → Server → World → Wc → Option World
recv_rtr b s w wc = put_back wc.wr_id (lci_serve_imm b w (s.heap + bit_xor wc.imm_data imm_rtr))

unfoldable pub recv_put : Build → World → Wc → Option World
recv_put b w wc = lci_serve_recv_rdma b (own_req w wc.wr_id) wc.wr_id wc.imm_data

unfoldable pub on_recv : Build → Server → World → Wc → Option World
on_recv b s w wc =
    if wc.with_imm
    then if bit_and wc.imm_data imm_rtr == 0 then recv_put b w wc else recv_rtr b s w wc
    else recv_message b s w wc

-- `s->recv_posted--`
abbrev pub one_less : Server → Server
one_less s = record s { recv_posted = (s.recv_posted + 2 ^ 32 - 1) % 2 ^ 32 }

-- The completions of the receive queue.
unfoldable pub recv_loop : Build → Server → World → List Wc → Option (Server × World)
recv_loop b s w [] = some (s, w)
recv_loop b s w (wc ∷ wcs) = elim (on_recv b (one_less s) w wc) [
  | none ↦ none
  | some w' ↦ recv_loop b (one_less s) w' wcs
]

-- Those of the send queue, by their `wr_id`.
unfoldable pub send_loop : Build → World → List ℕ → Option World
send_loop b w [] = some w
send_loop b w (p ∷ ps) =
    elim (elim (p == 0) as (λ _. Option World) [ true ↦ some w | false ↦ lci_serve_send b w p ]) [
      | none ↦ none
      | some w' ↦ send_loop b w' ps
    ]

abbrev pub any_event : {A : Type 0} → List A → Bool
any_event [] = false
any_event (x ∷ xs) = true

-- A packet for the receive queue, if it has room: whether it had, and the state. `got` is the
-- answer of `lc_pool_get_nb`, and `local` that of `lc_pool_get_local`.
unfoldable pub refill : ℕ → ℕ → Server → World → Bool × Server × World
refill got local s w =
    let (s', w') = ibv_post_recv_ s w local got in
    if int_ltb s.recv_posted max_rcvs then (true, s', w') else (false, s, w)

abbrev pub after_sends : Bool → ℕ → ℕ → Server → Option World → Option (Bool × Server × World)
after_sends busy got local s none = none
after_sends busy got local s (some w) =
    let (room, s', w') = refill got local s w in some (busy || room, s', w')

abbrev pub after_recvs :
    Build → Bool → List ℕ → ℕ → ℕ → Option (Server × World) → Option (Bool × Server × World)
after_recvs b busy sends got local none = none
after_recvs b busy sends got local (some (s, w)) =
    after_sends (busy || any_event sends) got local s (send_loop b w sends)

-- `recvs` and `sends` are the answers of the two calls of `ibv_poll_cq`. What is returned first is
-- whether there was anything to do.
unfoldable pub lc_server_progress :
    Build → Server → World → List Wc → List ℕ → ℕ → ℕ → Option (Bool × Server × World)
lc_server_progress b s w recvs sends got local =
    after_recvs b (any_event recvs) sends got local (recv_loop b s w recvs)
