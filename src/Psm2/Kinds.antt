-- ===== src/Psm2/Kinds.antt =====
-- The tag that each send puts on its messages, against the branch that the receiver takes.
use lc.Base.{ℕ, ◌^◌, ◌<◌, ◌≡◌, ◌≢◌, List, [], ◌∷◌, arith, bit_and}
use lc.Base.Bits.{bit_and-field}
use lc.Psm2.{
  Tag, Mq, Server, rdma_imm, lc_server_sendm, lc_server_sends, lc_server_puts, lc_server_putss,
  lc_server_putm, lc_server_putms, lc_server_putl, lc_server_putls, lc_server_rma_rtr,
}
use lc.Psm2.Progress.{Kind, message, put, put_sid, size_ahead, answer, long_sid, long, kind_of}

-- The tags of the calls, in order.
abbrev pub tags : List Mq → List Tag
tags [] = []
tags (Mq.irecv t a z c r ∷ l) = tags l
tags (Mq.isend p t a z c r ∷ l) = t ∷ tags l
tags (Mq.send p t a z ∷ l) = t ∷ tags l
tags (Mq.send_size p t v ∷ l) = t ∷ tags l
tags (Mq.enqueue x ∷ l) = tags l

abbrev pub kinds : List Tag → List Kind
kinds [] = []
kinds (t ∷ l) = kind_of t ∷ kinds l

-- A key has none of the bits of the type.
rkey-type : (rkey : ℕ) → rkey < 2 ^ 28 → bit_and rkey 0xF000_0000 ≡ 0
rkey-type rkey h = bit_and-field 28 15 rkey h

-- What each send asks of an idle library arrives as the kind of message that it means: bytes with a
-- word, bytes for the heap without and with a word, a size ahead of the bytes of a long message
-- without and with a word, and the bytes that answer a receiver, as long as the key is below 2^28
-- and a long message's word is not 2^31.
pub sends-kind_of :
    (s : Server) (rep buf offset rkey size word p : ℕ)
    → s.mq ≡ []
    → rkey < 2 ^ 28
    → word ≢ rdma_imm
    → (kinds (tags (lc_server_sendm s rep size p word).mq) ≡ message ∷ [])
      × (kinds (tags (lc_server_sends s rep buf size word).mq) ≡ message ∷ [])
      × (kinds (tags (lc_server_puts s rep buf offset size).mq) ≡ put ∷ [])
      × (kinds (tags (lc_server_putm s rep offset size p).mq) ≡ put ∷ [])
      × (kinds (tags (lc_server_putss s rep buf offset word size).mq) ≡ put_sid ∷ [])
      × (kinds (tags (lc_server_putms s rep offset size word p).mq) ≡ put_sid ∷ [])
      × (kinds (tags (lc_server_putl s rep buf offset rkey size p).mq) ≡ size_ahead ∷ long ∷ [])
      × (kinds (tags (lc_server_putls s rep buf offset rkey size word p).mq)
          ≡ size_ahead ∷ long_sid ∷ [])
      × (kinds (tags (lc_server_rma_rtr s rep buf rkey size word p).mq) ≡ answer ∷ [])
unfolding lc_server_sendm lc_server_sends lc_server_puts lc_server_putm lc_server_putss
    lc_server_putms lc_server_putl lc_server_putls lc_server_rma_rtr kind_of
sends-kind_of s rep buf offset rkey size word p e h n =
    let k = rkey-type rkey h in
    (
      ground (arith, e),
      ground (arith, e),
      ground (arith, e),
      ground (arith, e),
      ground (arith, e),
      ground (arith, e),
      ground (arith, e, k),
      ground (arith, e, k),
      ground (arith, e, k),
    )
