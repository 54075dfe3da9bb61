-- ===== src/Psm2/Posted.antt =====
-- The counter `recv_posted` of src/include/server/server_psm2.h.
use lc.Base.{
  ℕ, ◌+◌, ◌^◌, ◌<◌, ◌≡◌, ◌≢◌, ap, List, [], ◌∷◌, ◌++◌, Option, none, some, arith, ◌==◌,
  if◌then◌else◌, Bool-cases, inl, inr,
}
use mathlib.Core.Path.{subst}
use lc.Engine.{context_size, bytes_of, World, Build}
use lc.Psm2.{
  irecv, tag_trecv_data, tag_rrdma_dat, post_msg_size, post_recv_rma, Server, Mq, received,
  lc_server_post_recv,
}
use lc.Psm2.Progress.{
  Kind, message, put, put_sid, size_ahead, answer, long_sid, long, Status2, one_less, size_of,
  on_recv, with_server,
}

-- The receives that are posted into a packet, out of the calls of the library.
abbrev pub packet_recvs : List Mq → ℕ
packet_recvs [] = 0
packet_recvs (Mq.irecv t a z c r ∷ l) =
    if t.tag2 == 0x1000_0000 then 1 + packet_recvs l else packet_recvs l
packet_recvs (Mq.isend p t a z c r ∷ l) = packet_recvs l
packet_recvs (Mq.send p t a z ∷ l) = packet_recvs l
packet_recvs (Mq.send_size p t v ∷ l) = packet_recvs l
packet_recvs (Mq.enqueue x ∷ l) = packet_recvs l

-- Whether a message of a kind came into a packet that had been posted.
abbrev pub used : Kind → ℕ
used message = 1
used put = 1
used put_sid = 1
used size_ahead = 1
used answer = 0
used long_sid = 0
used long = 0

-- What the counter gains over the receives that are posted: a put's packet is posted again and
-- counted again, although the message had used up one that was counted.
abbrev pub drift : Kind → ℕ
drift put = 1
drift message = 0
drift put_sid = 0
drift size_ahead = 0
drift answer = 0
drift long_sid = 0
drift long = 0

packet_recvs-append :
    (l : List Mq) (c : Mq) → packet_recvs (l ++ c ∷ []) ≡ packet_recvs l + packet_recvs (c ∷ [])
packet_recvs-append [] c = omega arith
packet_recvs-append (Mq.irecv t a z x r ∷ l) c = ground (arith, packet_recvs-append l c)
packet_recvs-append (Mq.isend p t a z x r ∷ l) c = packet_recvs-append l c
packet_recvs-append (Mq.send p t a z ∷ l) c = packet_recvs-append l c
packet_recvs-append (Mq.send_size p t v ∷ l) c = packet_recvs-append l c
packet_recvs-append (Mq.enqueue x ∷ l) c = packet_recvs-append l c

-- The state of the server after a branch.
with_server-eq :
    (s s' : Server) (w' : World) (o : Option World) → with_server s o ≡ some (s', w') → s ≡ s'
with_server-eq s s' w' none h = cc
with_server-eq s s' w' (some w) h = ap (λ o. elim o [ none ↦ s | some x ↦ x.0 ]) h

abbrev Counted : Kind → Server → Server → Type 0
Counted k s s' =
    s'.recv_posted + used k + packet_recvs s.mq ≡ s.recv_posted + packet_recvs s'.mq + drift k

post_recv-Counted :
    (s : Server) (p : ℕ) → p ≢ 0 → s.recv_posted < 2 ^ 63 → Counted put s (lc_server_post_recv s p)
unfolding lc_server_post_recv
post_recv-Counted s p n hi =
    let call = irecv tag_trecv_data (p + context_size) post_msg_size (received p) p in
    let one : packet_recvs (s.mq ++ call ∷ []) ≡ packet_recvs s.mq + 1 =
      packet_recvs-append s.mq call in
    elim (Bool-cases (p == 0)) [
      | inl z ↦ absurd (n (ground (arith, z)))
      | inr z ↦ rw (z, lc_server_post_recv) (omega (arith, one))
    ]

-- The branch that reads the size of the bytes to come.
size_ahead-Counted :
    (s s' : Server) (w w' : World) (p : ℕ) (st : Status2) (o : Option (List ℕ))
    → 0 < s.recv_posted
    → s.recv_posted < 2 ^ 63
    → st.tag.tag1 < 2 ^ 28
    → elim o as (λ _. Option (Server × World)) [
      | none ↦ none
      | some bs ↦
          some (one_less (post_recv_rma s (st.tag.tag0 + s.heap) (size_of 8 bs) st.tag.tag1 p p), w)
    ]
      ≡ some (s', w')
    → Counted size_ahead s s'
size_ahead-Counted s s' w w' p st none lo hi key h = cc
size_ahead-Counted s s' w w' p st (some bs) lo hi key h =
    let call =
      irecv (tag_rrdma_dat st.tag.tag1) (st.tag.tag0 + s.heap) (size_of 8 bs) (received p) p in
    let none_more : packet_recvs (s.mq ++ call ∷ []) ≡ packet_recvs s.mq =
      ground (arith, packet_recvs-append s.mq call) in
    subst (Counted size_ahead s) (with_server-eq _ s' w' (some w) h) (omega (arith, none_more))

-- In a branch that returns, with at least one receive posted and fewer than 2^63, into a packet,
-- for a key below 2^28: the counter goes with the receives that are posted and used, but for a put,
-- where it gains one.
pub on_recv-posted :
    (k : Kind) (b : Build) (s s' : Server) (w w' : World) (p : ℕ) (st : Status2)
    → p ≢ 0
    → 0 < s.recv_posted
    → s.recv_posted < 2 ^ 63
    → st.tag.tag1 < 2 ^ 28
    → on_recv k b s w p st ≡ some (s', w')
    → s'.recv_posted + used k + packet_recvs s.mq ≡ s.recv_posted + packet_recvs s'.mq + drift k
unfolding on_recv
on_recv-posted message b s s' w w' p st n lo hi key h =
    subst (Counted message s) (with_server-eq _ s' w' _ h) (omega arith)
on_recv-posted put b s s' w w' p st n lo hi key h =
    subst (Counted put s) (with_server-eq _ s' w' _ h) (post_recv-Counted s p n hi)
on_recv-posted put_sid b s s' w w' p st n lo hi key h =
    subst (Counted put_sid s) (with_server-eq _ s' w' _ h) (omega arith)
on_recv-posted size_ahead b s s' w w' p st n lo hi key h =
    size_ahead-Counted s s' w w' p st (bytes_of (w.packets p).payload) lo hi key h
on_recv-posted answer b s s' w w' p st n lo hi key h =
    subst (Counted answer s) (with_server-eq _ s' w' _ h) (omega arith)
on_recv-posted long_sid b s s' w w' p st n lo hi key h =
    subst (Counted long_sid s) (with_server-eq _ s' w' _ h) (omega arith)
on_recv-posted long b s s' w w' p st n lo hi key h =
    subst (Counted long s) (with_server-eq _ s' w' (some _) h) (omega arith)
